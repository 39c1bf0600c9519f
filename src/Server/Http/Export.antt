-- ===== src/Server/Http/Export.antt =====
-- The rows of the CSV export.
use mcpwatch.Base.{ℕ, suc, ◌≡◌, refl, ap, some, List, [], ◌∷◌, map, Bytes, length, All}
use mcpwatch.Engine.Message.{Message}
use mcpwatch.Storage.Api.{StoreApi}
use mcpwatch.Server.Http.{
  Request, export_csv, rows_csv, reply, csv_header, csv_row, handle, or_error,
}

-- A row has a field for each name of the header.
abbrev pub IsRow : List Bytes → Type 0
IsRow row = length row ≡ length csv_header

rows-IsRow : (format : ℕ → Bytes) (ms : List Message) → All IsRow (map (csv_row format) ms)
unfolding csv_row
rows-IsRow format [] = tt
rows-IsRow format (m ∷ ms) = (refl, rows-IsRow format ms)

length-rows :
    (format : ℕ → Bytes) (ms : List Message) → length (map (csv_row format) ms) ≡ length ms
length-rows format [] = refl
length-rows format (m ∷ ms) = ap suc (length-rows format ms)

module _ {Statistics : Type 0} (api : StoreApi Statistics) (format : ℕ → Bytes) where
  -- If the messages can be read, the export has a row for each of them under the header, in their
  -- order, and each row has as many fields as the header.
  handle-csv :
      (r : Request) (st : api.S) (ms : List Message)
      → api.all st ≡ some ms
      → (rows : List (List Bytes)) × (handle api format export_csv r st
          ≡ (reply 200 (rows_csv (csv_header ∷ rows)), st))
        × (rows ≡ map (csv_row format) ms)
        × (length rows ≡ length ms)
        × All IsRow rows
  unfolding handle or_error
  handle-csv r st ms e = (
    map (csv_row format) ms,
    ap (λ o. (or_error (λ x. rows_csv (csv_header ∷ map (csv_row format) x)) o, st)) e,
    refl,
    length-rows format ms,
    rows-IsRow format ms,
  )
