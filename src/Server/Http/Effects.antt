-- ===== src/Server/Http/Effects.antt =====
-- What a request does to the store of internal/storage/badger.go.
use mcpwatch.Base.{ℕ, ◌≡◌, ◌⊎◌, inl, inr, refl, Bytes}
use mcpwatch.Base.Float.{Float64}
use mcpwatch.Storage.Flush.{Badger, Coding, Store}
use mcpwatch.Storage.Lifecycle.{clear}
use mcpwatch.Storage.Api.{badger_api}
use mcpwatch.Storage.Timeline.History.{clears, Laws, Step, IsKept, archive, archive-Shows}
use mcpwatch.Storage.Timeline.History.Steps.{clear-Steps}
use mcpwatch.Storage.Timeline.Runs.{Shows-IsKept, Step-IsOrdered}
use mcpwatch.Server.Http.{Server, Request, serve}
use mcpwatch.Server.Http.Access.{Clears, serve-store}

module _ (fl : Float64) (b : Badger) (coding : Coding fl) (format : ℕ → Bytes) where
  -- The store after a request.
  abbrev pub served : Server → Request → Store fl b coding → Store fl b coding
  served server r s = (serve (badger_api fl b coding) format server r s).1

  cleared :
      (s : Store fl b coding)
      → Laws fl b coding
      → IsKept fl b coding s
      → let t = (clear fl b coding s).0 in
        IsKept fl b coding t
        × Step fl b coding (archive fl b coding s) clears (archive fl b coding t)
  cleared s laws k =
      let a = archive fl b coding s in
      let t = (clear fl b coding s).0 in
      let (a', step, x) =
        clear-Steps fl b coding s a laws
          (record { counter = refl; total = refl; keeps = k.keeps }) in
      (
        Shows-IsKept fl b coding t a' x (Step-IsOrdered fl b coding a a' clears step k.ordered),
        rw (archive-Shows fl b coding t a' x) step,
      )

  -- Over a database and an encoding that keep their laws, and from a store that is kept: an admitted
  -- POST to the path for clearing the store is a deletion of the archive, after which the ids begin
  -- anew, and any other request leaves the store as it is. The store stays kept.
  pub serve-Step :
      (server : Server) (r : Request) (s : Store fl b coding)
      → Laws fl b coding
      → IsKept fl b coding s
      → IsKept fl b coding (served server r s)
        × (((Clears (badger_api fl b coding) format server r → ⊥) × (served server r s ≡ s))
            ⊎ (Clears (badger_api fl b coding) format server r
                × Step fl b coding
                    (archive fl b coding s)
                    clears
                    (archive fl b coding (served server r s))))
  serve-Step server r s laws k = elim (serve-store (badger_api fl b coding) format server r s) [
    | inl (ne, same) ↦ (rw (same) k, inl (ne, same))
    | inr (asked, done) ↦
        let (kept, step) = cleared s laws k in (rw (done) kept, inr (asked, rw (done) step))
  ]
