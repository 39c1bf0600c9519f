-- ===== src/Transport/StreamBuffer.antt =====
-- internal/transport/ebpf_parser.go: JSON texts and lines cut out of a stream of bytes.
pub mod Laws
pub mod Balanced
pub mod Complete
pub mod Stderr
pub mod Drained
use mcpwatch.Base.{
  ℕ, zero, suc, ◌+◌, Bool, true, false, not, ◌||◌, Option, none, some, List, [], ◌∷◌, ◌++◌, reverse,
  Bytes, length, take, drop, ◌==◌, if◌then◌else◌,
}
use mcpwatch.Base.Int.{ℤ, pos, increment, decrement, is_zero}
use mcpwatch.Transport.Cutter.{Cutter, drain}
use mcpwatch.Transport.Lines.{line_cutter}

-- `{` or `[`.
unfoldable pub is_opener : ℕ → Bool
is_opener b = b == b'{' || b == b'['

-- `}` or `]`.
unfoldable pub is_closer : ℕ → Bool
is_closer b = b == b'}' || b == b']'

-- The data from the index that `bytes.IndexAny(data, "{[")` finds; empty if it is -1.
unfoldable pub from_opener : Bytes → Bytes
from_opener [] = []
from_opener (b ∷ s) = if is_opener b then b ∷ s else from_opener s

-- The variables of the inner loop.
pub record Scan : Type 0 where
  pub depth : ℤ
  pub in_string : Bool
  pub escape : Bool

abbrev pub scan_start : Scan
scan_start = record { depth = pos 0; in_string = false; escape = false }

-- One round of the loop: `none` is the jump out of it, behind the byte that closes the text.
unfoldable pub scan_byte : Scan → ℕ → Option Scan
unfolding is_opener is_closer
scan_byte s b =
    if s.escape
    then some (record s { escape = false })
    else if b == b'\\'
    then some (record s { escape = true })
    else if b == b'"'
    then some (record s { in_string = not s.in_string })
    else if is_opener b
    then (if s.in_string then some s else some (record s { depth = increment s.depth }))
    else if is_closer b
    then (if s.in_string
        then some s
        else if is_zero (decrement s.depth)
        then none
        else some (record s { depth = decrement s.depth }))
    else some s

-- How many bytes the first text takes, if it is complete.
unfoldable pub scan : Scan → Bytes → Option ℕ
scan s [] = none
scan s (b ∷ data') = elim (scan_byte s b) [
  | none ↦ some 1
  | some s' ↦ elim (scan s' data') [ none ↦ none | some n ↦ some (suc n) ]
]

-- The text at the front of the data, and what follows it.
unfoldable pub cut_text : Bytes → Option (Bytes × Bytes)
cut_text start = elim (scan scan_start start) [
  | none ↦ none
  | some n ↦ some (take n start, drop n start)
]

-- One round of the outer loop.
unfoldable pub cut_json : Bytes → Option (Bytes × Bytes)
cut_json buf = cut_text (from_opener buf)

abbrev pub json_cutter : Cutter
json_cutter = record { cut = cut_json; keep = from_opener }

pub record StreamBuffer : Type 0 where
  pub buf : Bytes

abbrev pub append : Bytes → List Bytes → List Bytes
append t ts = ts ++ t ∷ []

-- `extractJSON`: the texts, and the buffer that is left.
unfoldable pub extract_json : StreamBuffer → List Bytes × StreamBuffer
extract_json s =
    let (buf, texts) = drain json_cutter append s.buf [] in (texts, record { buf = buf })

-- `line[:len(line)-1]` if the last byte is `\r`.
unfoldable pub strip_return : Bytes → Bytes
strip_return [] = []
strip_return (c ∷ []) = if c == b'\r' then [] else c ∷ []
strip_return (c ∷ d ∷ s) = c ∷ strip_return (d ∷ s)

-- `extractLines`.
unfoldable pub extract_lines : StreamBuffer → List Bytes × StreamBuffer
unfolding strip_return
extract_lines s =
    let (buf, lines) = drain line_cutter (λ l ls. append (strip_return l) ls) s.buf [] in
    (lines, record { buf = buf })
