-- ===== src/Storage/Query.antt =====
-- internal/storage/badger.go: the two queries.
pub mod Order
use mcpwatch.Base.{
  ℕ, Bool, Option, none, some, List, [], ◌∷◌, ◌++◌, Bytes, codes, length, not, if◌then◌else◌,
}
use mcpwatch.Base.Int.{ℤ, pos, ltb_ℤ}
use mcpwatch.Base.Float.{Float64}
use mcpwatch.Engine.Message.{Message}
use mcpwatch.Storage.Flush.{Badger, Coding, Store}

-- `len(messages) >= limit`.
abbrev pub enough : ℤ → List Message → Bool
enough limit ms = not (ltb_ℤ (pos (length ms)) limit)

module _ (decode : Bytes → Option Message) where
  -- The loop of `QueryAll`; an entry that cannot be decoded is passed over.
  unfoldable pub scan_all : List (Bytes × Bytes) → List Message → List Message
  scan_all [] out = out
  scan_all ((k, v) ∷ es) out = elim (decode v) [
    | none ↦ scan_all es out
    | some m ↦ scan_all es (out ++ m ∷ [])
  ]

  -- The loop of `QueryRecent`.
  unfoldable pub scan_recent : ℤ → List (Bytes × Bytes) → List Message → List Message
  scan_recent limit [] out = out
  scan_recent limit ((k, v) ∷ es) out = elim (decode v) [
    | none ↦ scan_recent limit es out
    | some m ↦ elim (enough limit (out ++ m ∷ [])) [
      | Bool.true ↦ out ++ m ∷ []
      | Bool.false ↦ scan_recent limit es (out ++ m ∷ [])
    ]
  ]

module _ (fl : Float64) (b : Badger) (coding : Coding fl) where
  open b use {pairs, pairs_reversed}
  open coding use {message_from}

  abbrev pub message_prefix : Bytes
  message_prefix = codes "msg:"

  -- `QueryAll`.
  unfoldable pub query_all : Store fl b coding → List Message
  unfolding scan_all
  query_all s = scan_all message_from (pairs message_prefix s.db) []

  -- `QueryRecent`, which seeks behind the last key of the prefix and goes backwards.
  unfoldable pub query_recent : ℤ → Store fl b coding → List Message
  unfolding scan_recent
  query_recent limit s = scan_recent message_from limit (pairs_reversed message_prefix s.db) []
