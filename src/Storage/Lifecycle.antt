-- ===== src/Storage/Lifecycle.antt =====
-- internal/storage/badger.go: `New`, `GetStats` and `Clear`.
use mcpwatch.Base.{Bool, Option, none, some, ◌>>=◌, if◌then◌else◌}
use mcpwatch.Base.Float.{Float64}
use mcpwatch.Storage.Flush.{
  Badger, Lookup, found, not_found, lookup_failed, Stats, Coding, no_stats, Store, stats_key,
}

module _ (fl : Float64) (b : Badger) (coding : Coding fl) where
  open b use {D, get, set, commit, drop_all}
  open coding use {stats_bytes, stats_of, stats_valid}

  -- `GetStats`; no statistics stand for an error, also one of decoding.
  unfoldable pub get_stats : Store fl b coding → Option (Stats fl)
  get_stats s = elim (get (stats_key fl b coding) s.db) [
    | found v ↦ if stats_valid v then some (stats_of v) else none
    | not_found ↦ none
    | lookup_failed ↦ none
  ]

  -- The transaction of `New`, from what it reads.
  unfoldable pub init_stats : Lookup → D → Option (Store fl b coding)
  init_stats (found v) db = do
    db' ← commit db db
    some (record { db = db'; id_counter = (stats_of v).total_messages })
  init_stats not_found db = do
    view ← set (stats_key fl b coding) (stats_bytes (no_stats fl)) db
    db' ← commit db view
    some (record { db = db'; id_counter = 0 })
  init_stats lookup_failed db = none

  -- `New`, of the database that `badger.Open` gives.
  unfoldable pub new_store : Option D → Option (Store fl b coding)
  unfolding init_stats
  new_store none = none
  new_store (some db) = init_stats (get (stats_key fl b coding) db) db

  -- `Clear`: the store afterwards, and whether it succeeded. The counter is reset in any case.
  unfoldable pub clear : Store fl b coding → Store fl b coding × Bool
  clear s =
      let reset = record s { id_counter = 0 } in
      elim (drop_all s.db) [
        | none ↦ (reset, Bool.false)
        | some db ↦
            elim (do
              view ← set (stats_key fl b coding) (stats_bytes (no_stats fl)) db
              commit db view) [
                | none ↦ (record reset { db = db }, Bool.false)
                | some db' ↦ (record reset { db = db' }, Bool.true)
              ]
      ]
