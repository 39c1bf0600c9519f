-- ===== src/Storage/Api.antt =====
-- What the server uses of the store, and the store of internal/storage/badger.go as an instance.
use mcpwatch.Base.{Bool, Option, some, List}
use mcpwatch.Base.Int.{ℤ}
use mcpwatch.Base.Float.{Float64}
use mcpwatch.Engine.Message.{Message}
use mcpwatch.Storage.Flush.{Badger, Coding, Stats, Store}
use mcpwatch.Storage.Lifecycle.{get_stats, clear}
use mcpwatch.Storage.Query.{query_all, query_recent}

-- `none` and `false` are errors.
pub record StoreApi (Statistics : Type 0) : Type 1 where
  pub S : Type 0
  pub recent : ℤ → S → Option (List Message)
  pub all : S → Option (List Message)
  pub stats : S → Option Statistics
  pub reset : S → S × Bool

-- BadgerDB's views fail only on a closed database, which the program does not use.
abbrev pub badger_api : (fl : Float64) (b : Badger) → Coding fl → StoreApi (Stats fl)
badger_api fl b coding = record {
  S = Store fl b coding;
  recent = λ limit s. some (query_recent fl b coding limit s);
  all = λ s. some (query_all fl b coding s);
  stats = get_stats fl b coding;
  reset = clear fl b coding;
}
