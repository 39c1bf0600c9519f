-- ===== src/Storage/Tests.antt =====
-- Runs of the store, and the theorems at concrete inputs.
use mcpwatch.Base.{
  ◌+◌, ◌%◌, ◌≡◌, ◌⊎◌, ◌↔◌, refl, true, some, List, [], ◌∷◌, ◌++◌, reverse, take, codes, arith,
}
use mcpwatch.Base.Int.{pos}
use mcpwatch.Engine.Message.{Message}
use mcpwatch.Storage.Key.{message_key, padded, padded_ℤ, digits}
use mcpwatch.Storage.Key.Order.{before, Earlier, message_key-before}
use mcpwatch.Storage.Queue.{Event, inserts, receives, ticks}
use mcpwatch.Storage.Flush.{Accepts, word, Stats, Store, flush}
use mcpwatch.Storage.Lifecycle.{get_stats}
use mcpwatch.Storage.Flush.Sums.{Counts}
use mcpwatch.Storage.Flush.Counts.{stored, stats_before, flush-Counts}
use mcpwatch.Storage.Query.{query_all, query_recent}
use mcpwatch.Storage.Query.Order.{query_recent-take}
use mcpwatch.Storage.Sample.{
  ask, answer, whole, lookup, database, database-Stores, coding, store, whole-CodesStats,
}

two_keys : message_key (pos 1_700_000_000_000_000_007) 42 ≡ codes "msg:1700000000000000007:000042"
unfolding message_key padded_ℤ padded digits
two_keys = refl

message_key-before_example :
    (before (message_key (pos 5) 999_999) (message_key (pos 6) 1) ≡ true) ↔ Earlier 5 999_999 6 1
message_key-before_example =
    message_key-before 5 999_999 6 1 (omega arith, omega arith) (omega arith, omega arith)

-- A sink that lists its batches.
abbrev note_batch : List Message → List (List Message) → List (List Message)
note_batch b s = s ++ b ∷ []

abbrev events : List Event
events = inserts ask ∷ receives ∷ inserts answer ∷ ticks ∷ receives ∷ ticks ∷ inserts ask ∷ []

flush-Counts_example :
    let s' = flush whole database coding (ask ∷ answer ∷ []) store in
    ((s'.db ≡ store.db) × (Accepts database → ⊥))
    ⊎ ((t : Stats whole) × Counts whole
          (stats_before whole database coding store)
          (stored whole database coding 0 (ask ∷ answer ∷ []))
          t
        × (s'.id_counter ≡ (0 + 2) % word)
        × (get_stats whole database coding s' ≡ some t))
unfolding lookup
flush-Counts_example =
    flush-Counts whole database coding (ask ∷ answer ∷ []) store database-Stores whole-CodesStats
      (record {
        messages = omega arith;
        requests = omega arith;
        errors = omega arith;
        bytes = omega arith;
        tokens = omega arith;
      })
      (omega arith)

abbrev flushed : Store whole database coding
flushed = flush whole database coding (ask ∷ answer ∷ []) store

query_recent-take_example :
    query_recent whole database coding (pos 1) flushed
    ≡ take 1 (reverse (query_all whole database coding flushed))
query_recent-take_example =
    query_recent-take whole database coding 1 flushed (λ d. refl) (omega arith)
