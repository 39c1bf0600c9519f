-- ===== src/Storage/Timeline/Tests.antt =====
-- Runs of the queue and the store, and the theorems on timelines at concrete inputs.
use mcpwatch.Base.{some_inj, ℕ, ◌+◌, ◌<◌, ◌≡◌, ap, sym, List, [], ◌∷◌, ◌++◌, map, arith}
use mcpwatch.Engine.Message.{Message}
use mcpwatch.Storage.Flush.{flush}
use mcpwatch.Storage.Queue.{
  new_pipeline, Event, inserts, receives, ticks, drain_step, receive_from, tick_from, drain_run,
}
use mcpwatch.Base.Channel.{try_send}
use mcpwatch.Storage.Queue.Batches.{joined, waiting, accepted}
use mcpwatch.Storage.Timeline.Batch.{Storable}
use mcpwatch.Storage.Timeline.History.{
  Change, flushes, clears, reopens, changes, History, IsKept, archive,
}
use mcpwatch.Storage.Timeline.Runs.{changes-History, drain_run-History}
use mcpwatch.Storage.Sample.{
  lookup, laws, store-IsKept, ask, whole, database, coding, store, message_of,
}

abbrev at_time : ℕ → Message
at_time t = record ask { timestamp = 63_000_000_000_000_000_000 + t }

storable : (t : ℕ) → t < 1000 → Storable whole database coding (at_time t)
storable t h = ((omega arith, omega (arith, h)), λ n v e. ap message_of (sym (some_inj _ _ e)))

abbrev past : List Change
past =
    flushes (at_time 3 ∷ at_time 1 ∷ [])
    ∷ clears
    ∷ flushes (at_time 9 ∷ at_time 7 ∷ [])
    ∷ reopens
    ∷ flushes (at_time 8 ∷ [])
    ∷ []

changes-History_example :
    let t = changes whole database coding past store in
    History whole database coding
      (archive whole database coding store)
      past
      (archive whole database coding t)
    × IsKept whole database coding t
unfolding lookup
changes-History_example =
    changes-History whole database coding past store laws
      (
        (storable 3 (omega arith), (storable 1 (omega arith), tt)),
        (
          tt,
          (
            (storable 9 (omega arith), (storable 7 (omega arith), tt)),
            (tt, ((storable 8 (omega arith), tt), tt)),
          ),
        ),
      )
      (omega arith, omega arith) store-IsKept

abbrev run : List Event
run =
    inserts (at_time 5)
    ∷ inserts (at_time 4)
    ∷ receives
    ∷ ticks
    ∷ receives
    ∷ inserts (at_time 6)
    ∷ ticks
    ∷ []

drain_run-History_example :
    let flush' = flush whole database coding in
    let q = drain_run flush' run (new_pipeline store) in
    (bs : List (List Message)) × (joined bs ++ waiting flush' q
      ≡ accepted flush' run (new_pipeline store))
    × History whole database coding
        (archive whole database coding store)
        (map flushes bs)
        (archive whole database coding q.sink)
    × IsKept whole database coding q.sink
unfolding lookup drain_step tick_from receive_from try_send
drain_run-History_example =
    drain_run-History whole database coding run (new_pipeline store) laws (omega arith)
      (storable 5 (omega arith), (storable 4 (omega arith), (storable 6 (omega arith), tt)))
      (omega arith, omega arith) store-IsKept
