-- ===== src/App/Tests/Programs.antt =====
-- Runs of the whole program, and the theorems on them at concrete inputs.
use mcpwatch.Base.{
  ℕ, ◌+◌, ◌<◌, ◌≡◌, refl, ap, sym, some, some_inj, true, false, List, [], ◌∷◌, ◌++◌, foldl, All,
  arith,
}
use mcpwatch.Engine.Message.{Message}
use mcpwatch.Engine.Correlator.{
  outputs, process, dispatch, process_request, start_span, new_correlator,
}
use mcpwatch.Storage.Queue.{new_pipeline}
use mcpwatch.Storage.Queue.Batches.{joined, IsBatch, waiting}
use mcpwatch.Storage.Flush.{Store, flush}
use mcpwatch.Storage.Timeline.Batch.{Storable}
use mcpwatch.Storage.Timeline.History.{IsKept, archive}
use mcpwatch.Storage.Timeline.Stored.{Adds}
use mcpwatch.Storage.Sample.{
  database, database-Accepts, coding, store, message_of, lookup, laws, store-IsKept,
}
use mcpwatch.Storage.Sample
use mcpwatch.Server.Hub.{new_hub, accepts}
use mcpwatch.Server.Hub.Safety.{new_hub-IsSound}
use mcpwatch.App.Loop.{System}
use mcpwatch.App.Program.{
  Event, sends, takes, handler_ends, store_takes, store_ticker, hub_does, Program, new_program,
  program_run,
}
use mcpwatch.App.Program.Carries.{admitted, loop_events, Carries, program_run-Carries}
use mcpwatch.App.Program.Settles.{take_all, drain_all}
use mcpwatch.App.Program.Delivers.{program_run-delivers}
use mcpwatch.App.Program.Archives.{program_run-Adds}
use mcpwatch.App.Tests.{whole, codec, ask, reply, system, encode, note_batch}

abbrev steps : List Event
steps =
    sends ask
    ∷ hub_does accepts
    ∷ takes
    ∷ sends reply
    ∷ store_ticker
    ∷ takes
    ∷ store_takes
    ∷ sends ask
    ∷ handler_ends
    ∷ []

program_run-Carries_example :
    (q : Program whole (List (List Message))) × (program_run whole codec true encode note_batch
        steps
        (new_program whole system)
      ≡ some q)
    × Carries whole codec true encode note_batch
        (loop_events whole codec true encode note_batch steps (new_program whole system))
        (admitted whole codec true encode note_batch steps (new_program whole system))
        (new_program whole system)
        q
program_run-Carries_example =
    program_run-Carries whole codec true encode note_batch steps (new_program whole system)
      new_hub-IsSound (omega arith)

program_run-delivers_example :
    (q : Program whole (List (List Message))) × (program_run whole codec true encode note_batch
        (steps ++ (take_all 3 ++ drain_all 3))
        (new_program whole system)
      ≡ some q)
    × (q.messages.items ≡ [])
    × (waiting note_batch q.system.pipeline ≡ [])
    × ((bs : List (List Message)) × All IsBatch bs
        × (joined bs ≡ outputs codec true (ask ∷ reply ∷ ask ∷ []) system.correlator system.env)
        × (q.system.pipeline.sink ≡ foldl (λ x b. note_batch b x) [] bs))
program_run-delivers_example =
    program_run-delivers whole codec true encode note_batch steps 3 system [] new_hub-IsSound refl
      refl
      (
        (λ e. cc),
        (
          (λ e. cc),
          (
            (λ e. cc),
            ((λ e. cc), ((λ e. cc), ((λ e. cc), ((λ e. cc), ((λ e. cc), ((λ e. cc), tt)))))),
          ),
        ),
      )
      (omega arith) (omega arith)

abbrev at_time : ℕ → Message
at_time t = record Sample.ask { timestamp = 63_000_000_000_000_000_000 + t }

abbrev storing : System Sample.whole (Store Sample.whole database coding)
storing = record {
  correlator = new_correlator;
  env = system.env;
  updates = [];
  pipeline = new_pipeline store;
  hub = new_hub;
  cancelled = false;
  returned = false;
}

storable : (t : ℕ) → t < 1000 → Storable Sample.whole database coding (at_time t)
storable t h = ((omega arith, omega (arith, h)), λ n v e. ap message_of (sym (some_inj _ _ e)))

abbrev two : List Event
two = sends (at_time 9) ∷ takes ∷ sends (at_time 4) ∷ store_takes ∷ []

program_run-Adds_example :
    let out = outputs codec false (at_time 9 ∷ at_time 4 ∷ []) new_correlator system.env in
    (q : Program Sample.whole (Store Sample.whole database coding)) × (program_run Sample.whole
        codec false encode
        (flush Sample.whole database coding)
        (two ++ (take_all 2 ++ drain_all 2))
        (new_program Sample.whole storing)
      ≡ some q)
    × Adds Sample.whole database coding
        (archive Sample.whole database coding store)
        out
        (archive Sample.whole database coding q.system.pipeline.sink)
    × IsKept Sample.whole database coding q.system.pipeline.sink
unfolding lookup outputs process dispatch process_request start_span
program_run-Adds_example =
    program_run-Adds Sample.whole database coding codec false encode two 2 storing store laws
      database-Accepts store-IsKept new_hub-IsSound refl refl
      ((λ e. cc), ((λ e. cc), ((λ e. cc), ((λ e. cc), tt)))) (omega arith) (omega arith)
      (storable 9 (omega arith), (storable 4 (omega arith), tt)) (omega arith, omega arith)
