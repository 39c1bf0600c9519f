-- ===== src/App/Program/Archives.antt =====
-- The whole program with the store of internal/storage/badger.go.
use mcpwatch.Base.{
  ℕ, ◌≤◌, ◌≡◌, ◌≢◌, sym, ap, ◌∙◌, false, Option, some, List, ◌++◌, map, All, Bytes, length, Bool,
  arith,
}
use mcpwatch.Base.Float.{Float64}
use mcpwatch.Engine.Message.{Message}
use mcpwatch.Engine.Json.{Codec}
use mcpwatch.Engine.Correlator.{outputs}
use mcpwatch.Storage.Flush.{Badger, Accepts, Coding, Store, flush}
use mcpwatch.Storage.Queue.{new_pipeline}
use mcpwatch.Storage.Queue.Batches.{joined}
use mcpwatch.Storage.Timeline.Batch.{Storable}
use mcpwatch.Storage.Timeline.History.{flushes, Laws, IsKept, archive}
use mcpwatch.Storage.Timeline.Stored.{Adds, History-Adds}
use mcpwatch.Storage.Timeline.Runs.{
  changes-History, changes-flushes, ids-flushes, StorableIn-joined, RoomFor,
}
use mcpwatch.Server.Hub.Safety.{IsSound}
use mcpwatch.App.Loop.{System}
use mcpwatch.App.Program.{Event, context_ends, Program, new_program, channel_capacity, program_run}
use mcpwatch.App.Program.Settles.{sent, take_all, drain_all}
use mcpwatch.App.Program.Delivers.{program_run-delivers}

module _ (fl : Float64) (b : Badger) (coding : Coding fl) {F : Type 0} (codec : Codec F)
    (tracing : Bool) (encode : Message → Option Bytes) where
  abbrev run : List Event → Program fl (Store fl b coding) → Option (Program fl (Store fl b coding))
  run = program_run fl codec tracing encode (flush fl b coding)

  -- A program that starts with a sound hub, an empty queue and a store that is kept, and is not
  -- cancelled, over a database and an encoding that keep their laws and a database that refuses no
  -- call. The messages, as the correlator leaves them, are of times that fit the keys and are read
  -- back as they are stored, and there is room for their ids. When its transport has sent no more
  -- messages than the channel holds, however that interleaves with the loop, the store and the hub,
  -- and then loop and store have had time for as many and the ticker has come once, the messages sent,
  -- as the correlator left them, have got ids in order, and those that can be encoded with theirs are
  -- at their places among what `QueryAll` returned before. It returns them in the order of time and,
  -- at the same time, of ids.
  pub program_run-Adds :
      (es : List Event) (n : ℕ) (s : System fl (Store fl b coding)) (store : Store fl b coding)
      → Laws fl b coding
      → Accepts b
      → IsKept fl b coding store
      → IsSound s.hub
      → s.returned ≡ false
      → s.pipeline ≡ new_pipeline store
      → All (λ e. e ≢ context_ends) es
      → length (sent es) ≤ channel_capacity
      → length (sent es) ≤ n
      → let out = outputs codec tracing (sent es) s.correlator s.env in
        All (Storable fl b coding) out
        → RoomFor fl b coding store out
        → (q : Program fl (Store fl b coding)) × (run
              (es ++ (take_all n ++ drain_all n))
              (new_program fl s)
            ≡ some q)
          × Adds fl b coding
              (archive fl b coding store)
              out
              (archive fl b coding q.system.pipeline.sink)
          × IsKept fl b coding q.system.pipeline.sink
  program_run-Adds es n s store laws acc k v l new ne room enough all few =
      let (q, e, _, _, (bs, _, whole, sunk)) =
        program_run-delivers fl codec tracing encode (flush fl b coding) es n s store v l new ne
          room enough in
      let storable : All (Storable fl b coding) (joined bs) = rw (whole) all in
      let used = ids-flushes fl b coding bs in
      let (past, kept) =
        changes-History fl b coding (map flushes bs) store laws
          (StorableIn-joined fl b coding bs storable)
          (omega (arith, few.0, used, ap length whole), omega (arith, few.1, used, ap length whole))
          k in
      let same = sunk ∙ sym (changes-flushes fl b coding bs store) in
      let adds =
        History-Adds fl b coding bs (archive fl b coding store) _ acc
          (omega (arith, few.0, ap length whole)) past in
      (q, e, rw (sym whole, same) adds, rw (same) kept)
