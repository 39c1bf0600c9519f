-- ===== src/App/Program/Delivers.antt =====
-- What a transport sends gets through the whole program to the database.
use mcpwatch.Base.{
  lengths, ℕ, ◌≤◌, ◌≡◌, ◌≢◌, refl, sym, ap, ◌∙◌, false, Option, some, some_inj, ◌>>=◌, List, [],
  ◌∷◌, ◌++◌, append-nil, append_assoc, foldl, All, All-append, Bytes, length, Bool, arith,
}
use mcpwatch.Base.Float.{Float64}
use mcpwatch.Engine.Message.{Message}
use mcpwatch.Engine.Json.{Codec}
use mcpwatch.Engine.Correlator.{Correlator, Env, process, outputs}
use mcpwatch.Storage.Queue.{new_pipeline, drain_run}
use mcpwatch.Storage.Queue.Batches.{joined, IsBatch, waiting}
use mcpwatch.Storage.Queue.Delivers.{catch_up, drain_run-append}
use mcpwatch.Storage.Queue.Room.{inserted, new_pipeline-delivers}
use mcpwatch.Server.Hub.Safety.{IsSound}
use mcpwatch.App.Loop.{context_done, System, system_run}
use mcpwatch.App.Loop
use mcpwatch.App.Loop.Run.{queue_events, system_run-Runs}
use mcpwatch.App.Loop.Exchange.{messages_of}
use mcpwatch.App.Loop.Outputs.{handled-outputs, inserted-handled}
use mcpwatch.App.Program.{Event, context_ends, Program, new_program, channel_capacity, program_run}
use mcpwatch.App.Program.Carries.{admitted, loop_events, Carries-trans, program_run-Carries}
use mcpwatch.App.Program.Settles.{sent, take_all, drain_all, admitted-sent, loop_events-goes_on}
use mcpwatch.App.Program.Empties.{
  run, Carries-live, take_all-empties, take_all-goes_on, drain_all-runs, program_run-append,
}

length-outputs :
    {F : Type 0} (codec : Codec F) (tracing : Bool) (ms : List Message) (c : Correlator) (v : Env)
    → length (outputs codec tracing ms c v) ≡ length ms
unfolding outputs
length-outputs codec tracing [] c v = refl
length-outputs codec tracing (m ∷ ms) c v =
    let x = process codec tracing m c v in omega (arith, length-outputs codec tracing ms x.0 x.1)

module _ {ℓ} (fl : Float64) {F : Type 0} {S : Type ℓ} (codec : Codec F) (tracing : Bool)
    (encode : Message → Option Bytes) (flush : List Message → S → S) where
  -- A run of a program that goes on and whose channel has got empty.
  pub record Empties (es : List Event) (n : ℕ) (p q : Program fl S) : Type ℓ where
    pub runs : run fl codec tracing encode flush (es ++ take_all n) p ≡ some q
    pub empty : q.messages.items ≡ []
    pub live : q.system.returned ≡ false
    pub events : List Loop.Event
    pub goes_on : All (λ e. e ≢ context_done) events
    pub looped : system_run fl codec tracing encode flush events p.system ≡ some q.system
    pub messages : messages_of events ≡ sent es

  run-Empties :
      (es : List Event) (n : ℕ) (s : System fl S)
      → IsSound s.hub
      → s.returned ≡ false
      → All (λ e. e ≢ context_ends) es
      → length (sent es) ≤ channel_capacity
      → length (sent es) ≤ n
      → (q : Program fl S) × Empties es n (new_program fl s) q
  run-Empties es n s v l ne room enough =
      let p = new_program fl s in
      let all =
        admitted-sent fl codec tracing encode flush es p v (omega arith) (omega (arith, room)) in
      let (q, e, c) = program_run-Carries fl codec tracing encode flush es p v (omega arith) in
      let ls = loop_events fl codec tracing encode flush es p in
      let on = loop_events-goes_on fl codec tracing encode flush es p ne in
      let live = Carries-live fl codec tracing encode flush ls _ p q c v l on in
      let few : length q.messages.items ≤ n =
        grind (lengths, enough, ap length c.kept, ap length all) in
      let (r, f, d, empty) =
        take_all-empties fl codec tracing encode flush n q c.sound c.bounded live few in
      let ks = loop_events fl codec tracing encode flush (take_all n) q in
      let more =
        loop_events-goes_on fl codec tracing encode flush (take_all n) q
          (take_all-goes_on fl codec tracing encode flush n) in
      let whole = Carries-trans fl codec tracing encode flush ls ks _ [] p q r c d in
      (
        r,
        record {
          runs =
              program_run-append fl codec tracing encode flush es (take_all n) p
              ∙ ap (λ o. o >>= run fl codec tracing encode flush (take_all n)) e
              ∙ f;
          empty = empty;
          live = Carries-live fl codec tracing encode flush ks [] q r d c.sound live more;
          events = ls ++ ks;
          goes_on = All-append (λ e. e ≢ context_done) ls ks on more;
          looped = whole.looped;
          messages =
              sym (append-nil (messages_of (ls ++ ks)))
              ∙ ap (λ x. messages_of (ls ++ ks) ++ x) (sym empty)
              ∙ whole.kept
              ∙ append-nil (admitted fl codec tracing encode flush es p)
              ∙ all;
        },
      )

  -- The inserts into the store's queue are what the correlator makes of the messages sent.
  inserted-outputs :
      (es : List Event) (n : ℕ) (s : System fl S) (q : Program fl S)
      (x : Empties es n (new_program fl s) q)
      → IsSound s.hub
      → s.returned ≡ false
      → inserted (queue_events fl codec tracing encode flush x.events s)
        ≡ outputs codec tracing (sent es) s.correlator s.env
  inserted-outputs es n s q x v l =
      inserted-handled fl codec tracing encode flush x.events s
      ∙ handled-outputs fl codec tracing encode flush x.events s v l x.goes_on
      ∙ ap (λ ms. outputs codec tracing ms s.correlator s.env) x.messages

  -- A program that starts with a sound hub and an empty queue and is not cancelled. When its
  -- transport has sent no more messages than the channel holds, in any interleaving with the loop,
  -- the store and the hub, and then the loop and the store have had time for as many and the ticker
  -- has come once, nothing waits any more: every message is in a batch that was flushed, in order
  -- and each once, as the correlator left it.
  pub program_run-delivers :
      (es : List Event) (n : ℕ) (s : System fl S) (sink : S)
      → IsSound s.hub
      → s.returned ≡ false
      → s.pipeline ≡ new_pipeline sink
      → All (λ e. e ≢ context_ends) es
      → length (sent es) ≤ channel_capacity
      → length (sent es) ≤ n
      → (q : Program fl S) × (program_run fl codec tracing encode flush
            (es ++ (take_all n ++ drain_all n))
            (new_program fl s)
          ≡ some q)
        × (q.messages.items ≡ [])
        × (waiting flush q.system.pipeline ≡ [])
        × ((bs : List (List Message)) × All IsBatch bs
            × (joined bs ≡ outputs codec tracing (sent es) s.correlator s.env)
            × (q.system.pipeline.sink ≡ foldl (λ x b. flush b x) sink bs))
  program_run-delivers es n s sink v l new ne room enough =
      let p = new_program fl s in
      let (q, x) = run-Empties es n s v l ne room enough in
      let (r, e, same, drained) = drain_all-runs fl codec tracing encode flush n q x.live in
      let qs = queue_events fl codec tracing encode flush x.events s in
      let (t, et, done) = system_run-Runs fl codec tracing encode flush x.events s v in
      let ins = inserted-outputs es n s q x v l in
      let size = ap length ins ∙ length-outputs codec tracing (sent es) s.correlator s.env in
      let (empty, (bs, small, whole, sunk)) =
        new_pipeline-delivers flush qs n sink (omega (arith, size, room))
          (omega (arith, size, enough)) in
      let pipe : r.system.pipeline ≡ drain_run flush (qs ++ catch_up n) (new_pipeline sink) =
        drained
        ∙ ap (λ y. drain_run flush (catch_up n) y.pipeline)
            (some_inj q.system t (sym x.looped ∙ et))
        ∙ ap (drain_run flush (catch_up n)) done.stored
        ∙ sym (drain_run-append flush qs (catch_up n) s.pipeline)
        ∙ ap (drain_run flush (qs ++ catch_up n)) new in
      (
        r,
        ap (λ ys. run fl codec tracing encode flush ys p)
              (sym (append_assoc es (take_all n) (drain_all n)))
            ∙ program_run-append fl codec tracing encode flush (es ++ take_all n) (drain_all n) p
            ∙ ap (λ o. o >>= run fl codec tracing encode flush (drain_all n)) x.runs
            ∙ e,
        ap (λ ch. ch.items) same ∙ x.empty,
        ap (waiting flush) pipe ∙ empty,
        (bs, small, whole ∙ ins, ap (λ y. y.sink) pipe ∙ sunk),
      )
