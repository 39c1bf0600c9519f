-- ===== src/App/Loop/Run.antt =====
-- What a run of the whole program does with the messages.
use mcpwatch.Base.{
  ◌≡◌, refl, sym, ap, ◌∙◌, Bool, true, false, Option, none, some, ◌>>=◌, List, [], ◌∷◌, ◌++◌,
  append-nil, append_assoc, Bytes, if◌then◌else◌,
}
use mcpwatch.Base.Float.{Float64}
use mcpwatch.Engine.Message.{Message}
use mcpwatch.Engine.Json.{Codec}
use mcpwatch.Metrics.{record_metrics, recorded}
use mcpwatch.Storage.Queue.{Pipeline, inserts, receives, ticks, drain_step, drain_run}
use mcpwatch.Storage.Queue
use mcpwatch.Server.Hub.{Hub, broadcast, step}
use mcpwatch.Server.Hub.Safety.{IsSound, Sound, broadcast-Sound, step-Sound}
use mcpwatch.App.Loop.{
  Event, received, transport_ended, context_done, store_receives, store_ticks, hub_acts, System,
  processed, handed_on, handle_message, live_step, system_step, system_run,
}

pub Sound-some : (o : Option Hub) → Sound o → (h : Hub) × (o ≡ some h) × IsSound h
Sound-some none v = absurd v
Sound-some (some h) v = (h, refl, v)

module _ {ℓ} (fl : Float64) {F : Type 0} {S : Type ℓ} (codec : Codec F) (tracing : Bool)
    (encode : Message → Option Bytes) (flush : List Message → S → S) where
  abbrev pub next : Event → System fl S → System fl S
  next e s = elim (system_step fl codec tracing encode flush e s) [ none ↦ s | some s' ↦ s' ]

  -- The message that an event hands on, as the correlator leaves it.
  abbrev pub live_output : Event → System fl S → List Message
  live_output (received (some m)) s = (processed fl codec tracing encode flush m s).2 ∷ []
  live_output _ s = []

  abbrev pub output : Event → System fl S → List Message
  output e s = if s.returned then [] else live_output e s

  -- The messages that a run hands on.
  abbrev pub handled : List Event → System fl S → List Message
  handled [] s = []
  handled (e ∷ es) s = output e s ++ handled es (next e s)

  -- What an event does to the store's queue.
  abbrev pub live_queue : Event → System fl S → List Queue.Event
  live_queue (received (some m)) s = inserts (processed fl codec tracing encode flush m s).2 ∷ []
  live_queue store_receives s = receives ∷ []
  live_queue store_ticks s = ticks ∷ []
  live_queue _ s = []

  abbrev pub queue_event : Event → System fl S → List Queue.Event
  queue_event e s = if s.returned then [] else live_queue e s

  abbrev pub queue_events : List Event → System fl S → List Queue.Event
  queue_events [] s = []
  queue_events (e ∷ es) s = queue_event e s ++ queue_events es (next e s)

  -- How a run that hands on `ms` and does `qs` to the queue gets from `s` to `t`.
  pub record Runs (ms : List Message) (qs : List Queue.Event) (s t : System fl S) : Type ℓ where
    pub sound : IsSound t.hub
    pub metrics : t.updates ≡ s.updates ++ recorded fl ms
    pub stored : t.pipeline ≡ drain_run flush qs s.pipeline

  recorded-nil : (s : System fl S) → s.updates ≡ s.updates ++ recorded fl []
  unfolding recorded
  recorded-nil s = sym (append-nil s.updates)

  drained-nil : (p : Pipeline S) → p ≡ drain_run flush [] p
  unfolding drain_run
  drained-nil p = refl

  recorded-append :
      (ms ns : List Message) → recorded fl (ms ++ ns) ≡ recorded fl ms ++ recorded fl ns
  unfolding recorded
  recorded-append [] ns = refl
  recorded-append (m ∷ ms) ns =
      ap (λ x. record_metrics fl (some m) ++ x) (recorded-append ms ns)
      ∙ sym (append_assoc (record_metrics fl (some m)) (recorded fl ms) (recorded fl ns))

  drain_run-append :
      (es fs : List Queue.Event) (p : Pipeline S)
      → drain_run flush (es ++ fs) p ≡ drain_run flush fs (drain_run flush es p)
  unfolding drain_run
  drain_run-append [] fs p = refl
  drain_run-append (e ∷ es) fs p = drain_run-append es fs (drain_step flush e p)

  live-Runs :
      (e : Event) (s : System fl S)
      → IsSound s.hub
      → (t : System fl S) × (live_step fl codec tracing encode flush e s ≡ some t)
        × Runs (live_output e s) (live_queue e s) s t
  unfolding live_step handle_message drain_run drain_step recorded
  live-Runs (received none) s v =
      (s, refl, record { sound = v; metrics = sym (append-nil s.updates); stored = refl })
  live-Runs (received (some m)) s v =
      let m' = (processed fl codec tracing encode flush m s).2 in
      let (h, e, w) =
        Sound-some (broadcast (encode m') s.hub) (broadcast-Sound (encode m') s.hub v) in
      let on = handed_on fl codec tracing encode flush m s in
      (
        on h,
        ap (λ o. o >>= λ hub. some (on hub)) e,
        record {
          sound = w;
          metrics = ap (λ x. s.updates ++ x) (sym (append-nil (record_metrics fl (some m'))));
          stored = refl;
        },
      )
  live-Runs transport_ended s v =
      (_, refl, record { sound = v; metrics = sym (append-nil s.updates); stored = refl })
  live-Runs context_done s v =
      (_, refl, record { sound = v; metrics = sym (append-nil s.updates); stored = refl })
  live-Runs store_receives s v =
      (_, refl, record { sound = v; metrics = sym (append-nil s.updates); stored = refl })
  live-Runs store_ticks s v =
      (_, refl, record { sound = v; metrics = sym (append-nil s.updates); stored = refl })
  live-Runs (hub_acts a) s v =
      let (h, e, w) = Sound-some (step a s.hub) (step-Sound a s.hub v) in
      (
        record s { hub = h },
        ap (λ o. o >>= λ hub. some (record s { hub = hub })) e,
        record { sound = w; metrics = sym (append-nil s.updates); stored = refl },
      )

  -- A step where `main` has returned or not.
  choice-Runs :
      (over : Bool) (e : Event) (s : System fl S)
      → IsSound s.hub
      → (t : System fl S) × ((if over then some s else live_step fl codec tracing encode flush e s)
          ≡ some t)
        × Runs (if over then [] else live_output e s) (if over then [] else live_queue e s) s t
  choice-Runs true e s v =
      (s, refl, record { sound = v; metrics = recorded-nil s; stored = drained-nil s.pipeline })
  choice-Runs false e s v = live-Runs e s v

  pub step-Runs :
      (e : Event) (s : System fl S)
      → IsSound s.hub
      → (t : System fl S) × (system_step fl codec tracing encode flush e s ≡ some t)
        × Runs (output e s) (queue_event e s) s t
  unfolding system_step
  step-Runs e s v = choice-Runs s.returned e s v

  -- No interleaving of messages, steps of the store and steps of the hub's clients panics. What the
  -- metrics record and what the store's queue is given are the messages that the loop received,
  -- each once and in order, as the correlator left them, up to the end of the program.
  pub system_run-Runs :
      (es : List Event) (s : System fl S)
      → IsSound s.hub
      → (t : System fl S) × (system_run fl codec tracing encode flush es s ≡ some t)
        × Runs (handled es s) (queue_events es s) s t
  unfolding system_run
  system_run-Runs [] s v =
      (s, refl, record { sound = v; metrics = recorded-nil s; stored = drained-nil s.pipeline })
  system_run-Runs (e ∷ es) s v =
      let (t, et, r) = step-Runs e s v in
      let (u, eu, q) = system_run-Runs es t r.sound in
      let same : next e s ≡ t = ap (λ o. elim o [ none ↦ s | some x ↦ x ]) et in
      (
        u,
        ap (λ o. o >>= λ x. system_run fl codec tracing encode flush es x) et ∙ eu,
        record {
          sound = q.sound;
          metrics =
              q.metrics
              ∙ ap (λ x. x ++ recorded fl (handled es t)) r.metrics
              ∙ append_assoc s.updates (recorded fl (output e s)) (recorded fl (handled es t))
              ∙ ap (λ x. s.updates ++ x) (sym (recorded-append (output e s) (handled es t)))
              ∙ ap (λ n. s.updates ++ recorded fl (output e s ++ handled es n)) (sym same);
          stored =
              q.stored
              ∙ ap (drain_run flush (queue_events es t)) r.stored
              ∙ sym (drain_run-append (queue_event e s) (queue_events es t) s.pipeline)
              ∙ ap (λ n. drain_run flush (queue_event e s ++ queue_events es n) s.pipeline)
                  (sym same);
        },
      )
