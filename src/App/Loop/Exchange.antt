-- ===== src/App/Loop/Exchange.antt =====
-- A request and its response on their way through the whole program.
use mcpwatch.Base.{
  ◌≡◌, ◌≢◌, refl, sym, ap, ◌∙◌, Bool, false, Option, none, some, ◌>>=◌, List, [], ◌∷◌, ◌++◌, Bytes,
  All, is_empty, if◌then◌else◌,
}
use mcpwatch.Base.Float.{Float64}
use mcpwatch.Base.Time.{now, since, milliseconds}
use mcpwatch.Engine.Message.{request, response, Message}
use mcpwatch.Engine.Json.{Codec}
use mcpwatch.Engine.Correlator.{Correlator, Env, process, process_all}
use mcpwatch.Engine.Correlator.Slots.{Leaves}
use mcpwatch.Engine.Correlator.Answers.{process-answers}
use mcpwatch.Metrics.{record_metrics}
use mcpwatch.Storage.Queue.{insert}
use mcpwatch.Server.Hub.{broadcast, step}
use mcpwatch.Server.Hub.Safety.{IsSound, broadcast-Sound, step-Sound}
use mcpwatch.App.Loop.{
  Event, received, transport_ended, context_done, store_receives, store_ticks, hub_acts, System,
  processed, handed_on, handle_message, live_step, system_step, system_run,
}
use mcpwatch.App.Loop.Run.{Sound-some}

-- The messages among the events.
abbrev pub messages_of : List Event → List Message
messages_of [] = []
messages_of (received (some m) ∷ es) = m ∷ messages_of es
messages_of (_ ∷ es) = messages_of es

module _ {ℓ} (fl : Float64) {F : Type 0} {S : Type ℓ} (codec : Codec F) (tracing : Bool)
    (encode : Message → Option Bytes) (flush : List Message → S → S) where
  abbrev run : List Event → System fl S → Option (System fl S)
  run = system_run fl codec tracing encode flush

  -- The program goes on, and its correlator is in this state.
  pub record GoesOn (t : System fl S) (state : Correlator × Env) : Type ℓ where
    pub sound : IsSound t.hub
    pub live : t.returned ≡ false
    pub correlates : (t.correlator, t.env) ≡ state

  pub live-GoesOn :
      (e : Event) (s : System fl S)
      → IsSound s.hub
      → s.returned ≡ false
      → e ≢ context_done
      → (t : System fl S) × (live_step fl codec tracing encode flush e s ≡ some t)
        × GoesOn t (process_all codec tracing (messages_of (e ∷ [])) s.correlator s.env)
  unfolding live_step handle_message process_all
  live-GoesOn (received none) s v l ne =
      (s, refl, record { sound = v; live = l; correlates = refl })
  live-GoesOn (received (some m)) s v l ne =
      let m' = (processed fl codec tracing encode flush m s).2 in
      let (h, e, w) =
        Sound-some (broadcast (encode m') s.hub) (broadcast-Sound (encode m') s.hub v) in
      let on = handed_on fl codec tracing encode flush m s in
      (
        on h,
        ap (λ o. o >>= λ hub. some (on hub)) e,
        record { sound = w; live = l; correlates = refl },
      )
  live-GoesOn transport_ended s v l ne =
      (_, refl, record { sound = v; live = l; correlates = refl })
  live-GoesOn context_done s v l ne = absurd (ne refl)
  live-GoesOn store_receives s v l ne = (_, refl, record { sound = v; live = l; correlates = refl })
  live-GoesOn store_ticks s v l ne = (_, refl, record { sound = v; live = l; correlates = refl })
  live-GoesOn (hub_acts a) s v l ne =
      let (h, e, w) = Sound-some (step a s.hub) (step-Sound a s.hub v) in
      (
        record s { hub = h },
        ap (λ o. o >>= λ hub. some (record s { hub = hub })) e,
        record { sound = w; live = l; correlates = refl },
      )

  pub process_all-cons :
      (e : Event) (es : List Event) (c : Correlator) (v : Env)
      → let x = process_all codec tracing (messages_of (e ∷ [])) c v in
        process_all codec tracing (messages_of es) x.0 x.1
        ≡ process_all codec tracing (messages_of (e ∷ es)) c v
  unfolding process_all
  process_all-cons (received none) es c v = refl
  process_all-cons (received (some m)) es c v = refl
  process_all-cons transport_ended es c v = refl
  process_all-cons context_done es c v = refl
  process_all-cons store_receives es c v = refl
  process_all-cons store_ticks es c v = refl
  process_all-cons (hub_acts a) es c v = refl

  pub system_step-live :
      (e : Event) (s : System fl S)
      → s.returned ≡ false
      → system_step fl codec tracing encode flush e s ≡ live_step fl codec tracing encode flush e s
  unfolding system_step
  system_step-live e s l = rw l refl

  pub run-GoesOn :
      (es : List Event) (s : System fl S)
      → IsSound s.hub
      → s.returned ≡ false
      → All (λ e. e ≢ context_done) es
      → (t : System fl S) × (run es s ≡ some t)
        × GoesOn t (process_all codec tracing (messages_of es) s.correlator s.env)
  unfolding system_run process_all
  run-GoesOn [] s v l ne = (s, refl, record { sound = v; live = l; correlates = refl })
  run-GoesOn (e ∷ es) s v l ne =
      let (t, et, g) = live-GoesOn e s v l ne.0 in
      let (u, eu, h) = run-GoesOn es t g.sound g.live ne.1 in
      (
        u,
        ap (λ o. o >>= run es) (system_step-live e s l ∙ et) ∙ eu,
        record {
          sound = h.sound;
          live = h.live;
          correlates =
              h.correlates
              ∙ ap (λ x. process_all codec tracing (messages_of es) x.0 x.1) g.correlates
              ∙ process_all-cons e es s.correlator s.env;
        },
      )

  bind-append :
      (o : Option (System fl S)) (es fs : List Event)
      → ((s : System fl S) → run (es ++ fs) s ≡ (run es s >>= run fs))
      → (o >>= run (es ++ fs)) ≡ ((o >>= run es) >>= run fs)
  bind-append none es fs h = refl
  bind-append (some s) es fs h = h s

  pub system_run-append :
      (es fs : List Event) (s : System fl S) → run (es ++ fs) s ≡ (run es s >>= run fs)
  unfolding system_run
  system_run-append [] fs s = refl
  system_run-append (e ∷ es) fs s =
      bind-append (system_step fl codec tracing encode flush e s) es fs (system_run-append es fs)

  -- A response that comes while its request is pending reaches the metrics and the store with the
  -- latency since the request and, where it has no method of its own, with the request's, whatever
  -- else the program does in between, as long as it goes on and no message takes the request's
  -- slot.
  pub system_run-answers :
      (m r : Message) (es : List Event) (s : System fl S)
      → IsSound s.hub
      → s.returned ≡ false
      → m.msg_type ≡ request
      → m.jsonrpc_id ≢ []
      → All (λ e. e ≢ context_done) es
      → All (Leaves m.jsonrpc_id) (messages_of es)
      → r.msg_type ≡ response
      → r.jsonrpc_id ≡ m.jsonrpc_id
      → (u t : System fl S) × (last : Message) × (run (received (some m) ∷ es) s ≡ some u)
        × (run ((received (some m) ∷ es) ++ received (some r) ∷ []) s ≡ some t)
        × (t.updates ≡ u.updates ++ record_metrics fl (some last))
        × (t.pipeline ≡ insert last u.pipeline)
        × (last.latency_ms ≡ milliseconds (since (now u.env.clock) m.timestamp))
        × (last.method ≡ (if is_empty r.method then m.method else r.method))
  unfolding system_run handle_message live_step process_all
  system_run-answers m r es s v l tm ne goes leaves tr same =
      let (u, eu, g) = run-GoesOn (received (some m) ∷ es) s v l ((λ e. cc), goes) in
      let last = (processed fl codec tracing encode flush r u).2 in
      let (h, eh, w) =
        Sound-some (broadcast (encode last) u.hub) (broadcast-Sound (encode last) u.hub g.sound) in
      let on = handed_on fl codec tracing encode flush r u in
      let (latency, method, emptied) =
        process-answers codec tracing m r (messages_of es) s.correlator s.env tm ne leaves tr
          same in
      (
        u,
        on h,
        last,
        eu,
        system_run-append (received (some m) ∷ es) (received (some r) ∷ []) s
            ∙ ap (λ o. o >>= run (received (some r) ∷ [])) eu
            ∙ ap (λ o. o >>= run []) (system_step-live (received (some r)) u g.live)
            ∙ ap (λ o. (o >>= λ hub. some (on hub)) >>= run []) eh,
        refl,
        refl,
        ap (λ x. (process codec tracing r x.0 x.1).2.latency_ms) g.correlates
            ∙ latency
            ∙ ap (λ x. milliseconds (since (now x.1.clock) m.timestamp)) (sym g.correlates),
        ap (λ x. (process codec tracing r x.0 x.1).2.method) g.correlates ∙ method,
      )
