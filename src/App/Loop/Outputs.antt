-- ===== src/App/Loop/Outputs.antt =====
-- What a run of a program that goes on hands to the store.
use mcpwatch.Base.{
  ◌≡◌, ◌≢◌, refl, sym, ap, ◌∙◌, Bool, true, false, Option, none, some, List, [], ◌∷◌, ◌++◌, All,
  Bytes, if◌then◌else◌,
}
use mcpwatch.Base.Float.{Float64}
use mcpwatch.Engine.Message.{Message}
use mcpwatch.Engine.Json.{Codec}
use mcpwatch.Engine.Correlator.{process_all, outputs}
use mcpwatch.Storage.Queue.Room.{inserted, inserted-append}
use mcpwatch.Server.Hub.Safety.{IsSound}
use mcpwatch.App.Loop.{
  Event, received, transport_ended, context_done, store_receives, store_ticks, hub_acts, System,
}
use mcpwatch.App.Loop.Run.{
  next, live_output, output, handled, live_queue, queue_event, queue_events,
}
use mcpwatch.App.Loop.Exchange.{messages_of, live-GoesOn, system_step-live}

module _ {ℓ} (fl : Float64) {F : Type 0} {S : Type ℓ} (codec : Codec F) (tracing : Bool)
    (encode : Message → Option Bytes) (flush : List Message → S → S) where
  outputs-cons :
      (e : Event) (es : List Event) (s : System fl S)
      → let x = process_all codec tracing (messages_of (e ∷ [])) s.correlator s.env in
        outputs codec tracing (messages_of (e ∷ es)) s.correlator s.env
        ≡ live_output fl codec tracing encode flush e s
          ++ outputs codec tracing (messages_of es) x.0 x.1
  unfolding outputs process_all
  outputs-cons (received none) es s = refl
  outputs-cons (received (some m)) es s = refl
  outputs-cons transport_ended es s = refl
  outputs-cons context_done es s = refl
  outputs-cons store_receives es s = refl
  outputs-cons store_ticks es s = refl
  outputs-cons (hub_acts a) es s = refl

  -- A program that goes on hands on the messages as the correlator leaves them.
  pub handled-outputs :
      (es : List Event) (s : System fl S)
      → IsSound s.hub
      → s.returned ≡ false
      → All (λ e. e ≢ context_done) es
      → handled fl codec tracing encode flush es s
        ≡ outputs codec tracing (messages_of es) s.correlator s.env
  unfolding outputs
  handled-outputs [] s v l ne = refl
  handled-outputs (e ∷ es) s v l ne =
      let (t, et, g) = live-GoesOn fl codec tracing encode flush e s v l ne.0 in
      let stepped : next fl codec tracing encode flush e s ≡ t =
        ap (λ o. elim o [ none ↦ s | some x ↦ x ])
          (system_step-live fl codec tracing encode flush e s l ∙ et) in
      let out = live_output fl codec tracing encode flush e s in
      ap
        (λ b.
          (if b then [] else out)
          ++ handled fl codec tracing encode flush es (next fl codec tracing encode flush e s))
        l
      ∙ ap (λ x. out ++ handled fl codec tracing encode flush es x) stepped
      ∙ ap (λ x. out ++ x) (handled-outputs es t g.sound g.live ne.1)
      ∙ ap (λ x. out ++ outputs codec tracing (messages_of es) x.0 x.1) g.correlates
      ∙ sym (outputs-cons e es s)

  inserted-live :
      (e : Event) (s : System fl S)
      → inserted (live_queue fl codec tracing encode flush e s)
        ≡ live_output fl codec tracing encode flush e s
  inserted-live (received none) s = refl
  inserted-live (received (some m)) s = refl
  inserted-live transport_ended s = refl
  inserted-live context_done s = refl
  inserted-live store_receives s = refl
  inserted-live store_ticks s = refl
  inserted-live (hub_acts a) s = refl

  inserted-choice :
      (over : Bool) (e : Event) (s : System fl S)
      → inserted (if over then [] else live_queue fl codec tracing encode flush e s)
        ≡ (if over then [] else live_output fl codec tracing encode flush e s)
  inserted-choice true e s = refl
  inserted-choice false e s = inserted-live e s

  -- What is inserted into the store's queue is what is handed on.
  pub inserted-handled :
      (es : List Event) (s : System fl S)
      → inserted (queue_events fl codec tracing encode flush es s)
        ≡ handled fl codec tracing encode flush es s
  inserted-handled [] s = refl
  inserted-handled (e ∷ es) s =
      let s' = next fl codec tracing encode flush e s in
      inserted-append (queue_event fl codec tracing encode flush e s)
        (queue_events fl codec tracing encode flush es s')
      ∙ ap (λ x. x ++ inserted (queue_events fl codec tracing encode flush es s'))
          (inserted-choice s.returned e s)
      ∙ ap (λ x. output fl codec tracing encode flush e s ++ x) (inserted-handled es s')
