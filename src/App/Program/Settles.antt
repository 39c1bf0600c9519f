-- ===== src/App/Program/Settles.antt =====
-- A program that goes on: what the channel takes, and how the channel and the store's queue get
-- empty.
use mcpwatch.Base.{
  lengths, ℕ, zero, suc, ◌+◌, ◌≤◌, ◌≡◌, ◌≢◌, refl, ap, ◌∙◌, true, false, Option, some, List, [],
  ◌∷◌, ◌++◌, All, All-append, Bytes, length, if◌then◌else◌, Bool, arith,
}
use mcpwatch.Base.Float.{Float64}
use mcpwatch.Base.Channel.{Channel, IsBounded}
use mcpwatch.Engine.Message.{Message}
use mcpwatch.Engine.Json.{Codec}
use mcpwatch.Server.Hub.Safety.{IsSound}
use mcpwatch.App.Loop.{
  received, context_done, store_receives, store_ticks, System, system_step, system_run, live_step,
}
use mcpwatch.App.Loop
use mcpwatch.App.Program.{
  Event, sends, takes, handler_ends, context_ends, store_takes, store_ticker, hub_does, Program,
}
use mcpwatch.App.Program.Carries.{
  entered, admitted, next, taken, loop_event, loop_events, Carries, step-Carries, next-step,
}

-- The messages that a transport sends.
abbrev sent_by : Event → List Message
sent_by (sends m) = m ∷ []
sent_by _ = []

abbrev pub sent : List Event → List Message
sent [] = []
sent (e ∷ es) = sent_by e ++ sent es

-- The loop takes so many messages; the store's loop takes so many, and then its ticker comes.
abbrev pub take_all : ℕ → List Event
take_all zero = []
take_all (suc n) = takes ∷ take_all n

abbrev pub drain_all : ℕ → List Event
drain_all zero = store_ticker ∷ []
drain_all (suc n) = store_takes ∷ drain_all n

entered-sent_by :
    (e : Event) (rest : List Message) (ch : Channel Message)
    → length ch.items + length (sent_by e ++ rest) ≤ ch.capacity
    → entered e ch ≡ sent_by e
entered-sent_by (sends m) rest ch h = ground (arith, h)
entered-sent_by takes rest ch h = refl
entered-sent_by handler_ends rest ch h = refl
entered-sent_by context_ends rest ch h = refl
entered-sent_by store_takes rest ch h = refl
entered-sent_by store_ticker rest ch h = refl
entered-sent_by (hub_does a) rest ch h = refl

module _ {ℓ} (fl : Float64) {F : Type 0} {S : Type ℓ} (codec : Codec F) (tracing : Bool)
    (encode : Message → Option Bytes) (flush : List Message → S → S) where
  abbrev pub Moves : List Loop.Event → List Message → Program fl S → Program fl S → Type ℓ
  Moves = Carries fl codec tracing encode flush

  -- A channel with room takes what is sent.
  pub admitted-sent :
      (es : List Event) (p : Program fl S)
      → IsSound p.system.hub
      → IsBounded p.messages
      → length p.messages.items + length (sent es) ≤ p.messages.capacity
      → admitted fl codec tracing encode flush es p ≡ sent es
  admitted-sent [] p v short room = refl
  admitted-sent (e ∷ es) p v short room =
      let (q, eq, c) = step-Carries fl codec tracing encode flush e p v short in
      let now = entered-sent_by e (sent es) p.messages room in
      let event = loop_event fl codec tracing encode flush e p in
      let left : length q.messages.items + length (sent es) ≤ q.messages.capacity =
        grind (lengths, room, c.same_capacity, ap length c.kept, ap length now) in
      ap (λ x. entered e p.messages ++ admitted fl codec tracing encode flush es x)
        (next-step fl codec tracing encode flush e p q eq)
      ∙ ap (λ x. x ++ admitted fl codec tracing encode flush es q) now
      ∙ ap (λ x. sent_by e ++ x) (admitted-sent es q c.sound c.bounded left)

  taken-goes_on :
      (over : Bool) (m : Message)
      → All (λ e. e ≢ context_done) (if over then [] else received (some m) ∷ [])
  taken-goes_on true m = tt
  taken-goes_on false m = ((λ e. cc), tt)

  pub list-goes_on :
      (items : List Message) (p : Program fl S)
      → All (λ x. x ≢ context_done) (taken fl codec tracing encode flush items p)
  list-goes_on [] p = tt
  list-goes_on (m ∷ ms) p = taken-goes_on p.system.returned m

  loop_event-goes_on :
      (e : Event) (p : Program fl S)
      → e ≢ context_ends
      → All (λ x. x ≢ context_done) (loop_event fl codec tracing encode flush e p)
  loop_event-goes_on (sends m) p ne = tt
  loop_event-goes_on takes p ne = list-goes_on p.messages.items p
  loop_event-goes_on handler_ends p ne = ((λ e. cc), tt)
  loop_event-goes_on context_ends p ne = absurd (ne refl)
  loop_event-goes_on store_takes p ne = ((λ e. cc), tt)
  loop_event-goes_on store_ticker p ne = ((λ e. cc), tt)
  loop_event-goes_on (hub_does a) p ne = ((λ e. cc), tt)

  pub loop_events-goes_on :
      (es : List Event) (p : Program fl S)
      → All (λ e. e ≢ context_ends) es
      → All (λ x. x ≢ context_done) (loop_events fl codec tracing encode flush es p)
  loop_events-goes_on [] p ne = tt
  loop_events-goes_on (e ∷ es) p ne =
      All-append (λ x. x ≢ context_done) (loop_event fl codec tracing encode flush e p)
        (loop_events fl codec tracing encode flush es (next fl codec tracing encode flush e p))
        (loop_event-goes_on e p ne.0)
        (loop_events-goes_on es (next fl codec tracing encode flush e p) ne.1)
