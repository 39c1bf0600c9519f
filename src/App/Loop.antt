-- ===== src/App/Loop.antt =====
-- main.go: the loop at the end of `main`, with the goroutines of the store and of the hub beside
-- it. A run is any interleaving of what they do.
pub mod Run
pub mod Exchange
pub mod Outputs
use mcpwatch.Base.{
  Bool, true, false, Option, none, some, ◌>>=◌, List, [], ◌∷◌, ◌++◌, Bytes, if◌then◌else◌,
}
use mcpwatch.Base.Float.{Float64}
use mcpwatch.Engine.Message.{Message}
use mcpwatch.Engine.Json.{Codec}
use mcpwatch.Engine.Correlator.{Correlator, Env, process}
use mcpwatch.Metrics.{Update, record_metrics}
use mcpwatch.Storage.Queue.{Pipeline, insert, receives, ticks, drain_step}
use mcpwatch.Server.Hub.{Hub, Action, broadcast}
use mcpwatch.Server.Hub
use mcpwatch.Storage.Queue

-- The three cases of the select, where a transport may send nil and end with an error or without; a
-- step of the store's loop; and one of the hub's.
pub data Event : Type 0 where
  received : Option Message → Event
  transport_ended context_done : Event
  store_receives store_ticks : Event
  hub_acts : Action → Event

module _ (fl : Float64) where
  pub record System {ℓ} (S : Type ℓ) : Type ℓ where
    pub correlator : Correlator
    pub env : Env
    -- What the metrics recorded.
    pub updates : List (Update fl)
    pub pipeline : Pipeline S
    pub hub : Hub
    pub cancelled : Bool
    -- `main` has returned, and with it everything ends.
    pub returned : Bool

  module _ {ℓ} {F : Type 0} {S : Type ℓ} (codec : Codec F) (tracing : Bool)
      (encode : Message → Option Bytes) (flush : List Message → S → S) where
    -- The message after the correlator's work on it, with its new state.
    abbrev pub processed : Message → System S → Correlator × Env × Message
    processed m s = process codec tracing m s.correlator s.env

    -- The program after the four calls on a message, of which the last gives the hub.
    abbrev pub handed_on : Message → System S → Hub → System S
    handed_on m s hub =
        let (c, e, m') = processed m s in
        record s {
          correlator = c;
          env = e;
          updates = s.updates ++ record_metrics fl (some m');
          pipeline = insert m' s.pipeline;
          hub = hub;
        }

    -- `correlator.Process`, `metrics.RecordMetrics`, `store.Insert`, `hub.Broadcast`.
    unfoldable pub handle_message : Message → System S → Option (System S)
    handle_message m s = do
      hub ← broadcast (encode (processed m s).2) s.hub
      some (handed_on m s hub)

    unfoldable pub live_step : Event → System S → Option (System S)
    unfolding handle_message
    live_step (received none) s = some s
    live_step (received (some m)) s = handle_message m s
    live_step transport_ended s = some (record s { cancelled = true })
    live_step context_done s = some (record s { returned = true })
    live_step store_receives s = some (record s { pipeline = drain_step flush receives s.pipeline })
    live_step store_ticks s = some (record s { pipeline = drain_step flush ticks s.pipeline })
    live_step (hub_acts a) s = do hub ← Hub.step a s.hub; some (record s { hub = hub })

    unfoldable pub system_step : Event → System S → Option (System S)
    unfolding live_step
    system_step e s = if s.returned then some s else live_step e s

    unfoldable pub system_run : List Event → System S → Option (System S)
    system_run [] s = some s
    system_run (e ∷ es) s = do s' ← system_step e s; system_run es s'
