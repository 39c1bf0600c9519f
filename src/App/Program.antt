-- ===== src/App/Program.antt =====
-- main.go: the channel of messages between the transport's goroutine and the loop at the end of
-- `main`. A run is any interleaving of what they do with the steps beside them.
pub mod Carries
pub mod Settles
pub mod Empties
pub mod Delivers
pub mod Archives
use mcpwatch.Base.{ℕ, Bool, Option, some, ◌>>=◌, List, [], ◌∷◌, Bytes, if◌then◌else◌}
use mcpwatch.Base.Float.{Float64}
use mcpwatch.Base.Channel.{Channel, try_send}
use mcpwatch.Engine.Message.{Message}
use mcpwatch.Engine.Json.{Codec}
use mcpwatch.Server.Hub.{Action}
use mcpwatch.App.Loop.{
  received, transport_ended, context_done, store_receives, store_ticks, hub_acts, System,
  system_step,
}
use mcpwatch.App.Loop

abbrev pub channel_capacity : ℕ
channel_capacity = 1000

-- A transport sends a message, or drops it where the channel is full; the loop takes one; a
-- transport ends; the context ends; the store's loop takes a message or sees its ticker; the hub
-- does something.
pub data Event : Type 0 where
  sends : Message → Event
  takes handler_ends context_ends store_takes store_ticker : Event
  hub_does : Action → Event

module _ (fl : Float64) where
  pub record Program {ℓ} (S : Type ℓ) : Type ℓ where
    pub messages : Channel Message
    pub system : System fl S

  abbrev pub new_program {ℓ} : {S : Type ℓ} → System fl S → Program S
  new_program s = record {
    messages = record { capacity = channel_capacity; items = [] };
    system = s;
  }

  module _ {ℓ} {F : Type 0} {S : Type ℓ} (codec : Codec F) (tracing : Bool)
      (encode : Message → Option Bytes) (flush : List Message → S → S) where
    abbrev pub advance : Loop.Event → Program S → Option (Program S)
    advance e p = do
      s ← system_step fl codec tracing encode flush e p.system
      some (record p { system = s })

    -- `case msg := <-messages`, which waits where the channel is empty.
    unfoldable pub take_from : List Message → Program S → Option (Program S)
    take_from [] p = some p
    take_from (m ∷ ms) p =
        if p.system.returned
        then some p
        else advance (received (some m)) (record p { messages = record p.messages { items = ms } })

    unfoldable pub program_step : Event → Program S → Option (Program S)
    unfolding take_from
    program_step (sends m) p = some (record p { messages = try_send m p.messages })
    program_step takes p = take_from p.messages.items p
    program_step handler_ends p = advance transport_ended p
    program_step context_ends p = advance context_done p
    program_step store_takes p = advance store_receives p
    program_step store_ticker p = advance store_ticks p
    program_step (hub_does a) p = advance (hub_acts a) p

    unfoldable pub program_run : List Event → Program S → Option (Program S)
    program_run [] p = some p
    program_run (e ∷ es) p = do p' ← program_step e p; program_run es p'
