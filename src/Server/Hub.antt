-- ===== src/Server/Hub.antt =====
-- internal/server/hub.go. A client is named by a number, the first that is free when it registers;
-- `clients` lists the keys of the map in some order. Each method holds the lock for the whole of
-- its work on the map, so that a method is one step. A step gives no hub where Go would panic: a
-- send on a closed channel, or a second close.
pub mod Safety
pub mod Delivery
pub mod Order
use mcpwatch.Base.{
  ◌>>=◌, ℕ, suc, ◌+◌, ◌<◌, Bool, true, false, Option, none, some, List, [], ◌∷◌, ◌++◌, Bytes,
  length, ltb, ◌==◌, if◌then◌else◌,
}

abbrev pub send_capacity : ℕ
send_capacity = 256

-- `send`, a channel of payloads.
pub record SendChannel : Type 0 where
  pub queue : List Bytes
  pub closed : Bool

pub record Hub : Type 0 where
  pub clients : List ℕ
  -- The channel of each client that was ever registered.
  pub channels : ℕ → SendChannel
  pub next_client : ℕ
  -- The goroutines `go h.Unregister(client)` that have not run yet.
  pub spawned : List ℕ

-- `NewHub`.
abbrev pub new_hub : Hub
new_hub = record {
  clients = [];
  channels = λ _. record { queue = []; closed = false };
  next_client = 0;
  spawned = [];
}

-- `_, ok := h.clients[client]`.
unfoldable pub member : ℕ → List ℕ → Bool
member c [] = false
member c (d ∷ ds) = if d == c then true else member c ds

-- `delete(h.clients, client)`.
unfoldable pub delete : ℕ → List ℕ → List ℕ
delete c [] = []
delete c (d ∷ ds) = if d == c then delete c ds else d ∷ delete c ds

-- The goroutine for a client has run.
unfoldable pub finish : ℕ → List ℕ → List ℕ
finish c [] = []
finish c (d ∷ ds) = if d == c then ds else d ∷ finish c ds

unfoldable pub set_channel : ℕ → SendChannel → (ℕ → SendChannel) → ℕ → SendChannel
set_channel c ch chs d = if d == c then ch else chs d

-- `Register`, up to the start of the client's pump.
unfoldable pub register : Hub → Hub × ℕ
unfolding set_channel
register h = (
  record h {
    clients = h.next_client ∷ h.clients;
    channels = set_channel h.next_client (record { queue = []; closed = false }) h.channels;
    next_client = suc h.next_client;
  },
  h.next_client,
)

-- `close(ch)`.
unfoldable pub close : SendChannel → Option SendChannel
close ch = if ch.closed then none else some (record ch { closed = true })

unfoldable pub close_channel : ℕ → Hub → Option Hub
unfolding close set_channel
close_channel c h = do
  ch ← close (h.channels c)
  some (record h { channels = set_channel c ch h.channels })

-- `Unregister`.
unfoldable pub unregister : ℕ → Hub → Option Hub
unregister c h =
    if member c h.clients
    then close_channel c (record h { clients = delete c h.clients })
    else some h

-- `select { case client.send <- payload: default: go h.Unregister(client) }`.
unfoldable pub offer : Bytes → ℕ → Hub → Option Hub
unfolding set_channel
offer p c h =
    let ch = h.channels c in
    if ch.closed
    then none
    else if ltb (length ch.queue) send_capacity
    then some (record h {
      channels = set_channel c (record ch { queue = ch.queue ++ p ∷ [] }) h.channels;
    })
    else some (record h { spawned = c ∷ h.spawned })

unfoldable pub offer_all : Bytes → List ℕ → Hub → Option Hub
offer_all p [] h = some h
offer_all p (c ∷ cs) h = do h' ← offer p c h; offer_all p cs h'

-- `Broadcast`; there is no payload where the data cannot be encoded.
unfoldable pub broadcast : Option Bytes → Hub → Option Hub
broadcast none h = some h
broadcast (some p) h = offer_all p h.clients h

-- `ClientCount`.
unfoldable pub client_count : Hub → ℕ
client_count h = length h.clients

-- The next payload of a client's pump.
unfoldable pub receive : List Bytes → List Bytes
receive [] = []
receive (p ∷ ps) = ps

-- What a run does: a websocket is accepted; its reader fails; a message is broadcast; a spawned
-- goroutine runs; the pump takes a payload from its channel; the pump stops, since a write failed
-- or the channel was closed.
pub data Action : Type 0 where
  accepts : Action
  reader_fails pump_takes pump_stops : ℕ → Action
  broadcasts : Option Bytes → Action
  spawned_runs : ℕ → Action

unfoldable pub step : Action → Hub → Option Hub
unfolding register receive set_channel
step accepts h = some (register h).0
step (reader_fails c) h = unregister c h
step (pump_takes c) h =
    let ch = h.channels c in
    some (record h { channels = set_channel c (record ch { queue = receive ch.queue }) h.channels })
step (pump_stops c) h = unregister c h
step (broadcasts p) h = broadcast p h
step (spawned_runs c) h = unregister c (record h { spawned = finish c h.spawned })

unfoldable pub run : List Action → Hub → Option Hub
run [] h = some h
run (a ∷ as') h = do h' ← step a h; run as' h'
