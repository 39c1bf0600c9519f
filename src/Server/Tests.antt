-- ===== src/Server/Tests.antt =====
-- Runs of the hub and of the routes, and the theorems at concrete inputs.
use mcpwatch.Base.{eq_bytes, ℕ, ◌≡◌, refl, Option, none, some, List, [], ◌∷◌, Bytes, codes}
use mcpwatch.Server.Hub.{
  Hub, new_hub, register, set_channel, broadcast, offer_all, offer, Action, accepts, reader_fails,
  pump_takes, pump_stops, broadcasts, spawned_runs, run, step, member, delete, close_channel, close,
  unregister, receive, client_count,
}
use mcpwatch.Server.Hub.Safety.{IsSound, Sound, run-new_hub, new_hub-IsSound, register-IsSound}
use mcpwatch.Base.{arith, true, ◌⊎◌, length}
use mcpwatch.Base.Int.{pos}
use mcpwatch.Engine.Message.{request, Message}
use mcpwatch.Storage.Api.{StoreApi}
use mcpwatch.Server.Http.{Server, Request, route, is_clean, is_tidy, moved, files}
use mcpwatch.Server.Http.Access.{Clears}
use mcpwatch.Storage.Api.{badger_api}
use mcpwatch.Server.Http.Effects.{served, serve-Step}
use mcpwatch.Storage.Sample.{whole, database, coding, store, laws, store-IsKept}
use mcpwatch.Storage.Timeline.History.{clears, Step, IsKept, archive}
use mcpwatch.Server.Hub.Delivery.{delivered, Receives, broadcast-Receives}
use mcpwatch.Server.Hub.Order.{SameView}
use mcpwatch.Server.Hub.Order.Runs.{AnyOrder, ended, acts, AnyOrder-run}

-- Two clients; the first fails while a removal of it waits, and its pump stops as well.
abbrev history : List Action
history =
    accepts
    ∷ accepts
    ∷ broadcasts (some (codes "a"))
    ∷ reader_fails 0
    ∷ pump_stops 0
    ∷ pump_takes 1
    ∷ spawned_runs 0
    ∷ broadcasts none
    ∷ broadcasts (some (codes "b"))
    ∷ []

run-new_hub_example : Sound (run history new_hub)
run-new_hub_example = run-new_hub history

-- The one client that is left has the second payload in its channel.
queue_of : ℕ → Option Hub → List Bytes
queue_of c none = []
queue_of c (some h) = (h.channels c).queue

history_queue : queue_of 1 (run history new_hub) ≡ codes "b" ∷ []
unfolding queue_of run step register set_channel broadcast offer_all offer member delete
    close_channel close unregister receive
history_queue = refl

abbrev one_client : Hub
one_client = (register new_hub).0

broadcast-Receives_example :
    (h' : Hub) × (broadcast (some (codes "a")) one_client ≡ some h')
    × (h'.clients ≡ one_client.clients)
    × (h'.next_client ≡ one_client.next_client)
    × ((d : ℕ) → Receives (codes "a") one_client h' d)
broadcast-Receives_example =
    broadcast-Receives (codes "a") one_client (register-IsSound new_hub new_hub-IsSound)

-- Two clients, and a second listing of them.
abbrev two_clients : Hub
two_clients = record new_hub { clients = 1 ∷ 0 ∷ []; next_client = 2 }

abbrev turned : Hub
turned = record two_clients { clients = 0 ∷ 1 ∷ [] }

two_clients-IsSound : IsSound two_clients
unfolding member
two_clients-IsSound = record {
  distinct = (refl, (refl, tt));
  opened = λ c m. (refl, ground arith);
  bounded = λ c. omega arith;
}

turned-SameView : SameView two_clients turned
unfolding member
turned-SameView = record {
  members = λ d. ground arith;
  channels = λ d. refl;
  next = refl;
  spawned = λ d. refl;
}

turned_run :
    AnyOrder
      (broadcasts (some (codes "a")) ∷ [])
      two_clients
      (delivered (codes "a") (0 ∷ 1 ∷ []) turned)
unfolding step broadcast offer_all offer set_channel member
turned_run =
    acts (broadcasts (some (codes "a"))) turned (delivered (codes "a") (0 ∷ 1 ∷ []) turned)
      turned-SameView (refl, (refl, tt)) refl (ended _)

AnyOrder-run_example :
    let h' = delivered (codes "a") (0 ∷ 1 ∷ []) turned in
    (k : Hub) × (run (broadcasts (some (codes "a")) ∷ []) two_clients ≡ some k)
    × SameView h' k
    × (client_count h' ≡ client_count k)
AnyOrder-run_example =
    AnyOrder-run (broadcasts (some (codes "a")) ∷ []) two_clients
      (delivered (codes "a") (0 ∷ 1 ∷ []) turned) two_clients-IsSound turned_run

-- A store that is a list of messages, with their number as statistics.
abbrev api : StoreApi ℕ
api = record {
  S = List Message;
  recent = λ _ ms. some ms;
  all = λ ms. some ms;
  stats = λ ms. some (length ms);
  reset = λ _. ([], true);
}

abbrev dashboard : Server
dashboard = record { auth_username = codes "admin"; auth_password = codes "secret" }

abbrev clearing : Request
clearing = record {
  path = codes "/api/clear";
  verb = codes "POST";
  credentials = some (codes "admin", codes "guess");
}

abbrev ask : Message
ask = record {
  id = 7;
  timestamp = 0;
  transport = codes "stdio";
  direction = codes "IN";
  msg_type = request;
  method = codes "tools/list";
  jsonrpc_id = codes "1";
  params = [];
  result = [];
  error_data = [];
  latency_ms = pos 0;
  size_bytes = 30;
  token_estimate = 7;
  error_code = [];
  raw = [];
}

abbrev format : ℕ → Bytes
format n = n ∷ []

-- What the mux does with paths that are clean and not.
paths_routed :
    (route (codes "GET") (codes "//api/stats") ≡ moved)
    × (route (codes "GET") (codes "/api/../x") ≡ moved)
    × (route (codes "GET") (codes "/a/.../") ≡ files)
    × (route (codes "GET") (codes "/") ≡ files)
unfolding route eq_bytes is_clean is_tidy
paths_routed = (refl, refl, refl, refl)

-- The right password.
abbrev admitted : Request
admitted = record clearing { credentials = some (codes "admin", codes "secret") }

serve-Step_example :
    let t = served whole database coding format dashboard admitted store in
    IsKept whole database coding t
    × (((Clears (badger_api whole database coding) format dashboard admitted → ⊥) × (t ≡ store))
        ⊎ (Clears (badger_api whole database coding) format dashboard admitted
            × Step whole database coding
                (archive whole database coding store)
                clears
                (archive whole database coding t)))
serve-Step_example =
    serve-Step whole database coding format dashboard admitted store laws store-IsKept
