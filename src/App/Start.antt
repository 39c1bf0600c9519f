-- ===== src/App/Start.antt =====
-- main.go: what `main` starts once the mode is chosen, and what its deferred calls close; and
-- internal/server/server.go: `New`, `Start` and `StartTLS`.
pub mod Runs
use mcpwatch.Base.{Bool, ◌&&◌, Option, none, some, List, [], ◌∷◌, ◌++◌, Bytes, codes, if◌then◌else◌}
use mcpwatch.Base.Float.{Float64}
use mcpwatch.Alert.{Alerter, new_alerter}
use mcpwatch.App.Config.{
  Config, given, Transport, stdio, proxy, ebpf, socket, Start, usage, runs, select,
}
use mcpwatch.App.Tracing.{Provider, Tracing}
use mcpwatch.Server.Http.{Server, set_auth}
use mcpwatch.Transport.Defer.{Call, unwind}
use mcpwatch.Transport.Ebpf.{ebpf_type}
use mcpwatch.Transport.Proxy.{proxy_type}
use mcpwatch.Transport.Socket.{socket_type}
use mcpwatch.Transport.Stdio.{stdio_type}

-- What is closed by a deferred call.
pub data Resource : Type 0 where
  signals tracer_provider database : Resource

-- The address that the dashboard is served at, with a certificate and its key or without.
pub data Listener : Type 0 where
  plain : Bytes → Listener
  tls : Bytes → Bytes → Bytes → Listener

abbrev address : Bytes → Bytes
address port = codes ":" ++ port

-- `Server.Start` and `Server.StartTLS`.
abbrev pub start_plain : Bytes → Listener
start_plain port = plain (address port)

abbrev pub start_tls : Bytes → Bytes → Bytes → Listener
start_tls port cert key = tls (address port) cert key

abbrev pub listener_of : {F : Type 0} → Config F → Listener
listener_of c =
    if given c.tls_cert && given c.tls_key
    then start_tls c.ui_port c.tls_cert c.tls_key
    else start_plain c.ui_port

-- `server.New` and `SetAuth`.
abbrev pub new_server : Server
new_server = record { auth_username = []; auth_password = [] }

abbrev pub server_of : {F : Type 0} → Config F → Server
server_of c =
    if given c.auth_user && given c.auth_pass
    then set_auth c.auth_user c.auth_pass new_server
    else new_server

-- `Type` of the handlers.
abbrev pub type_of : Transport → Bytes
type_of (stdio command) = stdio_type
type_of (proxy url port) = proxy_type
type_of (ebpf pid) = ebpf_type
type_of (socket local target) = socket_type

module _ (fl : Float64) where
  open fl use {F}

  -- What runs beside the loop: the alerter if there is a webhook, the dashboard, and the transport.
  pub record Running : Type 0 where
    pub alerter : Option (Alerter fl)
    pub server : Server
    pub listener : Listener
    pub transport : Option Transport

  abbrev pub alerter_of : Config F → Option (Alerter fl)
  alerter_of c =
      if given c.alert_webhook
      then some (new_alerter fl c.alert_webhook c.alert_error_rate c.alert_latency c.alert_window)
      else none

  abbrev pub running_of : Config F → Option Transport → Running
  running_of c t = record {
    alerter = alerter_of c;
    server = server_of c;
    listener = listener_of c;
    transport = t;
  }

  -- What is open, the latest first, and what runs; nothing runs where the process has exited with
  -- 1.
  pub record Main : Type 0 where
    pub open_now : List Resource
    pub running : Option Running

  abbrev pub before_store : Option Provider → List Resource
  before_store none = signals ∷ []
  before_store (some p) = tracer_provider ∷ signals ∷ []

  -- With a database that opens or not. An exit runs no deferred call.
  abbrev pub with_transport : Config F → Tracing → Bool → Start → Main
  with_transport c t opens usage = record { open_now = []; running = none }
  with_transport c t opens (runs tr) =
      if opens
      then record {
        open_now = database ∷ before_store t.provider;
        running = some (running_of c tr);
      }
      else record { open_now = before_store t.provider; running = none }

  -- `main` from the loaded configuration to its loop.
  unfoldable pub start_main : Config F → Tracing → Bool → Main
  start_main c t opens = with_transport c t opens (select c)

  -- The deferred calls, when the loop returns.
  abbrev pub return_main : Main → List (Call Resource)
  return_main m = unwind m.open_now
