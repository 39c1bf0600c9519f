-- ===== src/App/Tests/Starts.antt =====
-- The theorems on the start of the program at concrete inputs.
use mcpwatch.Base.{length, ℕ, ◌≡◌, ◌≢◌, ◌↔◌, refl, false, none, some, codes, ltb, []}
use mcpwatch.App.Config.{Config, decoded, select}
use mcpwatch.Base.{true, List, ◌∷◌}
use mcpwatch.Engine.Message.{Message}
use mcpwatch.App.Flags.{CommandLine, configure}
use mcpwatch.App.Flags.Effective.{configure-effective}
use mcpwatch.App.Config.{absent, unreadable, invalid, loaded, exits, stdio, modes, make_transport}
use mcpwatch.App.Start.{Running, running_of, start_main}
use mcpwatch.App.Start.Runs.{guarded_handle, start_main-serves}
use mcpwatch.App.Tracing.{init_tracer}
use mcpwatch.Server.Http.{Request, serve}
use mcpwatch.Storage.Api.{StoreApi}
use mcpwatch.App.Tests.{whole, wrapping, defaults, ask}

-- A store that is a list of messages, with their number as statistics.
abbrev api : StoreApi ℕ
api = record {
  S = List Message;
  recent = λ _ ms. some ms;
  all = λ ms. some ms;
  stats = λ ms. some (length ms);
  reset = λ _. ([], true);
}

-- A user without a password, which leaves the dashboard open.
abbrev half_protected : Config ℕ
half_protected = record wrapping { auth_user = codes "admin"; alert_webhook = codes "http://hook" }

abbrev half_running : Running whole
half_running = running_of whole half_protected (some (stdio (codes "server")))

abbrev asking : Request
asking = record { path = codes "/api/stats"; verb = codes "GET"; credentials = none }

half_started :
    (start_main whole half_protected (init_tracer [] true true) true).running ≡ some half_running
unfolding start_main select modes make_transport init_tracer
half_started = refl

start_main-serves_example :
    (serve api (λ n. n ∷ []) half_running.server asking (ask ∷ [])
      ≡ guarded_handle whole api (λ n. n ∷ []) half_protected asking (ask ∷ []))
    × (half_running.transport ≢ none)
    × ((half_running.alerter ≡ none) ↔ (codes "http://hook" ≡ []))
start_main-serves_example =
    start_main-serves whole api (λ n. n ∷ []) half_protected (init_tracer [] true true) true
      half_running asking (ask ∷ []) half_started

-- `--wrap server`, with a file that gives a port and another command.
abbrev wrap_flag : CommandLine ℕ
wrap_flag = record {
  wrap = some (codes "server");
  proxy = none;
  proxy_port = none;
  pid = none;
  db = none;
  ui = none;
  log_level = none;
  log_json = none;
  auth_user = none;
  auth_pass = none;
  tls_cert = none;
  tls_key = none;
  alert_webhook = none;
  alert_error_rate = none;
  alert_latency = none;
  alert_window = none;
  gc_percent = none;
  socket_local = none;
  socket_target = none;
  version = false;
}

abbrev wrap_file : Config ℕ
wrap_file = record defaults { wrap_cmd = codes "other"; ui_port = codes "9000" }

configure-effective_example :
    let run = configure (λ n. ltb 0 n) 0 wrap_flag in
    (run (decoded wrap_file)
      ≡ loaded (record defaults { wrap_cmd = codes "server"; ui_port = codes "9000" }))
    × (run absent ≡ loaded (record defaults { wrap_cmd = codes "server" }))
    × (run unreadable ≡ exits 1)
    × (run invalid ≡ exits 1)
configure-effective_example = configure-effective (λ n. ltb 0 n) 0 wrap_flag wrap_file refl
