-- ===== src/App/Tests.antt =====
-- Configurations, a run of the whole program, and the theorems at concrete inputs.
mod Starts
mod Programs
use mcpwatch.Base.{length, ℕ, ◌≡◌, ◌≢◌, ◌↔◌, refl, false, none, some, codes, ltb, []}
use mcpwatch.Base.Int.{pos}
use mcpwatch.App.Config.{Config, Transport, decoded, load, select, usage, runs}
use mcpwatch.App.Config.Precedence.{begin, begin-socket_file}
use mcpwatch.Base.{true, Bytes, ◌+◌, ◌*◌, ◌/◌, List, ◌∷◌, ◌++◌, Option}
use mcpwatch.Base.Float.{Float64}
use mcpwatch.Engine.Message.{request, response, Message}
use mcpwatch.Engine.Json.{Codec}
use mcpwatch.Engine.Correlator.{new_correlator}
use mcpwatch.Storage.Queue.{new_pipeline}
use mcpwatch.Server.Hub.{new_hub, accepts, pump_takes}
use mcpwatch.Server.Hub.Safety.{new_hub-IsSound}
use mcpwatch.App.Flags.{CommandLine, configure}
use mcpwatch.App.Flags.Effective.{configure-effective}
use mcpwatch.App.Config.{absent, unreadable, invalid, loaded, exits, stdio, modes, make_transport}
use mcpwatch.App.Start.{Running, running_of, start_main}
use mcpwatch.App.Start.Runs.{guarded_handle, start_main-serves}
use mcpwatch.App.Tracing.{init_tracer}
use mcpwatch.Server.Http.{Request, serve}
use mcpwatch.Storage.Api.{StoreApi}
use mcpwatch.App.Loop.{
  Event, received, context_done, store_receives, store_ticks, hub_acts, System, system_run,
}
use mcpwatch.App.Loop.Exchange.{system_run-answers}
use mcpwatch.Base.Time.{now, since, milliseconds}
use mcpwatch.Metrics.{record_metrics}
use mcpwatch.Storage.Queue.{insert}
use mcpwatch.App.Loop.Run.{Runs, handled, queue_events, system_run-Runs}
use mcpwatch.App.Config.Modes.{Wants, Only, select-runs}

-- The defaults of the flags.
abbrev defaults : Config ℕ
defaults = record {
  wrap_cmd = [];
  proxy_url = [];
  proxy_port = codes "8081";
  pid = pos 0;
  db_path = codes "mcpwatch_data";
  ui_port = codes "8080";
  log_level = codes "info";
  log_json = false;
  auth_user = [];
  auth_pass = [];
  tls_cert = [];
  tls_key = [];
  alert_webhook = [];
  alert_error_rate = 0;
  alert_latency = pos 0;
  alert_window = pos 60;
  gc_percent = pos 35;
  socket_local = [];
  socket_target = [];
}

abbrev socket_file : Config ℕ
socket_file = record defaults { socket_local = codes "/tmp/a"; socket_target = codes "/tmp/b" }

begin-socket_file_example :
    (load (λ n. ltb 0 n) (λ _. false) defaults (decoded socket_file)
      ≡ load (λ n. ltb 0 n) (λ _. false) defaults (decoded defaults))
    × (begin
          (λ n. ltb 0 n)
          (λ _. false)
          (load (λ n. ltb 0 n) (λ _. false) defaults (decoded socket_file))
        ≡ usage)
begin-socket_file_example =
    begin-socket_file (λ n. ltb 0 n) (λ _. false) defaults defaults (codes "/tmp/a")
      (codes "/tmp/b") (refl, refl, refl) refl (refl, refl, refl)

abbrev wrapping : Config ℕ
wrapping = record defaults { wrap_cmd = codes "server" }

-- Numbers that are whole, and a codec of no texts.
abbrev whole : Float64
whole = record {
  F = ℕ;
  of_int = λ n. n;
  plus = λ a b. a + b;
  times = λ a b. a * b;
  over = λ a b. a / b;
  greater = λ a b. ltb b a;
  is_finite = λ _. true;
}

abbrev codec : Codec ℕ
codec = record {
  unmarshal = λ _. none;
  marshal = λ _. [];
  print = λ _. [];
  unmarshal_meta = λ _. none;
}

abbrev ask : Message
ask = record {
  id = 0;
  timestamp = 0;
  transport = codes "stdio";
  direction = codes "IN";
  msg_type = request;
  method = codes "tools/list";
  jsonrpc_id = codes "1";
  params = [];
  result = [];
  error_data = [];
  latency_ms = pos 0;
  size_bytes = 30;
  token_estimate = 7;
  error_code = [];
  raw = [];
}

abbrev system : System whole (List (List Message))
system = record {
  correlator = new_correlator;
  env = record { clock = record { at = λ i. i; reads = 0 }; started = 0; calls = [] };
  updates = [];
  pipeline = new_pipeline [];
  hub = new_hub;
  cancelled = false;
  returned = false;
}

abbrev encode : Message → Option Bytes
encode m = some m.method

abbrev note_batch : List Message → List (List Message) → List (List Message)
note_batch b s = s ++ b ∷ []

abbrev events : List Event
events =
    hub_acts accepts
    ∷ received (some ask)
    ∷ store_receives
    ∷ received none
    ∷ hub_acts (pump_takes 0)
    ∷ store_ticks
    ∷ context_done
    ∷ received (some ask)
    ∷ []

system_run-Runs_example :
    (t : System whole (List (List Message))) × (system_run whole codec true encode note_batch events
        system
      ≡ some t)
    × Runs whole codec true encode note_batch
        (handled whole codec true encode note_batch events system)
        (queue_events whole codec true encode note_batch events system)
        system
        t
system_run-Runs_example =
    system_run-Runs whole codec true encode note_batch events system new_hub-IsSound

abbrev reply : Message
reply = record ask { msg_type = response; method = []; timestamp = 5 }

-- What goes on between the request and its response.
abbrev between : List Event
between = store_receives ∷ hub_acts accepts ∷ received none ∷ []

system_run-answers_example :
    (u t : System whole (List (List Message))) × (last : Message) × (system_run whole codec true
        encode note_batch
        (received (some ask) ∷ between)
        system
      ≡ some u)
    × (system_run whole codec true encode note_batch
          ((received (some ask) ∷ between) ++ received (some reply) ∷ [])
          system
        ≡ some t)
    × (t.updates ≡ u.updates ++ record_metrics whole (some last))
    × (t.pipeline ≡ insert last u.pipeline)
    × (last.latency_ms ≡ milliseconds (since (now u.env.clock) 0))
    × (last.method ≡ codes "tools/list")
system_run-answers_example =
    system_run-answers whole codec true encode note_batch ask reply between system new_hub-IsSound
      refl refl (λ e. cc) ((λ e. cc), ((λ e. cc), ((λ e. cc), tt))) tt refl refl
