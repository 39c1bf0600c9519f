-- ===== src/App/Flags.antt =====
-- main.go: the flags with their defaults, and the configuration that they and the file make up.
pub mod Effective
use mcpwatch.Base.{Bool, true, false, Option, none, some, [], Bytes, codes, eq_bytes, if◌then◌else◌}
use mcpwatch.Base.Int.{ℤ, pos}
use mcpwatch.App.Config.{Config, ConfigFile, Loaded, exits, load}

-- What `flag.Parse` finds: the flags that were given, with their values.
pub record CommandLine (F : Type 0) : Type 0 where
  pub wrap : Option Bytes
  pub proxy : Option Bytes
  pub proxy_port : Option Bytes
  pub pid : Option ℤ
  pub db : Option Bytes
  pub ui : Option Bytes
  pub log_level : Option Bytes
  pub log_json : Option Bool
  pub auth_user : Option Bytes
  pub auth_pass : Option Bytes
  pub tls_cert : Option Bytes
  pub tls_key : Option Bytes
  pub alert_webhook : Option Bytes
  pub alert_error_rate : Option F
  pub alert_latency : Option ℤ
  pub alert_window : Option ℤ
  pub gc_percent : Option ℤ
  pub socket_local : Option Bytes
  pub socket_target : Option Bytes
  pub version : Bool

abbrev pub is_given {ℓ} : {A : Type ℓ} → Option A → Bool
is_given none = false
is_given (some a) = true

-- `*flag.String(name, default, …)`.
abbrev pub or_default {ℓ} : {A : Type ℓ} → Option A → A → A
or_default none d = d
or_default (some a) d = a

module _ {F : Type 0} where
  -- `explicitFlags[name]`.
  unfoldable pub explicit_flags : CommandLine F → Bytes → Bool
  explicit_flags cl name =
      if eq_bytes name (codes "wrap")
      then is_given cl.wrap
      else if eq_bytes name (codes "proxy")
      then is_given cl.proxy
      else if eq_bytes name (codes "proxy-port")
      then is_given cl.proxy_port
      else if eq_bytes name (codes "pid")
      then is_given cl.pid
      else if eq_bytes name (codes "db")
      then is_given cl.db
      else if eq_bytes name (codes "ui")
      then is_given cl.ui
      else if eq_bytes name (codes "log-level")
      then is_given cl.log_level
      else if eq_bytes name (codes "log-json")
      then is_given cl.log_json
      else if eq_bytes name (codes "auth-user")
      then is_given cl.auth_user
      else if eq_bytes name (codes "auth-pass")
      then is_given cl.auth_pass
      else if eq_bytes name (codes "tls-cert")
      then is_given cl.tls_cert
      else if eq_bytes name (codes "tls-key")
      then is_given cl.tls_key
      else if eq_bytes name (codes "alert-webhook")
      then is_given cl.alert_webhook
      else if eq_bytes name (codes "alert-error-rate")
      then is_given cl.alert_error_rate
      else if eq_bytes name (codes "alert-latency")
      then is_given cl.alert_latency
      else if eq_bytes name (codes "alert-window")
      then is_given cl.alert_window
      else if eq_bytes name (codes "gc-percent")
      then is_given cl.gc_percent
      else if eq_bytes name (codes "socket-local")
      then is_given cl.socket_local
      else if eq_bytes name (codes "socket-target")
      then is_given cl.socket_target
      else false

  -- `cfg`, as the flags make it; `zero` is 0.0.
  abbrev pub flags_of : F → CommandLine F → Config F
  flags_of zero cl = record {
    wrap_cmd = or_default cl.wrap [];
    proxy_url = or_default cl.proxy [];
    proxy_port = or_default cl.proxy_port (codes "8081");
    pid = or_default cl.pid (pos 0);
    db_path = or_default cl.db (codes "mcpwatch_data");
    ui_port = or_default cl.ui (codes "8080");
    log_level = or_default cl.log_level (codes "info");
    log_json = or_default cl.log_json false;
    auth_user = or_default cl.auth_user [];
    auth_pass = or_default cl.auth_pass [];
    tls_cert = or_default cl.tls_cert [];
    tls_key = or_default cl.tls_key [];
    alert_webhook = or_default cl.alert_webhook [];
    alert_error_rate = or_default cl.alert_error_rate zero;
    alert_latency = or_default cl.alert_latency (pos 0);
    alert_window = or_default cl.alert_window (pos 60);
    gc_percent = or_default cl.gc_percent (pos 35);
    socket_local = or_default cl.socket_local [];
    socket_target = or_default cl.socket_target [];
  }

  -- `main` up to the configuration. The version is printed before the file is read.
  unfoldable pub configure : (F → Bool) → F → CommandLine F → ConfigFile F → Loaded F
  unfolding explicit_flags
  configure above_zero zero cl file =
      if cl.version then exits 0 else load above_zero (explicit_flags cl) (flags_of zero cl) file
