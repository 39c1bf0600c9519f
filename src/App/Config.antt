-- ===== src/App/Config.antt =====
-- main.go: how flags and the configuration file make up the configuration, and the checks after it.
pub mod Precedence
pub mod Modes
use mcpwatch.Base.{
  ℕ, suc, ◌+◌, ◌-◌, Bool, true, false, not, ◌&&◌, ◌||◌, Option, none, some, List, [], ◌∷◌, map,
  Bytes, codes, is_empty, eq_bytes, leb, ◌==◌, if◌then◌else◌,
}
use mcpwatch.Base.Int.{ℤ, pos, is_zero, is_positive}

-- `F` is the type of float64.
pub record Config (F : Type 0) : Type 0 where
  pub wrap_cmd : Bytes
  pub proxy_url : Bytes
  pub proxy_port : Bytes
  pub pid : ℤ
  pub db_path : Bytes
  pub ui_port : Bytes
  pub log_level : Bytes
  pub log_json : Bool
  pub auth_user : Bytes
  pub auth_pass : Bytes
  pub tls_cert : Bytes
  pub tls_key : Bytes
  pub alert_webhook : Bytes
  pub alert_error_rate : F
  pub alert_latency : ℤ
  pub alert_window : ℤ
  pub gc_percent : ℤ
  pub socket_local : Bytes
  pub socket_target : Bytes

-- `if set { c = file }`.
abbrev pub override {ℓ} : {A : Type ℓ} → Bool → A → A → A
override set file c = if set then file else c

abbrev pub given : Bytes → Bool
given s = not (is_empty s)

module _ {F : Type 0} (above_zero : F → Bool) where
  -- The values of the file that are set go over those of the flags.
  unfoldable pub merge_file : Config F → Config F → Config F
  merge_file file c = record {
    wrap_cmd = override (given file.wrap_cmd) file.wrap_cmd c.wrap_cmd;
    proxy_url = override (given file.proxy_url) file.proxy_url c.proxy_url;
    proxy_port = override (given file.proxy_port) file.proxy_port c.proxy_port;
    pid = override (not (is_zero file.pid)) file.pid c.pid;
    db_path = override (given file.db_path) file.db_path c.db_path;
    ui_port = override (given file.ui_port) file.ui_port c.ui_port;
    log_level = override (given file.log_level) file.log_level c.log_level;
    log_json = override file.log_json file.log_json c.log_json;
    auth_user = override (given file.auth_user) file.auth_user c.auth_user;
    auth_pass = override (given file.auth_pass) file.auth_pass c.auth_pass;
    tls_cert = override (given file.tls_cert) file.tls_cert c.tls_cert;
    tls_key = override (given file.tls_key) file.tls_key c.tls_key;
    alert_webhook = override (given file.alert_webhook) file.alert_webhook c.alert_webhook;
    alert_error_rate =
        override (above_zero file.alert_error_rate) file.alert_error_rate c.alert_error_rate;
    alert_latency = override (is_positive file.alert_latency) file.alert_latency c.alert_latency;
    alert_window = override (is_positive file.alert_window) file.alert_window c.alert_window;
    gc_percent = override (is_positive file.gc_percent) file.gc_percent c.gc_percent;
    socket_local = c.socket_local;
    socket_target = c.socket_target;
  }

-- `--config`: none, one that cannot be read, one that is not JSON, or one that decodes.
pub data ConfigFile (F : Type 0) : Type 0 where
  absent unreadable invalid : ConfigFile F
  decoded : Config F → ConfigFile F

pub data Loaded (F : Type 0) : Type 0 where
  loaded : Config F → Loaded F
  exits : ℕ → Loaded F

module _ {F : Type 0} where
  -- The flags that were given go over everything.
  unfoldable pub apply_explicit : (Bytes → Bool) → Config F → Config F → Config F
  apply_explicit explicit flags c = record {
    wrap_cmd = override (explicit (codes "wrap")) flags.wrap_cmd c.wrap_cmd;
    proxy_url = override (explicit (codes "proxy")) flags.proxy_url c.proxy_url;
    proxy_port = override (explicit (codes "proxy-port")) flags.proxy_port c.proxy_port;
    pid = override (explicit (codes "pid")) flags.pid c.pid;
    db_path = override (explicit (codes "db")) flags.db_path c.db_path;
    ui_port = override (explicit (codes "ui")) flags.ui_port c.ui_port;
    log_level = override (explicit (codes "log-level")) flags.log_level c.log_level;
    log_json = override (explicit (codes "log-json")) flags.log_json c.log_json;
    auth_user = override (explicit (codes "auth-user")) flags.auth_user c.auth_user;
    auth_pass = override (explicit (codes "auth-pass")) flags.auth_pass c.auth_pass;
    tls_cert = override (explicit (codes "tls-cert")) flags.tls_cert c.tls_cert;
    tls_key = override (explicit (codes "tls-key")) flags.tls_key c.tls_key;
    alert_webhook = override (explicit (codes "alert-webhook")) flags.alert_webhook c.alert_webhook;
    alert_error_rate =
        override (explicit (codes "alert-error-rate")) flags.alert_error_rate c.alert_error_rate;
    alert_latency = override (explicit (codes "alert-latency")) flags.alert_latency c.alert_latency;
    alert_window = override (explicit (codes "alert-window")) flags.alert_window c.alert_window;
    gc_percent = override (explicit (codes "gc-percent")) flags.gc_percent c.gc_percent;
    socket_local = c.socket_local;
    socket_target = c.socket_target;
  }

  unfoldable pub load : (F → Bool) → (Bytes → Bool) → Config F → ConfigFile F → Loaded F
  unfolding merge_file apply_explicit
  load above_zero explicit flags absent = loaded flags
  load above_zero explicit flags unreadable = exits 1
  load above_zero explicit flags invalid = exits 1
  load above_zero explicit flags (decoded file) =
      loaded (apply_explicit explicit flags (merge_file above_zero file flags))

-- The level of the logger.
pub data LogLevel : Type 0 where
  debug info warn error : LogLevel

-- `strings.ToLower`, on the letters that the names of the levels have.
unfoldable pub to_lower : ℕ → ℕ
to_lower c = if leb b'A' c && leb c b'Z' then c + 32 else c

unfoldable pub log_level_of : Bytes → LogLevel
unfolding to_lower
log_level_of s =
    let level = map to_lower s in
    if eq_bytes level (codes "debug")
    then debug
    else if eq_bytes level (codes "warn")
    then warn
    else if eq_bytes level (codes "error")
    then error
    else info

-- The transport with the settings that it is made with.
pub data Transport : Type 0 where
  stdio : Bytes → Transport
  proxy : Bytes → Bytes → Transport
  ebpf : ℤ → Transport
  socket : Bytes → Bytes → Transport

abbrev one : Bool → ℕ
one b = if b then 1 else 0

module _ {F : Type 0} where
  abbrev pub wants_wrap : Config F → Bool
  wants_wrap c = given c.wrap_cmd

  abbrev pub wants_proxy : Config F → Bool
  wants_proxy c = given c.proxy_url

  abbrev pub wants_pid : Config F → Bool
  wants_pid c = not (is_zero c.pid)

  abbrev pub wants_socket : Config F → Bool
  wants_socket c = given c.socket_local && given c.socket_target

  unfoldable pub modes : Config F → ℕ
  modes c = one (wants_wrap c) + one (wants_proxy c) + one (wants_pid c) + one (wants_socket c)

  -- The ladder that makes the transport.
  unfoldable pub make_transport : Config F → Option Transport
  make_transport c =
      if wants_wrap c
      then some (stdio c.wrap_cmd)
      else if wants_proxy c
      then some (proxy c.proxy_url c.proxy_port)
      else if wants_pid c
      then some (ebpf c.pid)
      else if wants_socket c
      then some (socket c.socket_local c.socket_target)
      else none

-- Usage and exit, or a run with the transport.
pub data Start : Type 0 where
  usage : Start
  runs : Option Transport → Start

module _ {F : Type 0} where
  -- Anything but one mode prints the usage and exits.
  unfoldable pub select : Config F → Start
  unfolding modes make_transport
  select c = if not (modes c == 1) then usage else runs (make_transport c)
