-- ===== src/App/Flags/Effective.antt =====
-- Which of the command line, the file and the default a setting is taken from.
use mcpwatch.Base.{◌≡◌, refl, ap, Bool, true, false, not, Option, none, some, [], codes, eq_bytes}
use mcpwatch.Base.Int.{pos, is_zero, is_positive}
use mcpwatch.App.Config.{
  Config, override, given, absent, unreadable, invalid, decoded, loaded, exits, load, merge_file,
  apply_explicit,
}
use mcpwatch.App.Flags.{CommandLine, is_given, or_default, explicit_flags, flags_of, configure}

-- The flag if it was given, else the file's value if it has one, else the default.
abbrev pub pick {ℓ} : {A : Type ℓ} → Option A → Bool → A → A → A
pick (some v) in_file from_file default = v
pick none true from_file default = from_file
pick none false from_file default = default

override-pick {ℓ} :
    {A : Type ℓ} (o : Option A) (in_file : Bool) (from_file default : A)
    → override
        (is_given o)
        (or_default o default)
        (override in_file from_file (or_default o default))
      ≡ pick o in_file from_file default
override-pick none true v d = refl
override-pick none false v d = refl
override-pick (some a) true v d = refl
override-pick (some a) false v d = refl

module _ {F : Type 0} (above_zero : F → Bool) (zero : F) where
  -- The two socket paths are taken from the command line only.
  abbrev pub effective : CommandLine F → Config F → Config F
  effective cl file = record {
    wrap_cmd = pick cl.wrap (given file.wrap_cmd) file.wrap_cmd [];
    proxy_url = pick cl.proxy (given file.proxy_url) file.proxy_url [];
    proxy_port = pick cl.proxy_port (given file.proxy_port) file.proxy_port (codes "8081");
    pid = pick cl.pid (not (is_zero file.pid)) file.pid (pos 0);
    db_path = pick cl.db (given file.db_path) file.db_path (codes "mcpwatch_data");
    ui_port = pick cl.ui (given file.ui_port) file.ui_port (codes "8080");
    log_level = pick cl.log_level (given file.log_level) file.log_level (codes "info");
    log_json = pick cl.log_json file.log_json file.log_json false;
    auth_user = pick cl.auth_user (given file.auth_user) file.auth_user [];
    auth_pass = pick cl.auth_pass (given file.auth_pass) file.auth_pass [];
    tls_cert = pick cl.tls_cert (given file.tls_cert) file.tls_cert [];
    tls_key = pick cl.tls_key (given file.tls_key) file.tls_key [];
    alert_webhook = pick cl.alert_webhook (given file.alert_webhook) file.alert_webhook [];
    alert_error_rate =
        pick cl.alert_error_rate (above_zero file.alert_error_rate) file.alert_error_rate zero;
    alert_latency =
        pick cl.alert_latency (is_positive file.alert_latency) file.alert_latency (pos 0);
    alert_window = pick cl.alert_window (is_positive file.alert_window) file.alert_window (pos 60);
    gc_percent = pick cl.gc_percent (is_positive file.gc_percent) file.gc_percent (pos 35);
    socket_local = or_default cl.socket_local [];
    socket_target = or_default cl.socket_target [];
  }

  merged-effective :
      (cl : CommandLine F) (file : Config F)
      → apply_explicit
          (explicit_flags cl)
          (flags_of zero cl)
          (merge_file above_zero file (flags_of zero cl))
        ≡ effective cl file
  unfolding apply_explicit merge_file explicit_flags eq_bytes
  merged-effective cl file = λ i. record {
    wrap_cmd = override-pick cl.wrap (given file.wrap_cmd) file.wrap_cmd [] i;
    proxy_url = override-pick cl.proxy (given file.proxy_url) file.proxy_url [] i;
    proxy_port =
        override-pick cl.proxy_port (given file.proxy_port) file.proxy_port (codes "8081") i;
    pid = override-pick cl.pid (not (is_zero file.pid)) file.pid (pos 0) i;
    db_path = override-pick cl.db (given file.db_path) file.db_path (codes "mcpwatch_data") i;
    ui_port = override-pick cl.ui (given file.ui_port) file.ui_port (codes "8080") i;
    log_level = override-pick cl.log_level (given file.log_level) file.log_level (codes "info") i;
    log_json = override-pick cl.log_json file.log_json file.log_json false i;
    auth_user = override-pick cl.auth_user (given file.auth_user) file.auth_user [] i;
    auth_pass = override-pick cl.auth_pass (given file.auth_pass) file.auth_pass [] i;
    tls_cert = override-pick cl.tls_cert (given file.tls_cert) file.tls_cert [] i;
    tls_key = override-pick cl.tls_key (given file.tls_key) file.tls_key [] i;
    alert_webhook =
        override-pick cl.alert_webhook (given file.alert_webhook) file.alert_webhook [] i;
    alert_error_rate =
        override-pick cl.alert_error_rate (above_zero file.alert_error_rate) file.alert_error_rate
          zero i;
    alert_latency =
        override-pick cl.alert_latency (is_positive file.alert_latency) file.alert_latency (pos 0)
          i;
    alert_window =
        override-pick cl.alert_window (is_positive file.alert_window) file.alert_window (pos 60) i;
    gc_percent =
        override-pick cl.gc_percent (is_positive file.gc_percent) file.gc_percent (pos 35) i;
    socket_local = or_default cl.socket_local [];
    socket_target = or_default cl.socket_target [];
  }

  -- Unless the version is asked for, each setting is the flag's value if the flag was given, else
  -- the file's if the file has one, else the default, except that the socket paths are never the
  -- file's. With no file the flags and the defaults are all there is; a file that cannot be read or
  -- decoded ends the program with 1.
  pub configure-effective :
      (cl : CommandLine F) (file : Config F)
      → cl.version ≡ false
      → (configure above_zero zero cl (decoded file) ≡ loaded (effective cl file))
        × (configure above_zero zero cl absent ≡ loaded (flags_of zero cl))
        × (configure above_zero zero cl unreadable ≡ exits 1)
        × (configure above_zero zero cl invalid ≡ exits 1)
  unfolding configure load
  configure-effective cl file e = rw e (ap loaded (merged-effective cl file), refl, refl, refl)
