-- ===== src/Server/Http.antt =====
-- internal/server/server.go: the routes of the dashboard, basic authentication and the handlers. A
-- response is a value; what net/http and encoding/csv make of it is not modelled, but for the mux's test
-- of the path.
pub mod Access
pub mod Export
pub mod Effects
use mcpwatch.Base.{
  ℕ, ◌==◌, Bool, true, false, not, ◌||◌, ◌&&◌, Option, none, some, List, [], ◌∷◌, map, Bytes, codes,
  is_empty, eq_bytes, if◌then◌else◌,
}
use mcpwatch.Base.Int.{ℤ, pos}
use mcpwatch.Engine.Message.{Message, type_name}
use mcpwatch.Storage.Key.{padded, padded_ℤ}
use mcpwatch.Storage.Api.{StoreApi}

-- `Server`, but for the store and the hub.
pub record Server : Type 0 where
  pub auth_username : Bytes
  pub auth_password : Bytes

-- `SetAuth`.
abbrev pub set_auth : Bytes → Bytes → Server → Server
set_auth user pass s = record s { auth_username = user; auth_password = pass }

pub record Request : Type 0 where
  pub path : Bytes
  pub verb : Bytes
  -- What `r.BasicAuth()` finds.
  pub credentials : Option (Bytes × Bytes)

pub data Handler : Type 0 where
  health websocket interactions stats export_json export_csv clear metrics moved files : Handler

-- What is between two slashes of a path, or behind the last one.
pub data Segment : Type 0 where
  empty dot dots named : Segment

abbrev pub longer : ℕ → Segment → Segment
longer c empty = if c == b'.' then dot else named
longer c dot = if c == b'.' then dots else named
longer c dots = named
longer c named = named

abbrev pub is_named : Segment → Bool
is_named named = true
is_named _ = false

unfoldable pub is_tidy : Segment → Bytes → Bool
is_tidy empty [] = true
is_tidy at [] = is_named at
is_tidy at (c ∷ path) =
    let shut = is_named at && is_tidy empty path in
    let on = is_tidy (longer c at) path in if c == b'/' then shut else on

-- `path.Clean` leaves it: it is absolute, with no empty segment but at its end, and none of one or
-- two dots.
unfoldable pub is_clean : Bytes → Bool
unfolding is_tidy
is_clean [] = false
is_clean (c ∷ path) = c == b'/' && is_tidy empty path

-- `setupMux`, of the verb and the path. The mux redirects a request whose path is not clean, but not
-- CONNECT; a path that is no other pattern is a file of the dashboard.
unfoldable pub route : Bytes → Bytes → Handler
unfolding is_clean
route verb path =
    if not (eq_bytes verb (codes "CONNECT") || is_clean path)
    then moved
    else if eq_bytes path (codes "/health")
    then health
    else if eq_bytes path (codes "/ws")
    then websocket
    else if eq_bytes path (codes "/api/interactions")
    then interactions
    else if eq_bytes path (codes "/api/stats")
    then stats
    else if eq_bytes path (codes "/api/export/json")
    then export_json
    else if eq_bytes path (codes "/api/export/csv")
    then export_csv
    else if eq_bytes path (codes "/api/clear")
    then clear
    else if eq_bytes path (codes "/metrics")
    then metrics
    else files

-- The patterns whose handler is wrapped in `basicAuth` or `basicAuthHandler`; a redirect is none.
abbrev pub is_guarded : Handler → Bool
is_guarded health = false
is_guarded metrics = false
is_guarded moved = false
is_guarded _ = true

abbrev pub matches : Server → Option (Bytes × Bytes) → Bool
matches s none = false
matches s (some (user, pass)) =
    not (not (eq_bytes user s.auth_username) || not (eq_bytes pass s.auth_password))

-- The two tests of `basicAuth`.
unfoldable pub admits : Server → Request → Bool
admits s r =
    if is_empty s.auth_username || is_empty s.auth_password then true else matches s r.credentials

abbrev pub csv_header : List Bytes
csv_header =
    codes "id"
    ∷ codes "timestamp"
    ∷ codes "transport"
    ∷ codes "direction"
    ∷ codes "msg_type"
    ∷ codes "method"
    ∷ codes "jsonrpc_id"
    ∷ codes "latency_ms"
    ∷ codes "size_bytes"
    ∷ codes "token_estimate"
    ∷ codes "error_code"
    ∷ codes "params"
    ∷ codes "result"
    ∷ codes "error_data"
    ∷ []

-- A row of the export, with the text of an instant as a parameter.
unfoldable pub csv_row : (ℕ → Bytes) → Message → List Bytes
csv_row format m =
    padded 1 m.id
    ∷ format m.timestamp
    ∷ m.transport
    ∷ m.direction
    ∷ type_name m.msg_type
    ∷ m.method
    ∷ m.jsonrpc_id
    ∷ padded_ℤ 1 m.latency_ms
    ∷ padded 1 m.size_bytes
    ∷ padded 1 m.token_estimate
    ∷ m.error_code
    ∷ m.params
    ∷ m.result
    ∷ m.error_data
    ∷ []

-- What a response carries. The values are encoded as JSON or CSV.
pub data Body (Statistics : Type 0) : Type 0 where
  -- A static text, an error's text, and the pages of other handlers.
  text : Bytes → Body Statistics
  messages_json : List Message → Body Statistics
  stats_json : Statistics → Body Statistics
  rows_csv : List (List Bytes) → Body Statistics
  health_json store_error upgrade metrics_page clean_path file_page : Body Statistics

pub record Response (Statistics : Type 0) : Type 0 where
  pub status : ℕ
  pub body : Body Statistics

module _ {Statistics : Type 0} where
  abbrev pub reply : ℕ → Body Statistics → Response Statistics
  reply status body = record { status = status; body = body }

  abbrev pub unauthorized : Response Statistics
  unauthorized = reply 401 (text (codes "Unauthorized\n"))

  -- `err.Error()` with status 500, or what the value gives.
  unfoldable pub or_error : {A : Type 0} → (A → Body Statistics) → Option A → Response Statistics
  or_error f none = reply 500 store_error
  or_error f (some a) = reply 200 (f a)

  module _ (api : StoreApi Statistics) (format : ℕ → Bytes) where
    open api use {S, recent, all, reset}

    -- `handleClear`.
    unfoldable pub handle_clear : Request → S → Response Statistics × S
    handle_clear r st =
        let (st', ok) = reset st in
        if not (eq_bytes r.verb (codes "POST"))
        then (reply 405 (text (codes "Method not allowed")), st)
        else if not ok
        then (reply 500 store_error, st')
        else (reply 200 (text (codes "{\"status\":\"ok\"}")), st')

    -- The handlers, once the request is admitted.
    unfoldable pub handle : Handler → Request → S → Response Statistics × S
    unfolding or_error handle_clear csv_row
    handle health r st = (reply 200 health_json, st)
    handle websocket r st = (reply 101 upgrade, st)
    handle interactions r st = (or_error messages_json (recent (pos 100) st), st)
    handle stats r st = (or_error stats_json (api.stats st), st)
    handle export_json r st = (or_error messages_json (all st), st)
    handle export_csv r st =
        (or_error (λ ms. rows_csv (csv_header ∷ map (csv_row format) ms)) (all st), st)
    handle clear r st = handle_clear r st
    handle metrics r st = (reply 200 metrics_page, st)
    handle moved r st = (reply 301 clean_path, st)
    handle files r st = (reply 200 file_page, st)

    -- A request from the mux on.
    unfoldable pub serve : Server → Request → S → Response Statistics × S
    unfolding route admits
    serve s r st =
        if is_guarded (route r.verb r.path) && not (admits s r)
        then (unauthorized, st)
        else handle (route r.verb r.path) r st
