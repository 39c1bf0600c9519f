-- ===== src/Transport/Proxy/Serve.antt =====
-- internal/transport/proxy.go: `Start`. The reverse proxy and the HTTP server are net/http's.
use mcpwatch.Base.{Bool, Option, none, some, ◌++◌, Bytes, codes, if◌then◌else◌}

-- How `ListenAndServe` returns: with no error, with `ErrServerClosed`, or with another error.
pub data ServeEnd : Type 0 where
  ended server_closed : ServeEnd
  broken : Bytes → ServeEnd

-- The reverse proxy and the address that it is served at.
pub record ProxyServer : Type 0 where
  pub target : Bytes
  pub addr : Bytes

abbrev pub proxy_server : Bytes → Bytes → ProxyServer
proxy_server url port = record { target = url; addr = codes ":" ++ port }

abbrev pub serve_error : ServeEnd → Option Bytes
serve_error ended = none
serve_error server_closed = none
serve_error (broken text) = some text

-- `Start`: the text of its error, if it returns one.
unfoldable pub start_proxy :
    (Bytes → Bool) → (ProxyServer → ServeEnd) → Bytes → Bytes → Option Bytes
start_proxy parses serves url port =
    if parses url
    then serve_error (serves (proxy_server url port))
    else some (codes "invalid proxy target URL")
