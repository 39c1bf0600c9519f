-- ===== src/Server/Websocket.antt =====
-- internal/server/server.go: `handleWebSocket`, as what it does to the hub.
pub mod Closes
use mcpwatch.Base.{ℕ, Bool, true, false, List, [], ◌∷◌, if◌then◌else◌}
use mcpwatch.Server.Hub.{Action, accepts, reader_fails}

-- The loop: whatever is read is dropped, and the first error unregisters the client.
unfoldable pub read_loop : ℕ → List Bool → List Action
read_loop client [] = []
read_loop client (true ∷ reads) = read_loop client reads
read_loop client (false ∷ reads) = reader_fails client ∷ []

-- `client` is what `Register` returns; the flags tell whether the handshake and each read go well.
unfoldable pub handle_websocket : Bool → ℕ → List Bool → List Action
unfolding read_loop
handle_websocket accepted client reads = if accepted then accepts ∷ read_loop client reads else []
