-- ===== src/Transport/Socket/Connection.antt =====
-- internal/transport/socket.go: `Start` with its loop over the connections, and `handleConnection`
-- with its two copies. What the sockets answer is given, and in which order the goroutines run.
pub mod Merges
pub mod Interleaves
pub mod Accepts
use mcpwatch.Base.{
  Bool, true, false, Option, none, some, List, [], ◌∷◌, ◌++◌, Bytes, codes, if◌then◌else◌,
}
use mcpwatch.Engine.Parser.{Parser}
use mcpwatch.Transport.Defer.{Call, closes, Step, acquires, defers, Returned, run_steps}
use mcpwatch.Transport.Socket.{socket_type, SocketInterceptor, WriteResult, write}
use mcpwatch.Transport.Wire.{Wire}

pub data Conn : Type 0 where
  listener client_conn target_conn : Conn

-- `clientWriter` takes what the client sends, `targetWriter` what the target sends.
pub record Writers : Type 0 where
  pub client_writer : SocketInterceptor
  pub target_writer : SocketInterceptor

abbrev pub new_writers : Writers
new_writers = record {
  client_writer = record { trans_type = socket_type; direction = codes "IN"; buf = [] };
  target_writer = record { trans_type = socket_type; direction = codes "OUT"; buf = [] };
}

-- A call of `Write` by one of the copies, and what the connection answers.
pub data Copied : Type 0 where
  from_client from_target : Bytes → WriteResult → Copied

abbrev pub connection_steps : List (Step Conn)
connection_steps =
    defers client_conn
    ∷ acquires target_conn (codes "failed to connect to target socket")
    ∷ defers target_conn
    ∷ []

module _ (parser : Parser) where
  unfoldable pub copy : Copied → Writers → Wire → Writers × Wire
  copy (from_client p r) s w =
      let (_, s', w') = write parser p r s.client_writer w in (record s { client_writer = s' }, w')
  copy (from_target p r) s w =
      let (_, s', w') = write parser p r s.target_writer w in (record s { target_writer = s' }, w')

  -- The two copies run side by side, so that their calls come in any order.
  unfoldable pub copies : List Copied → Writers → Wire → Writers × Wire
  copies [] s w = (s, w)
  copies (c ∷ cs) s w = let (s', w') = copy c s w in copies cs s' w'

  -- `handleConnection` with a connection that is open: the calls on connections, and the wire. The
  -- copies `cs` run if the target answers the dial.
  unfoldable pub handle_connection : Bool → List Copied → Wire → List (Call Conn) × Wire
  handle_connection dialled cs w = (
    (run_steps (λ _. dialled) [] connection_steps []).calls,
    if dialled then (copies cs new_writers w).1 else w,
  )

-- What `Accept` answers: a connection, an error, or an error after the context is done.
pub data Accepted (C : Type 0) : Type 0 where
  connection : C → Accepted C
  accept_failed accept_stopped : Accepted C

-- The loop: the connections that get a goroutine, and whether the function has returned.
unfoldable pub accept_loop : {C : Type 0} → List (Accepted C) → List C × Bool
accept_loop [] = ([], false)
accept_loop (connection c ∷ more) = let (cs, b) = accept_loop more in (c ∷ cs, b)
accept_loop (accept_failed ∷ more) = accept_loop more
accept_loop (accept_stopped ∷ more) = ([], true)

-- The calls on the listener by `Start`, with those of the goroutine that waits for the context: it
-- closes the listener before the loop can end.
unfoldable pub start_socket : Bool → Returned Conn
start_socket listens =
    run_steps (λ _. listens) (closes listener ∷ [])
      (acquires listener (codes "failed to listen on unix socket") ∷ defers listener ∷ []) []
