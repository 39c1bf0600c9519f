-- ===== src/Transport/Socket.antt =====
-- internal/transport/socket.go: the writer that `io.Copy` fills in each direction.
pub mod Laws
pub mod Connection
use mcpwatch.Base.{ℕ, Option, List, [], ◌∷◌, ◌++◌, Bytes, codes, take, is_empty, ltb, if◌then◌else◌}
use mcpwatch.Engine.Parser.{Parser}
use mcpwatch.Transport.Cutter.{drain}
use mcpwatch.Transport.Lines.{line_cutter}
use mcpwatch.Transport.Space.{trim_space}
use mcpwatch.Transport.Wire.{IoError, Wire, deliver}

-- `Type`.
abbrev pub socket_type : Bytes
socket_type = codes "socket"

pub record SocketInterceptor : Type 0 where
  pub trans_type : Bytes
  pub direction : Bytes
  pub buf : Bytes

-- How many bytes the connection took, and its error.
pub record WriteResult : Type 0 where
  pub written : ℕ
  pub err : Option IoError

module _ (parser : Parser) where
  -- The body of the loop, for one line.
  unfoldable pub socket_line : SocketInterceptor → Bytes → Wire → Wire
  socket_line s line w =
      let trimmed = trim_space line in
      if is_empty trimmed then w else deliver parser s.direction s.trans_type trimmed w

  -- `Write(p)`, where the connection answers `r`.
  unfoldable pub write :
      Bytes → WriteResult → SocketInterceptor → Wire → WriteResult × SocketInterceptor × Wire
  write p r s w =
      if ltb 0 r.written
      then (let (buf, w') = drain line_cutter (socket_line s) (s.buf ++ take r.written p) w in
          (r, record s { buf = buf }, w'))
      else (r, s, w)

  -- A connection's life: one call after another.
  unfoldable pub write_all :
      List (Bytes × WriteResult) → SocketInterceptor → Wire → SocketInterceptor × Wire
  write_all [] s w = (s, w)
  write_all ((p, r) ∷ ps) s w = let (_, s', w') = write p r s w in write_all ps s' w'
