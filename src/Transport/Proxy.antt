-- ===== src/Transport/Proxy.antt =====
-- internal/transport/proxy.go: the two interceptors of bodies, and which of them a response gets.
pub mod Laws
pub mod RoundTrip
pub mod Serve
use mcpwatch.Base.{
  ℕ, zero, suc, ◌+◌, ◌*◌, ◌<◌, Bool, true, false, not, ◌&&◌, ◌||◌, Option, none, some, List, [],
  ◌∷◌, ◌++◌, Bytes, codes, length, drop, is_empty, has_prefix, ltb, ◌==◌, if◌then◌else◌,
}
use mcpwatch.Engine.Parser.{Parser}
use mcpwatch.Transport.Cutter.{drain}
use mcpwatch.Transport.Lines.{line_cutter}
use mcpwatch.Transport.Space.{trim_space}
use mcpwatch.Transport.Wire.{IoError, eof, limit_exceeded, failed, Wire, deliver}

abbrev pub proxy_type : Bytes
proxy_type = codes "http/sse"

abbrev pub limit : ℕ
limit = 10 * 1024 * 1024

-- `bodyInterceptor` and `streamInterceptor`; the direction of the second is always OUT.
pub record Interceptor : Type 0 where
  pub trans_type : Bytes
  pub direction : Bytes
  pub buf : Bytes

-- What a call of `Read` returns: the bytes it put in front of the caller's slice, and the error.
pub record ReadResult : Type 0 where
  pub bytes : Bytes
  pub err : Option IoError

-- `bytes.TrimPrefix(b, prefix)`.
unfoldable pub trim_prefix : Bytes → Bytes → Bytes
trim_prefix p s = if has_prefix p s then drop (length p) s else s

-- White space and a record separator are taken off.
unfoldable pub clean : Bytes → Bytes
clean line = trim_prefix (0x1e ∷ []) (trim_space line)

-- The payload of a server-sent event, or the line itself.
unfoldable pub payload_of : Bytes → Bytes
payload_of line =
    if has_prefix (codes "data:") line then trim_space (trim_prefix (codes "data:") line) else line

unfoldable pub is_json_start : Bytes → Bool
is_json_start s = not (is_empty s) && (has_prefix (codes "{") s || has_prefix (codes "[") s)

module _ (parser : Parser) where
  -- One line of a body.
  unfoldable pub body_line : Bytes → Bytes → Bytes → Wire → Wire
  body_line direction trans_type raw w =
      let line = clean raw in
      if is_empty line then w else deliver parser direction trans_type line w

  -- One line of an event stream.
  unfoldable pub stream_line : Bytes → Bytes → Bytes → Wire → Wire
  stream_line _ trans_type raw w =
      let line = clean raw in
      let payload = payload_of line in
      if is_empty line
      then w
      else if is_json_start payload
      then deliver parser (codes "OUT") trans_type payload w
      else w

-- `err == io.EOF`.
unfoldable pub is_eof : Option IoError → Bool
is_eof (some eof) = true
is_eof _ = false

-- The two methods differ in what they do with a line: `line` is given the direction and the
-- transport of the interceptor.
module _ (line : Bytes → Bytes → Bytes → Wire → Wire) where
  -- At the end of the body what is left in the buffer is a line.
  unfoldable pub flush_end : Bool → Interceptor → Wire → Interceptor × Wire
  flush_end false s w = (s, w)
  flush_end true s w =
      if is_empty s.buf
      then (s, w)
      else (record s { buf = [] }, line s.direction s.trans_type s.buf w)

  -- `if n > 0 { … }` after the limit was tested.
  unfoldable pub take_in : Bytes → Interceptor → Wire → Interceptor × Wire
  take_in [] s w = (s, w)
  take_in (b ∷ bs) s w =
      let (buf, w') = drain line_cutter (line s.direction s.trans_type) (s.buf ++ b ∷ bs) w in
      (record s { buf = buf }, w')

  -- `Read`, where the body answers `r`.
  unfoldable pub read_with : ReadResult → Interceptor → Wire → ReadResult × Interceptor × Wire
  unfolding flush_end take_in is_eof
  read_with r s w =
      if not (is_empty r.bytes) && ltb limit (length s.buf + length r.bytes)
      then (record { bytes = []; err = some limit_exceeded }, s, w)
      else (let (s', w') = take_in r.bytes s w in
          let (s'', w'') = flush_end (is_eof r.err) s' w' in (r, s'', w''))

  -- One call after another.
  unfoldable pub read_all : List ReadResult → Interceptor → Wire → Interceptor × Wire
  read_all [] s w = (s, w)
  read_all (r ∷ rs) s w = let (_, s', w') = read_with r s w in read_all rs s' w'

-- `bodyInterceptor.Read`.
abbrev pub body_read : Parser → ReadResult → Interceptor → Wire → ReadResult × Interceptor × Wire
body_read parser = read_with (body_line parser)

-- `streamInterceptor.Read`.
abbrev pub stream_read : Parser → ReadResult → Interceptor → Wire → ReadResult × Interceptor × Wire
stream_read parser = read_with (stream_line parser)

-- `strings.Contains(s, sub)`.
unfoldable pub contains : Bytes → Bytes → Bool
contains sub [] = is_empty sub
contains sub (c ∷ s) = has_prefix sub (c ∷ s) || contains sub s

-- The content types whose body is read as a stream.
unfoldable pub is_stream : Bytes → Bool
unfolding contains
is_stream content_type =
    has_prefix (codes "text/event-stream") content_type
    || has_prefix (codes "application/x-ndjson") content_type
    || has_prefix (codes "application/json-seq") content_type
    || contains (codes "ndjson") content_type

-- The reader that `RoundTrip` puts before a response's body.
abbrev pub response_line : Parser → Bytes → Bytes → Bytes → Bytes → Wire → Wire
response_line parser content_type =
    if is_stream content_type then stream_line parser else body_line parser
