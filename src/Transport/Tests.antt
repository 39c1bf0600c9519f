-- ===== src/Transport/Tests.antt =====
-- Runs of the cutters and interceptors, and the theorems at concrete inputs.
mod Copies
use mcpwatch.Base.{
  lengths, true, false, ◌<◌, ℕ, ◌+◌, ◌*◌, ◌≡◌, ◌≢◌, ◌≤◌, ◌<◌, ◌⊎◌, refl, sym, ap, false, none, some,
  List, [], ◌∷◌, ◌++◌, Bytes, codes, arith, length, length-append, take, zero, suc, ◌∙◌, ltb,
  Bool-cases, inl, inr,
}
use mcpwatch.Base.Int.{pos}
use mcpwatch.Base.Time.{now, tick}
use mcpwatch.Engine.Message.{notification}
use mcpwatch.Engine.Parser.{Parser}
use mcpwatch.Transport.Stdio.{max_line, stdin_line, stderr_line, scan_input}
use mcpwatch.Transport.StreamBuffer.Stderr.{AllStripped, extract_lines-unlines}
use mcpwatch.Transport.Stdio.Laws.{scan_input-lines, scan_input-stops}
use mcpwatch.Transport.Wire.{Wire, eof, limit_exceeded}
use mcpwatch.Transport.Lines.{unlines, index_byte, IsLine}
use mcpwatch.Transport.StreamBuffer.{
  extract_lines, strip_return, from_opener, is_opener, cut_text, cut_json, scan, scan_byte,
  extract_json, is_closer,
}
use mcpwatch.Transport.StreamBuffer.Balanced.{Quoted, Body, IsText, text}
use mcpwatch.Transport.StreamBuffer.Complete.{extract_json-stream, IsFrame, IsDrained-nil}
use mcpwatch.Transport.Socket.{SocketInterceptor, WriteResult, socket_type, socket_line, write_all}
use mcpwatch.Transport.Socket.Laws.{write_all-lines}
use mcpwatch.Transport.Proxy.{
  Interceptor, ReadResult, body_line, stream_line, read_with, read_all, is_eof, limit, proxy_type,
}
use mcpwatch.Transport.Proxy.Laws.{read_with-limit, read_all-lines}
use mcpwatch.Transport.Ebpf.{
  DataEvent, read_event, sample, closed, failed, running, panicked, each_text, listen, new_streams,
  little_endian, payload_size,
}
use mcpwatch.Transport.Ebpf.Laws.{listen-ne-panicked, Fits, listen-texts, carries, CarryAll}

-- A parser that accepts every text.
abbrev parser : Parser
parser = record {
  parse = λ clock raw direction transport. (
    some (record {
      id = 0;
      timestamp = now clock;
      transport = transport;
      direction = direction;
      msg_type = notification;
      method = [];
      jsonrpc_id = [];
      params = [];
      result = [];
      error_data = [];
      latency_ms = pos 0;
      size_bytes = length raw;
      token_estimate = 0;
      error_code = [];
      raw = raw;
    }),
    tick clock,
  );
}

abbrev wire : Wire
wire = record {
  messages = record { capacity = 4; items = [] };
  clock = record { at = λ i. 10 * i; reads = 0 };
}

-- `{"a":"}"}`, where the closing brace of the string does not count.
abbrev object : Bytes
object = codes "{\"a\":\"}\"}"

object-IsText : IsText object
unfolding is_opener is_closer
object-IsText =
    text b'}' refl
      (Body.quote {q = codes "a"} (Quoted.byte refl Quoted.nil)
        (Body.byte refl (Body.quote {q = codes "}"} (Quoted.byte refl Quoted.nil) Body.nil)))
      refl

object-IsFrame : IsFrame (codes " ", object)
unfolding from_opener is_opener
object-IsFrame = (refl, object-IsText)

unfinished : (cut_json (codes "x[") ≡ none) × (from_opener (codes "x[") ≡ codes "[")
unfolding cut_json cut_text scan scan_byte from_opener is_opener
unfinished = (refl, refl)

extract_json-stream_example :
    extract_json (record { buf = codes " {\"a\":\"}\"}x[" })
    ≡ (object ∷ [], record { buf = from_opener (codes "x[") })
extract_json-stream_example =
    extract_json-stream ((codes " ", object) ∷ []) (codes "x[") (object-IsFrame, tt) unfinished.0

-- A connection that took so many bytes.
abbrev took : ℕ → WriteResult
took n = record { written = n; err = none }

lines_apart : IsLine (codes "ab") × (IsLine (codes "c") × IsLine (codes "d"))
unfolding index_byte
lines_apart = (refl, (refl, refl))

-- A body in two reads that ends without a newline.
abbrev body : Interceptor
body = record { trans_type = proxy_type; direction = codes "OUT"; buf = [] }

goes_on : is_eof none ≡ false
unfolding is_eof
goes_on = refl

read_all-lines_example :
    read_all
      (body_line parser)
      (record { bytes = codes "ab\nc"; err = none }
        ∷ record { bytes = codes "\nd"; err = some eof }
        ∷ [])
      body
      wire
    ≡ (
      record body { buf = [] },
      body_line parser (codes "OUT") proxy_type (codes "d") (
          body_line parser
            (codes "OUT")
            proxy_type
            (codes "c")
            (body_line parser (codes "OUT") proxy_type (codes "ab") wire)),
    )
read_all-lines_example =
    read_all-lines (body_line parser) (record { bytes = codes "ab\nc"; err = none } ∷ [])
      (record { bytes = codes "\nd"; err = some eof }) body wire (codes "ab" ∷ codes "c" ∷ [])
      (codes "d") refl (omega arith) (goes_on, tt) refl refl (lines_apart.0, (lines_apart.1.0, tt))
      lines_apart.1.1

abbrev first_read : ReadResult
first_read = record { bytes = codes "ab\nc"; err = none }

read_with-limit_example :
    (length (read_with (stream_line parser) first_read body wire).1.buf ≤ limit)
    × (((read_with (stream_line parser) first_read body wire).0 ≡ first_read)
        ⊎ ((read_with (stream_line parser) first_read body wire
              ≡ (record { bytes = []; err = some limit_exceeded }, body, wire))
            × (limit < 0 + 4)))
read_with-limit_example = read_with-limit (stream_line parser) first_read body wire (omega arith)

-- A sample of the ring: the header of `size` bytes on standard input, and a payload of 4096.
abbrev sample_of : ℕ → Bytes → Bytes
sample_of size payload = 0 ∷ 0 ∷ 0 ∷ 0 ∷ size ∷ 0 ∷ 0 ∷ 0 ∷ payload

replicate : ℕ → Bytes
replicate zero = []
replicate (suc n) = 0 ∷ replicate n

length-replicate : (n : ℕ) → length (replicate n) ≡ n
unfolding replicate
length-replicate zero = refl
length-replicate (suc n) = ap suc (length-replicate n)

take_all : (p : Bytes) (n : ℕ) → length p ≡ n → take n p ≡ p
take_all [] zero e = refl
take_all [] (suc n) e = refl
take_all (b ∷ p) zero e = absurd (omega (arith, e))
take_all (b ∷ p) (suc n) e = ap (◌∷◌ b) (take_all p n (omega (arith, e)))

read_event-sample_of :
    (size : ℕ) (payload : Bytes)
    → length payload ≡ payload_size
    → read_event (sample_of size payload) ≡ some (record { fd = 0; size = size; payload = payload })
unfolding read_event little_endian
read_event-sample_of size payload e =
    elim (Bool-cases (ltb (length (sample_of size payload)) (8 + payload_size))) [
      | inl short ↦ absurd (ground arith)
      | inr enough ↦
          rw (enough, take_all payload payload_size e)
            (ap (λ n. some (record { fd = 0; size = n; payload = payload })) (omega arith))
    ]

-- The object, filled up.
abbrev payload : Bytes
payload = object ++ replicate 4087

length-payload : length payload ≡ 4096
length-payload = grind (lengths, length-replicate 4087)

object_read :
    read_event (sample_of 9 payload) ≡ some (record { fd = 0; size = 9; payload = payload })
object_read = read_event-sample_of 9 payload length-payload

listen-texts_example :
    listen parser (sample 0 (sample_of 9 payload) ∷ []) (running new_streams wire)
    ≡ running
        (record new_streams { in_stream = record { buf = from_opener [] } })
        (each_text parser (codes "IN") (object ∷ []) wire)
unfolding from_opener
listen-texts_example =
    listen-texts parser new_streams wire (([], object) ∷ []) [] refl
      (CarryAll.cons
        (carries (sample_of 9 payload) (record { fd = 0; size = 9; payload = payload }) object_read
          refl (omega (arith, length-payload)))
        CarryAll.nil)
      refl ((refl, object-IsText), tt) IsDrained-nil.0

return-IsLine : IsLine (codes "c\r")
unfolding index_byte
return-IsLine = refl

extract_lines-unlines_example :
    (ks : List Bytes) × AllStripped (codes "c\r" ∷ codes "ab" ∷ []) ks
    × (extract_lines (record { buf = codes "c\r\nab\nd" }) ≡ (ks, record { buf = codes "d" }))
extract_lines-unlines_example =
    extract_lines-unlines (codes "c\r" ∷ codes "ab" ∷ []) (codes "d")
      (return-IsLine, (lines_apart.0, tt)) lines_apart.1.1
