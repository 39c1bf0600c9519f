-- ===== src/Transport/Ebpf.antt =====
-- internal/transport/ebpf_linux.go: the loop over the events of the perf ring, from a record's
-- bytes to the messages.
pub mod Laws
pub mod Attach
use mcpwatch.Base.{
  ℕ, zero, suc, ◌+◌, ◌*◌, ◌/◌, Bool, true, false, Option, none, some, List, [], ◌∷◌, ◌++◌, Bytes,
  codes, length, take, drop, ltb, ◌==◌, if◌then◌else◌,
}
use mcpwatch.Base.Int.{pos}
use mcpwatch.Base.Time.{now, tick}
use mcpwatch.Engine.Message.{stderr, Message}
use mcpwatch.Engine.Parser.{Parser}
use mcpwatch.Transport.StreamBuffer.{StreamBuffer, extract_json, extract_lines}
use mcpwatch.Transport.Wire.{send_stderr, Wire, send, deliver}

abbrev pub ebpf_type : Bytes
ebpf_type = codes "ebpf"

-- `dataEvent`.
pub record DataEvent : Type 0 where
  pub fd : ℕ
  pub size : ℕ
  pub payload : Bytes

abbrev pub payload_size : ℕ
payload_size = 4096

-- A little-endian number of the given bytes.
unfoldable pub little_endian : Bytes → ℕ
little_endian [] = 0
little_endian (b ∷ s) = b + 256 * little_endian s

-- `binary.Read`: an error if the sample is shorter than the struct.
unfoldable pub read_event : Bytes → Option DataEvent
unfolding little_endian
read_event sample =
    if ltb (length sample) (8 + payload_size)
    then none
    else some (record {
      fd = little_endian (take 4 sample);
      size = little_endian (take 4 (drop 4 sample));
      payload = take payload_size (drop 8 sample);
    })

-- What `rd.Read` returns: the reader was closed, another error, or a record with its count of lost
-- samples and its bytes.
pub data PerfRecord : Type 0 where
  closed failed : PerfRecord
  sample : ℕ → Bytes → PerfRecord

pub record Streams : Type 0 where
  pub in_stream : StreamBuffer
  pub out_stream : StreamBuffer
  pub err_stream : StreamBuffer

-- The loop goes on, has returned, or has panicked on a slice beyond the payload.
pub data Outcome : Type 0 where
  running : Streams → Wire → Outcome
  returned : Wire → Outcome
  panicked : Outcome

abbrev pub push : Bytes → StreamBuffer → StreamBuffer
push p s = record s { buf = s.buf ++ p }

-- `NewEBPF`'s buffers.
abbrev pub new_streams : Streams
new_streams = record {
  in_stream = record { buf = [] };
  out_stream = record { buf = [] };
  err_stream = record { buf = [] };
}

unfoldable pub each_line : List Bytes → Wire → Wire
each_line [] w = w
each_line (l ∷ ls) w = each_line ls (send_stderr ebpf_type l w)

module _ (parser : Parser) where
  unfoldable pub each_text : Bytes → List Bytes → Wire → Wire
  each_text direction [] w = w
  each_text direction (t ∷ ts) w = each_text direction ts (deliver parser direction ebpf_type t w)

  -- The chunk of an event goes to the stream of its descriptor.
  unfoldable pub dispatch_chunk : ℕ → Bytes → Streams → Wire → Streams × Wire
  dispatch_chunk fd chunk s w =
      let (in_texts, in_left) = extract_json (push chunk s.in_stream) in
      let (out_texts, out_left) = extract_json (push chunk s.out_stream) in
      let (err_lines, err_left) = extract_lines (push chunk s.err_stream) in
      if fd == 0
      then (record s { in_stream = in_left }, each_text (codes "IN") in_texts w)
      else if fd == 1
      then (record s { out_stream = out_left }, each_text (codes "OUT") out_texts w)
      else if fd == 2
      then (record s { err_stream = err_left }, each_line err_lines w)
      else (s, w)

  unfoldable pub handle_event : DataEvent → Streams → Wire → Outcome
  handle_event e s w =
      let (s', w') = dispatch_chunk e.fd (take e.size e.payload) s w in
      if ltb (length e.payload) e.size then panicked else running s' w'

  unfoldable pub handle_sample : Option DataEvent → Streams → Wire → Outcome
  handle_sample none s w = running s w
  handle_sample (some e) s w = handle_event e s w

  -- One round of the loop.
  unfoldable pub handle_record : PerfRecord → Streams → Wire → Outcome
  unfolding handle_sample handle_event
  handle_record closed s w = returned w
  handle_record failed s w = running s w
  handle_record (sample lost bytes) s w =
      if ltb 0 lost then running s w else handle_sample (read_event bytes) s w

  unfoldable pub listen : List PerfRecord → Outcome → Outcome
  listen [] o = o
  listen (r ∷ rs) (running s w) = listen rs (handle_record r s w)
  listen (r ∷ rs) o = o
