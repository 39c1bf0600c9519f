-- ===== src/Transport/Tracer/Tests.antt =====
-- Runs of the tracer, and the theorems at concrete inputs.
use mcpwatch.Base.{
  All, ◌≢◌, ℕ, zero, suc, ◌+◌, ◌*◌, ◌^◌, ◌<◌, ◌≡◌, ◌↔◌, refl, ap, some, none, List, [], ◌∷◌, ◌++◌,
  Bytes, codes, length, arith,
}
use mcpwatch.Base.Int.{pos, negsuc}
use mcpwatch.Engine.Message.{notification}
use mcpwatch.Engine.Parser.{Parser}
use mcpwatch.Transport.Ebpf.{
  DataEvent, read_event, PerfRecord, sample, new_streams, running, panicked, each_text, listen,
}
use mcpwatch.Transport.Ebpf.Laws.{Carries}
use mcpwatch.Transport.StreamBuffer.{is_opener, is_closer, from_opener}
use mcpwatch.Transport.StreamBuffer.Balanced.{Quoted, Body, IsText, text}
use mcpwatch.Transport.StreamBuffer.Complete.{IsFrame, IsDrained-nil}
use mcpwatch.Transport.Wire.{Wire}
use mcpwatch.Transport.Tracer.{
  little, big, word_bytes, event_bytes, UserMemory, Tracer, trace_write, Syscall, writes,
  read_enters, read_exits, trace_all,
}
use mcpwatch.Transport.Tracer.Layout.{IsEvent, read_event-event_bytes}
use mcpwatch.Transport.Tracer.Sizes.{IsMemory, IsFull, trace_write-Carries}
use mcpwatch.Transport.Tracer.Foreign.{listen-big}
use mcpwatch.Transport.Tracer.Safe.{IsLawful, listen-trace_all-ne-panicked}
use mcpwatch.Transport.Tracer.Reads.{listen-trace_all}
use mcpwatch.Transport.Tracer.Reads.Calls.{Reads}

-- So many bytes of a text, and zeros behind it.
fill : ℕ → Bytes → Bytes
fill zero s = []
fill (suc n) [] = 0 ∷ fill n []
fill (suc n) (b ∷ s) = b ∷ fill n s

length-fill : (n : ℕ) (s : Bytes) → length (fill n s) ≡ n
unfolding fill
length-fill zero s = refl
length-fill (suc n) [] = ap suc (length-fill n [])
length-fill (suc n) (b ∷ s) = ap suc (length-fill n s)

abbrev object : Bytes
object = codes "{\"a\":1}"

memory : UserMemory
memory buf len = fill len object

memory-IsMemory : IsMemory memory
unfolding memory
memory-IsMemory buf len = length-fill len object

abbrev event : DataEvent
event = record { fd = 1; size = 300; payload = fill 4096 object }

event-IsEvent : IsEvent event
event-IsEvent = record {
  fd_word = omega arith;
  size_word = omega arith;
  full = length-fill 4096 object;
}

read_event-event_bytes_example :
    read_event (event_bytes little event ++ 0 ∷ 0 ∷ 0 ∷ 0 ∷ []) ≡ some event
read_event-event_bytes_example = read_event-event_bytes event (0 ∷ 0 ∷ 0 ∷ 0 ∷ []) event-IsEvent

size_on_big : word_bytes big 300 ≡ 0 ∷ 0 ∷ 1 ∷ 44 ∷ []
unfolding word_bytes
size_on_big = refl

-- A parser that accepts every text.
abbrev parser : Parser
parser = record {
  parse = λ clock raw direction transport. (
    some (record {
      id = 0;
      timestamp = 0;
      transport = transport;
      direction = direction;
      msg_type = notification;
      method = [];
      jsonrpc_id = [];
      params = [];
      result = [];
      error_data = [];
      latency_ms = pos 0;
      size_bytes = length raw;
      token_estimate = 0;
      error_code = [];
      raw = raw;
    }),
    clock,
  );
}

abbrev wire : Wire
wire = record {
  messages = record { capacity = 4; items = [] };
  clock = record { at = λ i. 10 * i; reads = 0 };
}

listen-big_example :
    listen parser (sample 0 (event_bytes big event ++ []) ∷ []) (running new_streams wire)
    ≡ panicked
listen-big_example =
    listen-big parser event [] [] new_streams wire event-IsEvent (omega arith) (omega arith)

-- Thread 8 of process 7.
abbrev thread : ℕ
thread = 7 * 2 ^ 32 + 8

abbrev tracer : Tracer
tracer = record {
  target = 7;
  event_buf = record { fd = 0; size = 0; payload = fill 4096 [] };
  read_args = [];
}

trace_write-Carries_example :
    (t' : Tracer) × (r : PerfRecord) × (trace_write little memory thread 1 100 4100 tracer
      ≡ (t', some r))
    × Carries 1 r (memory 100 4)
    × ((length (memory 100 4) ≡ 4100) ↔ (4100 < 4096))
    × IsFull t'
trace_write-Carries_example =
    trace_write-Carries memory memory-IsMemory thread 100 4100 tracer (length-fill 4096 []) refl

-- A read of the target with a write of another process inside it, after one that fails.
abbrev calls : List Syscall
calls =
    read_enters thread 0 100
    ∷ read_exits memory thread (negsuc 10)
    ∷ read_enters thread 0 100
    ∷ writes memory 3 1 50 9
    ∷ read_exits memory thread (pos 7)
    ∷ []

calls-Reads : Reads 7 none calls (memory 100 7 ∷ [])
calls-Reads = Reads.enters thread 100 refl (
    Reads.nothing_read memory thread 100 (negsuc 10) refl (
      Reads.enters thread 100 refl (
        Reads.other (writes memory 3 1 50 9) (λ e. omega (arith, e))
          (Reads.returns memory thread 100 7 memory-IsMemory refl (omega arith) (omega arith)
            Reads.done))))

object-IsText : IsText object
unfolding is_opener is_closer
object-IsText =
    text b'}' refl
      (Body.quote {q = codes "a"} (Quoted.byte refl Quoted.nil)
        (Body.byte refl (Body.byte refl Body.nil)))
      refl

object-IsFrame : IsFrame ([], object)
unfolding from_opener
object-IsFrame = (refl, object-IsText)

listen-trace_all_example :
    listen parser (trace_all little calls tracer) (running new_streams wire)
    ≡ running
        (record new_streams { in_stream = record { buf = from_opener [] } })
        (each_text parser (codes "IN") (object ∷ []) wire)
unfolding memory fill
listen-trace_all_example =
    listen-trace_all parser tracer calls (memory 100 7 ∷ []) new_streams wire (([], object) ∷ []) []
      (length-fill 4096 []) refl calls-Reads refl refl (object-IsFrame, tt) IsDrained-nil.0

calls-IsLawful : All IsLawful (calls ++ writes memory thread 2 100 4096 ∷ [])
calls-IsLawful =
    (tt, (memory-IsMemory, (tt, (memory-IsMemory, (memory-IsMemory, (memory-IsMemory, tt))))))

listen-trace_all-ne-panicked_example :
    listen parser
      (trace_all little (calls ++ writes memory thread 2 100 4096 ∷ []) tracer)
      (running new_streams wire)
    ≢ panicked
listen-trace_all-ne-panicked_example =
    listen-trace_all-ne-panicked parser tracer (calls ++ writes memory thread 2 100 4096 ∷ [])
      new_streams wire (length-fill 4096 []) calls-IsLawful
