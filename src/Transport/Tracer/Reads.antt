-- ===== src/Transport/Tracer/Reads.antt =====
-- From the target's reads to the messages: the tracer and the loop together.
pub mod Calls
use mcpwatch.Base.{
  false, ℕ, zero, suc, ◌%◌, ◌<◌, ◌≡◌, ◌≢◌, refl, sym, ap, ◌∙◌, true, Option, none, some, List, [],
  ◌∷◌, codes, Bytes, All, arith,
}
use mcpwatch.Base.Int.{ℤ, pos, is_positive}
use mcpwatch.Engine.Parser.{Parser}
use mcpwatch.Transport.Cutter.{joined}
use mcpwatch.Transport.StreamBuffer.{cut_json, from_opener}
use mcpwatch.Transport.StreamBuffer.Complete.{stream, texts, IsFrame}
use mcpwatch.Transport.Ebpf.{PerfRecord, sample, Streams, running, each_text, listen}
use mcpwatch.Transport.Ebpf.Laws.{CarryAll, listen-texts}
use mcpwatch.Transport.Wire.{Wire}
use mcpwatch.Transport.Tracer.{
  little, event_bytes, UserMemory, Tracer, pid_of, masked, lookup_arg, delete_arg, update_arg, emit,
  trace_write, trace_read_enter, exit_from, trace_read_exit, Syscall, writes, read_enters,
  read_exits, trace, trace_all,
}
use mcpwatch.Transport.Tracer.Sizes.{
  IsMemory, IsFull, filled, after, filled-IsEvent, filled-Carries, ==-self,
}
use mcpwatch.Transport.Tracer.Reads.Calls.{
  thread_of, Reads, args_of, IsOwn, trace-other, trace-other_enter, trace-other_write,
  trace-other_exit, trace-enters, exited, trace-returns, trace-nothing_read, IsOwn-of,
}

-- Every read of the target is in the ring, in order.
trace_all-CarryAll :
    (target : ℕ) {open' : Option (ℕ × ℕ)} {cs : List Syscall} {ps : List Bytes} (t : Tracer)
    → t.target ≡ target
    → IsFull t
    → t.read_args ≡ args_of open'
    → IsOwn target open'
    → Reads target open' cs ps
    → CarryAll 0 (trace_all little cs t) ps
unfolding trace_all trace
trace_all-CarryAll target t e full same own Reads.done = CarryAll.nil
trace_all-CarryAll target {open'} t e full same own (Reads.other c {cs} ne rest) =
    rw (trace-other c t open' (λ q. ne (q ∙ e)) same (IsOwn-of t.target target open' e own))
      (trace_all-CarryAll target t e full same own rest)
trace_all-CarryAll target t e full same own (Reads.other_enter id fd buf ne rest) =
    rw (trace-other_enter id fd buf t ne) (trace_all-CarryAll target t e full same own rest)
trace_all-CarryAll target t e full same own (Reads.other_write mem id fd buf count ne ne' rest) =
    rw (trace-other_write mem id fd buf count t ne ne')
      (trace_all-CarryAll target t e full same own rest)
trace_all-CarryAll target {open'} t e full same own (Reads.other_exit mem id ret ne rest) =
    rw (trace-other_exit mem id ret t open' ne same)
      (trace_all-CarryAll target t e full same own rest)
trace_all-CarryAll target t e full same own (Reads.nothing_read mem id buf ret none_read rest) =
    rw (trace-nothing_read mem id buf ret t same none_read)
      (trace_all-CarryAll target (record t { read_args = [] }) e full refl tt rest)
trace_all-CarryAll target t e full same own (Reads.enters id buf {cs} mine rest) =
    rw (trace-enters id buf t (mine ∙ sym e) same)
      (trace_all-CarryAll target (record t { read_args = (id, buf) ∷ [] }) e full refl mine rest)
trace_all-CarryAll target t e full same own
      (Reads.returns mem id buf ret {cs} lawful mine positive small rest) =
    rw (trace-returns mem id buf ret t same positive small) (
      CarryAll.cons (filled-Carries mem lawful 0 ret buf t full small (omega arith)) (
        trace_all-CarryAll target (exited mem ret buf t) e
          (filled-IsEvent mem lawful 0 ret buf t full small).full refl tt rest))

-- On a little-endian machine whose ring loses no record and hands the records on in order, with no
-- read waiting and no bytes of the input in the buffer at first. The target reads its standard input
-- one read at a time, less than 4096 bytes each, and writes nothing to its standard output and error
-- meanwhile. Then every text of its input is delivered, once and in order, however the reads cut it,
-- whatever other processes call in between, and with failed reads and calls on other descriptors
-- among them; an unfinished text waits in its buffer.
pub listen-trace_all :
    (parser : Parser) (t : Tracer) (cs : List Syscall) (ps : List Bytes) (s : Streams) (w : Wire)
    (fs : List (Bytes × Bytes)) (rest : Bytes)
    → IsFull t
    → t.read_args ≡ []
    → Reads t.target none cs ps
    → s.in_stream.buf ≡ []
    → joined ps ≡ stream fs rest
    → All IsFrame fs
    → cut_json rest ≡ none
    → listen parser (trace_all little cs t) (running s w)
      ≡ running
          (record s { in_stream = record { buf = from_opener rest } })
          (each_text parser (codes "IN") (texts fs) w)
listen-trace_all parser t cs ps s w fs rest full same reads empty j hf hr =
    listen-texts parser s w fs rest empty (trace_all-CarryAll t.target t refl full same tt reads) j
      hf hr
