-- ===== src/Transport/Tracer/Safe.antt =====
-- Whatever system calls there are, the loop of `Start` can take their events.
use mcpwatch.Base.{
  ℕ, ◌<◌, ◌≡◌, ◌≢◌, sym, ap, ◌∙◌, inl, inr, Bool-cases, not, ◌&&◌, Option, none, some, List, [],
  ◌∷◌, append-nil, All, ◌==◌, arith,
}
use mcpwatch.Base.Int.{ℤ, pos_part, is_positive}
use mcpwatch.Engine.Parser.{Parser}
use mcpwatch.Transport.Ebpf.{
  DataEvent, read_event, PerfRecord, sample, Streams, running, panicked, listen,
}
use mcpwatch.Transport.Ebpf.Laws.{Fits, listen-ne-panicked}
use mcpwatch.Transport.Tracer.{
  little, event_bytes, UserMemory, Tracer, pid_of, masked, lookup_arg, delete_arg, emit,
  trace_write, trace_read_enter, exit_from, trace_read_exit, Syscall, writes, read_enters,
  read_exits, trace, emitted, trace_all,
}
use mcpwatch.Transport.Tracer.Layout.{IsEvent, read_event-event_bytes}
use mcpwatch.Transport.Tracer.Sizes.{IsMemory, IsFull, filled, filled-IsEvent}
use mcpwatch.Transport.Wire.{Wire}

-- The memory that a call reads gives as many bytes as were asked for.
abbrev pub IsLawful : Syscall → Type 0
IsLawful (writes mem id fd buf count) = IsMemory mem
IsLawful (read_enters id fd buf) = Unit
IsLawful (read_exits mem id ret) = IsMemory mem

event_bytes-Fits :
    (e : DataEvent) → IsEvent e → e.size < 4096 → Fits (sample 0 (event_bytes little e))
event_bytes-Fits e v small e' read =
    let got : some e ≡ some e' =
      sym (read_event-event_bytes e [] v)
      ∙ ap read_event (append-nil (event_bytes little e))
      ∙ read in
    let same : e ≡ e' = ap (λ o. elim o [ none ↦ e | some x ↦ x ]) got in
    rw (sym same) (omega (arith, v.full, small))

abbrev FitsIfAny : Option PerfRecord → Type 0
FitsIfAny none = Unit
FitsIfAny (some r) = Fits r

-- What a program of the tracer returns.
abbrev IsSafe : Tracer × Option PerfRecord → Type 0
IsSafe r = IsFull r.0 × FitsIfAny r.1

emit-IsSafe :
    (mem : UserMemory) (fd len buf : ℕ) (t : Tracer)
    → IsMemory mem
    → IsFull t
    → len < 4096
    → IsSafe (emit little mem fd len buf t)
unfolding emit
emit-IsSafe mem fd len buf t lawful full small =
    let v = filled-IsEvent mem lawful fd len buf t full small in
    (v.full, event_bytes-Fits (filled mem fd len buf t) v small)

trace_write-IsSafe :
    (mem : UserMemory) (id fd buf count : ℕ) (t : Tracer)
    → IsMemory mem
    → IsFull t
    → IsSafe (trace_write little mem id fd buf count t)
unfolding trace_write
trace_write-IsSafe mem id fd buf count t lawful full =
    let sent = emit-IsSafe mem fd (masked count) buf t lawful full (omega arith) in
    elim (Bool-cases (pid_of id == t.target)) [
      | inl own ↦ elim (Bool-cases (not (fd == 1) && not (fd == 2))) [
        | inl skip ↦ rw (own, skip) (full, tt)
        | inr out ↦ rw (own, out) sent
      ]
      | inr other ↦ rw other (full, tt)
    ]

trace_read_enter-IsFull :
    (id fd buf : ℕ) (t : Tracer) → IsFull t → IsFull (trace_read_enter id fd buf t)
unfolding trace_read_enter
trace_read_enter-IsFull id fd buf t full = elim (Bool-cases (pid_of id == t.target)) [
  | inl own ↦ elim (Bool-cases (fd == 0)) [
    | inl in' ↦ rw (own, in') full
    | inr out ↦ rw (own, out) full
  ]
  | inr other ↦ rw other full
]

exit_from-IsSafe :
    (mem : UserMemory) (o : Option ℕ) (id : ℕ) (ret : ℤ) (t : Tracer)
    → IsMemory mem
    → IsFull t
    → IsSafe (exit_from little mem o id ret t)
unfolding exit_from
exit_from-IsSafe mem none id ret t lawful full = (full, tt)
exit_from-IsSafe mem (some buf) id ret t lawful full =
    let left = record t { read_args = delete_arg id t.read_args } in
    let sent = emit-IsSafe mem 0 (masked (pos_part ret)) buf left lawful full (omega arith) in
    elim (Bool-cases (is_positive ret)) [
      | inl some_read ↦ rw some_read sent
      | inr none_read ↦ rw none_read (full, tt)
    ]

trace-IsSafe : (c : Syscall) (t : Tracer) → IsLawful c → IsFull t → IsSafe (trace little c t)
unfolding trace trace_read_exit
trace-IsSafe (writes mem id fd buf count) t lawful full =
    trace_write-IsSafe mem id fd buf count t lawful full
trace-IsSafe (read_enters id fd buf) t lawful full = (trace_read_enter-IsFull id fd buf t full, tt)
trace-IsSafe (read_exits mem id ret) t lawful full =
    exit_from-IsSafe mem (lookup_arg id t.read_args) id ret t lawful full

emitted-Fits :
    (o : Option PerfRecord) (rs : List PerfRecord)
    → FitsIfAny o
    → All Fits rs
    → All Fits (emitted o rs)
emitted-Fits none rs fits rest = rest
emitted-Fits (some r) rs fits rest = (fits, rest)

trace_all-Fits :
    (cs : List Syscall) (t : Tracer) → All IsLawful cs → IsFull t → All Fits (trace_all little cs t)
unfolding trace_all
trace_all-Fits [] t lawful full = tt
trace_all-Fits (c ∷ cs) t lawful full =
    let (full', fits) = trace-IsSafe c t lawful.0 full in
    let rest = trace_all-Fits cs (trace little c t).0 lawful.1 full' in
    emitted-Fits (trace little c t).1 (trace_all little cs (trace little c t).0) fits rest

-- On a little-endian machine no history of system calls, of whatever processes, sizes and results,
-- makes the loop panic.
pub listen-trace_all-ne-panicked :
    (parser : Parser) (t : Tracer) (cs : List Syscall) (s : Streams) (w : Wire)
    → IsFull t
    → All IsLawful cs
    → listen parser (trace_all little cs t) (running s w) ≢ panicked
listen-trace_all-ne-panicked parser t cs s w full lawful =
    listen-ne-panicked parser (trace_all little cs t) (running s w)
      (trace_all-Fits cs t lawful full) (λ e. cc)
