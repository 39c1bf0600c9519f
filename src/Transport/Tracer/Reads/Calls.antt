-- ===== src/Transport/Tracer/Reads/Calls.antt =====
-- internal/transport/bpf/tracer.c: what the tracer does with each call while the target reads.
use mcpwatch.Base.{
  false, ℕ, zero, suc, ◌%◌, ◌<◌, ◌≡◌, ◌≢◌, refl, sym, ap, ◌∙◌, true, Option, none, some, List, [],
  ◌∷◌, Bytes, arith,
}
use mcpwatch.Base.Int.{ℤ, pos, is_positive}
use mcpwatch.Transport.Ebpf.{PerfRecord, sample}
use mcpwatch.Transport.Tracer.{
  little, event_bytes, UserMemory, Tracer, pid_of, masked, lookup_arg, delete_arg, update_arg, emit,
  trace_write, trace_read_enter, exit_from, trace_read_exit, Syscall, writes, read_enters,
  read_exits, trace,
}
use mcpwatch.Transport.Tracer.Sizes.{IsMemory, filled, after, ==-self}

abbrev pub thread_of : Syscall → ℕ
thread_of (writes mem id fd buf count) = id
thread_of (read_enters id fd buf) = id
thread_of (read_exits mem id ret) = id

-- The thread's read that has entered is not this one, or none has.
abbrev pub IsAnother : ℕ → Option (ℕ × ℕ) → Type 0
IsAnother id none = Unit
IsAnother id (some (j, buf)) = j ≢ id

-- Calls in which the process `target` reads the chunks from its standard input, one read at a time;
-- a read that finds the end of the input or fails gives no chunk. In between there are any calls of
-- other processes, and calls of the target's own on descriptors that are not standard ones. The first
-- argument is the read that has entered and not returned.
pub data Reads (target : ℕ) : Option (ℕ × ℕ) → List Syscall → List Bytes → Type 0 where
  done : Reads target none [] []
  other :
      {open' : Option (ℕ × ℕ)} (c : Syscall) {cs : List Syscall} {ps : List Bytes}
      → pid_of (thread_of c) ≢ target
      → Reads target open' cs ps
      → Reads target open' (c ∷ cs) ps
  other_enter :
      {open' : Option (ℕ × ℕ)} (id fd buf : ℕ) {cs : List Syscall} {ps : List Bytes}
      → fd ≢ 0
      → Reads target open' cs ps
      → Reads target open' (read_enters id fd buf ∷ cs) ps
  other_exit :
      {open' : Option (ℕ × ℕ)} (mem : UserMemory) (id : ℕ) (ret : ℤ) {cs : List Syscall}
      {ps : List Bytes}
      → IsAnother id open'
      → Reads target open' cs ps
      → Reads target open' (read_exits mem id ret ∷ cs) ps
  other_write :
      {open' : Option (ℕ × ℕ)} (mem : UserMemory) (id fd buf count : ℕ) {cs : List Syscall}
      {ps : List Bytes}
      → fd ≢ 1
      → fd ≢ 2
      → Reads target open' cs ps
      → Reads target open' (writes mem id fd buf count ∷ cs) ps
  nothing_read :
      (mem : UserMemory) (id buf : ℕ) (ret : ℤ) {cs : List Syscall} {ps : List Bytes}
      → is_positive ret ≡ false
      → Reads target none cs ps
      → Reads target (some (id, buf)) (read_exits mem id ret ∷ cs) ps
  enters :
      (id buf : ℕ) {cs : List Syscall} {ps : List Bytes}
      → pid_of id ≡ target
      → Reads target (some (id, buf)) cs ps
      → Reads target none (read_enters id 0 buf ∷ cs) ps
  returns :
      (mem : UserMemory) (id buf ret : ℕ) {cs : List Syscall} {ps : List Bytes}
      → IsMemory mem
      → pid_of id ≡ target
      → 0 < ret
      → ret < 4096
      → Reads target none cs ps
      → Reads target (some (id, buf)) (read_exits mem id (pos ret) ∷ cs) (mem buf ret ∷ ps)

abbrev pub args_of : Option (ℕ × ℕ) → List (ℕ × ℕ)
args_of none = []
args_of (some a) = a ∷ []

-- The read that has entered is the target's.
abbrev pub IsOwn : ℕ → Option (ℕ × ℕ) → Type 0
IsOwn target none = Unit
IsOwn target (some (id, buf)) = pid_of id ≡ target

pub lookup_arg-other :
    (id target : ℕ) (open' : Option (ℕ × ℕ))
    → pid_of id ≢ target
    → IsOwn target open'
    → lookup_arg id (args_of open') ≡ none
unfolding lookup_arg
lookup_arg-other id target none ne own = refl
lookup_arg-other id target (some (j, buf)) ne own = ground (arith, own)

pub trace-other :
    (c : Syscall) (t : Tracer) (open' : Option (ℕ × ℕ))
    → pid_of (thread_of c) ≢ t.target
    → t.read_args ≡ args_of open'
    → IsOwn t.target open'
    → trace little c t ≡ (t, none)
unfolding trace trace_write trace_read_enter trace_read_exit
trace-other (writes mem id fd buf count) t open' ne same own = ground arith
trace-other (read_enters id fd buf) t open' ne same own = ground arith
trace-other (read_exits mem id ret) t open' ne same own =
    ap (λ o. exit_from little mem o id ret t)
      (ap (lookup_arg id) same ∙ lookup_arg-other id t.target open' ne own)
    ∙ unfold exit_from in refl

pub trace-other_enter : (id fd buf : ℕ) (t : Tracer) → fd ≢ 0 → trace_read_enter id fd buf t ≡ t
unfolding trace_read_enter
trace-other_enter id fd buf t ne = ground arith

pub trace-other_write :
    (mem : UserMemory) (id fd buf count : ℕ) (t : Tracer)
    → fd ≢ 1
    → fd ≢ 2
    → trace_write little mem id fd buf count t ≡ (t, none)
unfolding trace_write
trace-other_write mem id fd buf count t ne ne' = ground arith

lookup_arg-another :
    (id : ℕ) (open' : Option (ℕ × ℕ)) → IsAnother id open' → lookup_arg id (args_of open') ≡ none
unfolding lookup_arg
lookup_arg-another id none ne = refl
lookup_arg-another id (some (j, buf)) ne = ground arith

pub trace-other_exit :
    (mem : UserMemory) (id : ℕ) (ret : ℤ) (t : Tracer) (open' : Option (ℕ × ℕ))
    → IsAnother id open'
    → t.read_args ≡ args_of open'
    → trace_read_exit little mem id ret t ≡ (t, none)
unfolding trace_read_exit
trace-other_exit mem id ret t open' ne same =
    ap (λ o. exit_from little mem o id ret t)
      (ap (lookup_arg id) same ∙ lookup_arg-another id open' ne)
    ∙ unfold exit_from in refl

pub trace-enters :
    (id buf : ℕ) (t : Tracer)
    → pid_of id ≡ t.target
    → t.read_args ≡ []
    → trace_read_enter id 0 buf t ≡ record t { read_args = (id, buf) ∷ [] }
unfolding trace_read_enter
trace-enters id buf t own empty =
    ground (arith, ap (update_arg id buf) empty ∙ unfold update_arg lookup_arg in refl)

abbrev pub exited : UserMemory → ℕ → ℕ → Tracer → Tracer
exited mem ret buf t = record t { event_buf = filled mem 0 ret buf t; read_args = [] }

lookup_arg-head : (id buf : ℕ) → lookup_arg id ((id, buf) ∷ []) ≡ some buf
unfolding lookup_arg
lookup_arg-head id buf = rw (==-self id id refl)

delete_arg-only : (id buf : ℕ) → delete_arg id ((id, buf) ∷ []) ≡ []
unfolding delete_arg
delete_arg-only id buf = rw (==-self id id refl)

is_positive-pos : (n : ℕ) → 0 < n → is_positive (pos n) ≡ true
is_positive-pos zero h = absurd (omega arith)
is_positive-pos (suc n) h = refl

emit-zero :
    (mem : UserMemory) (buf ret : ℕ) (t : Tracer)
    → ret < 4096
    → emit little mem 0 (masked ret) buf t
      ≡ (after mem 0 ret buf t, some (sample 0 (event_bytes little (filled mem 0 ret buf t))))
unfolding emit
emit-zero mem buf ret t small =
    let whole : ret % 4096 ≡ ret = omega (arith, small) in
    ap (λ n. (after mem 0 n buf t, some (sample 0 (event_bytes little (filled mem 0 n buf t)))))
      whole

pub trace-returns :
    (mem : UserMemory) (id buf ret : ℕ) (t : Tracer)
    → t.read_args ≡ (id, buf) ∷ []
    → 0 < ret
    → ret < 4096
    → trace_read_exit little mem id (pos ret) t
      ≡ (exited mem ret buf t, some (sample 0 (event_bytes little (filled mem 0 ret buf t))))
unfolding trace_read_exit exit_from
trace-returns mem id buf ret t same positive small =
    let left = λ (args : List (ℕ × ℕ)). record t { read_args = args } in
    ap (λ o. exit_from little mem o id (pos ret) t)
      (ap (lookup_arg id) same ∙ lookup_arg-head id buf)
    ∙ rw (is_positive-pos ret positive) (
        ap (λ args. emit little mem 0 (masked ret) buf (left args))
          (ap (delete_arg id) same ∙ delete_arg-only id buf)
        ∙ emit-zero mem buf ret (left []) small)

pub trace-nothing_read :
    (mem : UserMemory) (id buf : ℕ) (ret : ℤ) (t : Tracer)
    → t.read_args ≡ (id, buf) ∷ []
    → is_positive ret ≡ false
    → trace_read_exit little mem id ret t ≡ (record t { read_args = [] }, none)
unfolding trace_read_exit exit_from
trace-nothing_read mem id buf ret t same none_read =
    let left = λ (args : List (ℕ × ℕ)). record t { read_args = args } in
    ap (λ o. exit_from little mem o id ret t) (ap (lookup_arg id) same ∙ lookup_arg-head id buf)
    ∙ rw none_read (
        ap {B = Tracer × Option PerfRecord} (λ args. (left args, none))
          (ap (delete_arg id) same ∙ delete_arg-only id buf))

pub IsOwn-of : (a b : ℕ) (open' : Option (ℕ × ℕ)) → a ≡ b → IsOwn b open' → IsOwn a open'
IsOwn-of a b none e own = tt
IsOwn-of a b (some (id, buf)) e own = own ∙ sym e
