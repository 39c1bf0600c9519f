-- ===== src/Transport/Tracer.antt =====
-- internal/transport/bpf/tracer.c: the three programs that run at system calls of the traced
-- process, and the events that they put into the perf ring. Debug output is not modelled.
mod Tests
pub mod Layout
pub mod Sizes
pub mod Reads
pub mod Foreign
pub mod Safe
use mcpwatch.Base.{
  ℕ, zero, suc, ◌+◌, ◌*◌, ◌/◌, ◌%◌, ◌^◌, Bool, true, false, not, ◌&&◌, ◌||◌, Option, none, some,
  List, [], ◌∷◌, ◌++◌, Bytes, length, drop, ltb, ◌==◌, if◌then◌else◌,
}
use mcpwatch.Base.Int.{ℤ, pos_part, is_positive}
use mcpwatch.Transport.Ebpf.{DataEvent, PerfRecord, sample}

-- The order of the bytes of a word on the machine.
pub data Endian : Type 0 where
  little big : Endian

-- A `__u32` in memory.
unfoldable pub word_bytes : Endian → ℕ → Bytes
word_bytes little n = n % 256 ∷ n / 256 % 256 ∷ n / 65_536 % 256 ∷ n / 16_777_216 % 256 ∷ []
word_bytes big n = n / 16_777_216 % 256 ∷ n / 65_536 % 256 ∷ n / 256 % 256 ∷ n % 256 ∷ []

-- `struct data_event` in memory: two words and the payload.
unfoldable pub event_bytes : Endian → DataEvent → Bytes
unfolding word_bytes
event_bytes en e = word_bytes en e.fd ++ (word_bytes en e.size ++ e.payload)

-- What `bpf_probe_read_user` copies: the bytes at an address of the process, so many of them; zeros
-- where they cannot be read.
abbrev pub UserMemory : Type 0
UserMemory = ℕ → ℕ → Bytes

-- The target of `config_pid`, the buffer of this processor in `event_buf_map`, and `read_args`.
pub record Tracer : Type 0 where
  pub target : ℕ
  pub event_buf : DataEvent
  pub read_args : List (ℕ × ℕ)

abbrev pub max_entries : ℕ
max_entries = 1024

-- `bpf_map_lookup_elem`, `bpf_map_delete_elem` and `bpf_map_update_elem` on `read_args`; a map that
-- is full takes no new key.
unfoldable pub lookup_arg : ℕ → List (ℕ × ℕ) → Option ℕ
lookup_arg id [] = none
lookup_arg id ((j, buf) ∷ args) = if j == id then some buf else lookup_arg id args

unfoldable pub delete_arg : ℕ → List (ℕ × ℕ) → List (ℕ × ℕ)
delete_arg id [] = []
delete_arg id ((j, buf) ∷ args) =
    if j == id then delete_arg id args else (j, buf) ∷ delete_arg id args

unfoldable pub update_arg : ℕ → ℕ → List (ℕ × ℕ) → List (ℕ × ℕ)
unfolding lookup_arg delete_arg
update_arg id buf args = elim (lookup_arg id args) [
  | some old ↦ (id, buf) ∷ delete_arg id args
  | none ↦ if ltb (length args) max_entries then (id, buf) ∷ args else args
]

-- `id >> 32`.
abbrev pub pid_of : ℕ → ℕ
pid_of id = id / 2 ^ 32

-- The buffer is filled with `len` bytes at `buf` and put into the ring. What it held beyond them
-- stays.
unfoldable pub emit : Endian → UserMemory → ℕ → ℕ → ℕ → Tracer → Tracer × Option PerfRecord
unfolding event_bytes
emit en mem fd len buf t =
    let e : DataEvent = record {
      fd = fd % 2 ^ 32;
      size = len;
      payload = mem buf len ++ drop len t.event_buf.payload;
    } in
    (record t { event_buf = e }, some (sample 0 (event_bytes en e)))

-- `len &= 4095`.
abbrev pub masked : ℕ → ℕ
masked count = count % 4096

-- `trace_write`.
unfoldable pub trace_write :
    Endian → UserMemory → ℕ → ℕ → ℕ → ℕ → Tracer → Tracer × Option PerfRecord
unfolding emit
trace_write en mem id fd buf count t =
    if not (pid_of id == t.target)
    then (t, none)
    else if not (fd == 1) && not (fd == 2)
    then (t, none)
    else emit en mem fd (masked count) buf t

-- `trace_read_enter`.
unfoldable pub trace_read_enter : ℕ → ℕ → ℕ → Tracer → Tracer
unfolding update_arg
trace_read_enter id fd buf t =
    if not (pid_of id == t.target)
    then t
    else if not (fd == 0)
    then t
    else record t { read_args = update_arg id buf t.read_args }

-- `trace_read_exit` from the entry of the thread on.
unfoldable pub exit_from :
    Endian → UserMemory → Option ℕ → ℕ → ℤ → Tracer → Tracer × Option PerfRecord
unfolding emit delete_arg
exit_from en mem none id ret t = (t, none)
exit_from en mem (some buf) id ret t =
    let left = record t { read_args = delete_arg id t.read_args } in
    if is_positive ret then emit en mem 0 (masked (pos_part ret)) buf left else (left, none)

-- `trace_read_exit`.
unfoldable pub trace_read_exit : Endian → UserMemory → ℕ → ℤ → Tracer → Tracer × Option PerfRecord
unfolding exit_from lookup_arg
trace_read_exit en mem id ret t = exit_from en mem (lookup_arg id t.read_args) id ret t

-- The calls, each with its thread, and with the memory at its time where that is read.
pub data Syscall : Type 0 where
  writes : UserMemory → ℕ → ℕ → ℕ → ℕ → Syscall
  read_enters : ℕ → ℕ → ℕ → Syscall
  read_exits : UserMemory → ℕ → ℤ → Syscall

unfoldable pub trace : Endian → Syscall → Tracer → Tracer × Option PerfRecord
unfolding trace_write trace_read_enter trace_read_exit
trace en (writes mem id fd buf count) t = trace_write en mem id fd buf count t
trace en (read_enters id fd buf) t = (trace_read_enter id fd buf t, none)
trace en (read_exits mem id ret) t = trace_read_exit en mem id ret t

abbrev pub emitted : Option PerfRecord → List PerfRecord → List PerfRecord
emitted none rs = rs
emitted (some r) rs = r ∷ rs

-- The records that a history of calls hands to the ring, in order. What the ring loses of them, and in
-- which order the reader gets those of different processors, is the kernel's.
unfoldable pub trace_all : Endian → List Syscall → Tracer → List PerfRecord
unfolding trace
trace_all en [] t = []
trace_all en (c ∷ cs) t = let (t', r) = trace en c t in emitted r (trace_all en cs t')
