-- ===== src/Transport/Tracer/Sizes.antt =====
-- How much of a call's data an event holds, and what becomes of it on the other order of bytes.
use mcpwatch.Base.{
  lengths, ℕ, zero, suc, true, List, sym, append-nil, ◌+◌, ◌%◌, ◌^◌, ◌<◌, ◌≤◌, ◌≡◌, ◌↔◌, ap, ◌∙◌,
  some, [], ◌∷◌, ◌++◌, Bytes, length, take, drop, ◌==◌, arith,
}
use mcpwatch.Transport.Ebpf.{DataEvent, payload_size, read_event, PerfRecord, sample}
use mcpwatch.Transport.Ebpf.Laws.{Carries, carries}
use mcpwatch.Transport.Tracer.{little, event_bytes, UserMemory, Tracer, pid_of, emit, trace_write}
use mcpwatch.Transport.Tracer.Layout.{IsEvent, take_front, read_event-event_bytes}

-- Reading gives as many bytes as were asked for.
abbrev pub IsMemory : UserMemory → Type 0
IsMemory mem = (buf len : ℕ) → length (mem buf len) ≡ len

-- The buffer of a processor has its full length at all times.
abbrev pub IsFull : Tracer → Type 0
IsFull t = length t.event_buf.payload ≡ payload_size

length-drop {ℓ} :
    {A : Type ℓ} (n : ℕ) (s : List A) → n ≤ length s → n + length (drop n s) ≡ length s
length-drop zero s h = omega arith
length-drop (suc n) [] h = absurd (omega arith)
length-drop (suc n) (x ∷ s) h = omega (arith, length-drop n s (omega arith))

-- What an event leaves in the buffer.
abbrev pub filled : UserMemory → ℕ → ℕ → ℕ → Tracer → DataEvent
filled mem fd len buf t = record {
  fd = fd % 2 ^ 32;
  size = len;
  payload = mem buf len ++ drop len t.event_buf.payload;
}

abbrev pub after : UserMemory → ℕ → ℕ → ℕ → Tracer → Tracer
after mem fd len buf t = record t { event_buf = filled mem fd len buf t }

Carries-of :
    (fd : ℕ) (bytes : Bytes) (e : DataEvent) (p : Bytes)
    → read_event bytes ≡ some e
    → e.fd ≡ fd
    → e.size ≤ length e.payload
    → take e.size e.payload ≡ p
    → Carries fd (sample 0 bytes) p
Carries-of fd bytes e p read from fits same = rw (sym same) (carries bytes e read from fits)

pub ==-self : (a b : ℕ) → a ≡ b → (a == b) ≡ true
==-self a b e = ground arith

module _ (mem : UserMemory) (lawful : IsMemory mem) where
  pub filled-IsEvent :
      (fd len buf : ℕ) (t : Tracer) → IsFull t → len < 4096 → IsEvent (filled mem fd len buf t)
  filled-IsEvent fd len buf t full h = record {
    fd_word = omega arith;
    size_word = omega (arith, h);
    full = grind (
      lengths,
      length-drop len t.event_buf.payload (omega (arith, full, h)),
      lawful buf len,
      full,
    );
  }

  -- The record that is put into the ring carries the bytes that were copied.
  pub filled-Carries :
      (fd len buf : ℕ) (t : Tracer)
      → IsFull t
      → len < 4096
      → fd < 2 ^ 32
      → Carries fd (sample 0 (event_bytes little (filled mem fd len buf t))) (mem buf len)
  filled-Carries fd len buf t full h hf =
      let e = filled mem fd len buf t in
      let v = filled-IsEvent fd len buf t full h in
      Carries-of fd (event_bytes little e) e (mem buf len)
        (ap read_event (sym (append-nil (event_bytes little e))) ∙ read_event-event_bytes e [] v)
        (omega (arith, hf)) (omega (arith, v.full, h))
        (take_front len (mem buf len) (drop len t.event_buf.payload) (lawful buf len))

  -- A write of the target to its standard output is recorded with the remainder of its length by
  -- the size of the payload: whole exactly if it has less than 4096 bytes, and otherwise only a
  -- front part of it, which is empty at 4096 bytes.
  pub trace_write-Carries :
      (id buf count : ℕ) (t : Tracer)
      → IsFull t
      → pid_of id ≡ t.target
      → (t' : Tracer) × (r : PerfRecord) × (trace_write little mem id 1 buf count t ≡ (t', some r))
        × Carries 1 r (mem buf (count % 4096))
        × ((length (mem buf (count % 4096)) ≡ count) ↔ (count < 4096))
        × IsFull t'
  unfolding trace_write emit
  trace_write-Carries id buf count t full target = (
    after mem 1 (count % 4096) buf t,
    sample 0 (event_bytes little (filled mem 1 (count % 4096) buf t)),
    rw (==-self _ _ target),
    filled-Carries 1 (count % 4096) buf t full (omega arith) (omega arith),
    (
      λ e. omega (arith, e, lawful buf (count % 4096)),
      λ h. omega (arith, lawful buf (count % 4096)),
    ),
    (filled-IsEvent 1 (count % 4096) buf t full (omega arith)).full,
  )
