-- ===== src/Transport/Ebpf/Laws.antt =====
-- What the loop delivers from the chunks of standard input, and that it does not panic.
use mcpwatch.Base.{
  ℕ, ◌≤◌, ◌≡◌, ◌≢◌, refl, sym, ap, ◌∙◌, inl, inr, Bool-cases, List, [], ◌∷◌, ◌++◌, none, some,
  Option-cases, Bytes, codes, length, take, All, ltb, arith,
}
use mcpwatch.Engine.Parser.{Parser}
use mcpwatch.Transport.Cutter.{drain, drain_chunks, drain_chunks-drain, drain-map, joined}
use mcpwatch.Transport.StreamBuffer.{json_cutter, append, from_opener, cut_json, extract_json}
use mcpwatch.Transport.StreamBuffer.Laws.{json_cutter-IsCutter}
use mcpwatch.Transport.StreamBuffer.Complete.{stream, texts, IsFrame, drain-stream, IsDrained-nil}
use mcpwatch.Transport.Ebpf.{
  ebpf_type, DataEvent, read_event, PerfRecord, closed, failed, sample, Streams, Outcome, running,
  returned, panicked, each_text, dispatch_chunk, handle_event, handle_record, handle_sample, listen,
}
use mcpwatch.Transport.Wire.{Wire, deliver}

-- A record whose event, if it has one, has a size within its payload.
abbrev pub Fits : PerfRecord → Type 0
Fits (sample lost bytes) = (e : DataEvent) → read_event bytes ≡ some e → e.size ≤ length e.payload
Fits _ = Unit

-- The record carries `chunk` from descriptor `fd`.
pub data Carries (fd : ℕ) : PerfRecord → Bytes → Type 0 where
  carries :
      (bytes : Bytes) (e : DataEvent)
      → read_event bytes ≡ some e
      → e.fd ≡ fd
      → e.size ≤ length e.payload
      → Carries fd (sample 0 bytes) (take e.size e.payload)

pub data CarryAll (fd : ℕ) : List PerfRecord → List Bytes → Type 0 where
  nil : CarryAll fd [] []
  cons :
      {r : PerfRecord} {p : Bytes} {rs : List PerfRecord} {ps : List Bytes}
      → Carries fd r p
      → CarryAll fd rs ps
      → CarryAll fd (r ∷ rs) (p ∷ ps)

module _ (parser : Parser) where
  handle_record-ne-panicked :
      (r : PerfRecord) (s : Streams) (w : Wire) → Fits r → handle_record parser r s w ≢ panicked
  unfolding handle_record
  handle_record-ne-panicked closed s w h = λ e. cc
  handle_record-ne-panicked failed s w h = λ e. cc
  handle_record-ne-panicked (sample lost bytes) s w h = elim (Option-cases (read_event bytes)) [
    | inl e ↦ λ p. ground arith
    | inr (ev, e) ↦ λ p. ground (arith, h ev e)
  ]

  -- The loop slices no payload beyond its end if the sizes of the events are within it.
  pub listen-ne-panicked :
      (rs : List PerfRecord) (o : Outcome)
      → All Fits rs
      → o ≢ panicked
      → listen parser rs o ≢ panicked
  unfolding listen
  listen-ne-panicked [] o h ne = ne
  listen-ne-panicked (r ∷ rs) (running s w) h ne =
      listen-ne-panicked rs _ h.1 (handle_record-ne-panicked r s w h.0)
  listen-ne-panicked (r ∷ rs) (returned w) h ne = ne
  listen-ne-panicked (r ∷ rs) panicked h ne = absurd (ne refl)

  each_text-append :
      (d t : Bytes) (ts : List Bytes) (w : Wire)
      → each_text parser d (append t ts) w ≡ deliver parser d ebpf_type t (each_text parser d ts w)
  unfolding each_text
  each_text-append d t [] w = refl
  each_text-append d t (u ∷ ts) w = each_text-append d t ts (deliver parser d ebpf_type u w)

  -- Cutting texts out and then delivering them is delivering them as they are cut out.
  extract-deliver :
      (d buf : Bytes) (w : Wire)
      → (let (ts, left) = extract_json (record { buf = buf }) in
          (left.buf, each_text parser d ts w))
        ≡ drain json_cutter (deliver parser d ebpf_type) buf w
  unfolding extract_json each_text
  extract-deliver d buf w = sym (
      drain-map json_cutter append (deliver parser d ebpf_type) (λ ts. each_text parser d ts w)
        (λ t ts. each_text-append d t ts w) buf [])

  -- The delivery of the texts of standard input.
  abbrev pub input : Bytes → Wire → Wire
  input = deliver parser (codes "IN") ebpf_type

  abbrev pub with_input : Streams → Bytes × Wire → Streams × Wire
  with_input s (left, w) = (record s { in_stream = record { buf = left } }, w)

  dispatch_chunk-in :
      (p : Bytes) (s : Streams) (w : Wire)
      → dispatch_chunk parser 0 p s w
        ≡ with_input s (drain json_cutter input (s.in_stream.buf ++ p) w)
  unfolding dispatch_chunk
  dispatch_chunk-in p s w =
      ap (with_input s) (extract-deliver (codes "IN") (s.in_stream.buf ++ p) w)

  abbrev run_on : Streams × Wire → Outcome
  run_on (s, w) = running s w

  handle_event-in :
      (e : DataEvent) (s : Streams) (w : Wire)
      → e.fd ≡ 0
      → e.size ≤ length e.payload
      → handle_event parser e s w
        ≡ run_on
            (with_input s (drain json_cutter input (s.in_stream.buf ++ take e.size e.payload) w))
  unfolding handle_event
  handle_event-in e s w from fits = elim (Bool-cases (ltb (length e.payload) e.size)) [
    | inl over ↦ absurd (ground arith)
    | inr within ↦ rw within (
        ap (λ n. run_on (dispatch_chunk parser n (take e.size e.payload) s w)) from
        ∙ ap run_on (dispatch_chunk-in (take e.size e.payload) s w))
  ]

  handle_record-in :
      (r : PerfRecord) (p : Bytes) (s : Streams) (w : Wire)
      → Carries 0 r p
      → handle_record parser r s w
        ≡ run_on (with_input s (drain json_cutter input (s.in_stream.buf ++ p) w))
  unfolding handle_record
  handle_record-in _ _ s w (carries bytes e read from fits) =
      ap (λ o. handle_sample parser o s w) read ∙ handle_event-in e s w from fits

  listen-in :
      {rs : List PerfRecord} {ps : List Bytes} (s : Streams) (w : Wire)
      → CarryAll 0 rs ps
      → listen parser rs (running s w)
        ≡ run_on (with_input s (drain_chunks json_cutter input ps s.in_stream.buf w))
  unfolding listen drain_chunks
  listen-in s w CarryAll.nil = refl
  listen-in s w (CarryAll.cons {r} {p} {rs} c cs) =
      ap (listen parser rs) (handle_record-in r p s w c) ∙ listen-in _ _ cs

  -- However the kernel cuts the target's input into events, every text of it is delivered whole,
  -- once and in order, and an unfinished text waits in its buffer.
  pub listen-texts :
      {rs : List PerfRecord} {ps : List Bytes} (s : Streams) (w : Wire) (fs : List (Bytes × Bytes))
      (rest : Bytes)
      → s.in_stream.buf ≡ []
      → CarryAll 0 rs ps
      → joined ps ≡ stream fs rest
      → All IsFrame fs
      → cut_json rest ≡ none
      → listen parser rs (running s w)
        ≡ running
            (record s { in_stream = record { buf = from_opener rest } })
            (each_text parser (codes "IN") (texts fs) w)
  unfolding each_text
  listen-texts {ps} s w fs rest empty cs j hf hr =
      listen-in s w cs
      ∙ ap (λ x. run_on (with_input s x))
          (ap (λ b. drain_chunks json_cutter input ps b w) empty
            ∙ drain_chunks-drain json_cutter input json_cutter-IsCutter ps [] w IsDrained-nil
            ∙ ap (λ x. drain json_cutter input x w) j
            ∙ drain-map json_cutter append input (λ ts. each_text parser (codes "IN") ts w)
                (λ t ts. each_text-append (codes "IN") t ts w) (stream fs rest) []
            ∙ ap (λ x. (x.0, each_text parser (codes "IN") x.1 w)) (drain-stream fs rest [] hf hr))
