-- ===== src/Transport/Tracer/Foreign.antt =====
-- Events of a machine that puts the high byte first, read as internal/transport/ebpf_linux.go reads
-- them.
use mcpwatch.Base.{
  lengths, ℕ, ◌+◌, ◌<◌, ◌≡◌, refl, ap, ◌∙◌, inl, inr, Bool-cases, some, List, [], ◌∷◌, ◌++◌, Bytes,
  length, ltb, arith,
}
use mcpwatch.Engine.Parser.{Parser}
use mcpwatch.Transport.Ebpf.{
  DataEvent, payload_size, little_endian, read_event, PerfRecord, sample, Streams, running,
  panicked, handle_sample, handle_event, handle_record, listen,
}
use mcpwatch.Transport.Tracer.{big, word_bytes, event_bytes}
use mcpwatch.Transport.Tracer.Layout.{IsEvent, take_front}
use mcpwatch.Transport.Wire.{Wire}

-- The event with its words turned round.
abbrev turned : DataEvent → DataEvent
turned e = record e {
  fd = little_endian (word_bytes big e.fd);
  size = little_endian (word_bytes big e.size);
}

read_event-turned :
    (e : DataEvent) (garbage : Bytes)
    → IsEvent e
    → read_event (event_bytes big e ++ garbage) ≡ some (turned e)
unfolding read_event event_bytes little_endian word_bytes
read_event-turned e garbage v =
    elim (Bool-cases (ltb (length (event_bytes big e ++ garbage)) (8 + payload_size))) [
      | inl short ↦ absurd (grind (lengths, v.full))
      | inr enough ↦ rw (enough, take_front payload_size e.payload garbage v.full)
    ]

little_endian-big : (n : ℕ) → 0 < n → n < 4096 → payload_size < little_endian (word_bytes big n)
unfolding little_endian word_bytes
little_endian-big n h g = omega arith

module _ (parser : Parser) where
  handle_event-over :
      (e : DataEvent) (s : Streams) (w : Wire)
      → length e.payload < e.size
      → handle_event parser e s w ≡ panicked
  unfolding handle_event
  handle_event-over e s w over = ground (arith, over)

  listen-panicked : (rs : List PerfRecord) → listen parser rs panicked ≡ panicked
  unfolding listen
  listen-panicked [] = refl
  listen-panicked (r ∷ rs) = refl

  -- On a machine with the high byte first, the first event of the ring that carries any bytes makes
  -- the loop panic, whatever follows it.
  pub listen-big :
      (e : DataEvent) (garbage : Bytes) (rs : List PerfRecord) (s : Streams) (w : Wire)
      → IsEvent e
      → 0 < e.size
      → e.size < 4096
      → listen parser (sample 0 (event_bytes big e ++ garbage) ∷ rs) (running s w) ≡ panicked
  unfolding listen handle_record handle_sample
  listen-big e garbage rs s w v some_bytes h =
      ap (λ o. listen parser rs (handle_sample parser o s w)) (read_event-turned e garbage v)
      ∙ ap (listen parser rs) (
          handle_event-over (turned e) s w
            (omega (arith, little_endian-big e.size some_bytes h, v.full)))
      ∙ listen-panicked rs
