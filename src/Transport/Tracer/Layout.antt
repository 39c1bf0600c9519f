-- ===== src/Transport/Tracer/Layout.antt =====
-- The event that is read from the ring is the one that was put into it, where both sides agree on
-- the order of bytes.
use mcpwatch.Base.{
  lengths, ℕ, zero, suc, ◌+◌, ◌^◌, ◌<◌, ◌≡◌, refl, ap, ◌∙◌, inl, inr, Bool-cases, some, [], ◌∷◌,
  ◌++◌, Bytes, length, take, ltb, arith,
}
use mcpwatch.Transport.Ebpf.{DataEvent, payload_size, little_endian, read_event}
use mcpwatch.Transport.Tracer.{little, word_bytes, event_bytes}

-- The fields fit their C types.
pub record IsEvent (e : DataEvent) : Type 0 where
  pub fd_word : e.fd < 2 ^ 32
  pub size_word : e.size < 2 ^ 32
  pub full : length e.payload ≡ payload_size

pub take_front : (n : ℕ) (s t : Bytes) → length s ≡ n → take n (s ++ t) ≡ s
take_front zero [] t e = refl
take_front zero (b ∷ s) t e = absurd (omega (arith, e))
take_front (suc n) [] t e = absurd (omega (arith, e))
take_front (suc n) (b ∷ s) t e = ap (◌∷◌ b) (take_front n s t (omega (arith, e)))

little_endian-word_bytes : (n : ℕ) → n < 2 ^ 32 → little_endian (word_bytes little n) ≡ n
unfolding little_endian word_bytes
little_endian-word_bytes n h = omega arith

-- `binary.Read` gives back the event that a little-endian machine laid out, whatever the ring adds
-- behind it.
pub read_event-event_bytes :
    (e : DataEvent) (garbage : Bytes)
    → IsEvent e
    → read_event (event_bytes little e ++ garbage) ≡ some e
unfolding read_event event_bytes little_endian word_bytes
read_event-event_bytes e garbage v =
    elim (Bool-cases (ltb (length (event_bytes little e ++ garbage)) (8 + payload_size))) [
      | inl short ↦ absurd (grind (lengths, v.full))
      | inr enough ↦
          rw (enough, take_front payload_size e.payload garbage v.full)
            (ap
                (λ n. some (record {
                  fd = n;
                  size = little_endian (word_bytes little e.size);
                  payload = e.payload;
                }))
                (little_endian-word_bytes e.fd v.fd_word)
              ∙ ap (λ n. some (record { fd = e.fd; size = n; payload = e.payload }))
                  (little_endian-word_bytes e.size v.size_word))
    ]
