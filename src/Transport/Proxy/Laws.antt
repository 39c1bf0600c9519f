-- ===== src/Transport/Proxy/Laws.antt =====
-- What the proxy delivers, and what it passes on.
use mcpwatch.Base.{
  lengths, ◌+◌, ◌≤◌, ◌<◌, ◌≡◌, refl, sym, ap, ◌∙◌, ◌⊎◌, inl, inr, Bool, true, false, Bool-cases,
  not, ◌&&◌, List, [], ◌∷◌, ◌++◌, map, foldl, append_assoc, append-nil, some, Bytes, length, All,
  is_empty, ltb, if◌then◌else◌, arith,
}
use mcpwatch.Transport.Cutter.{drain, drain-keep, drain-append, joined, length-drain-le}
use mcpwatch.Transport.Lines.{
  line_cutter, line_cutter-IsCutter, unlines, IsLine, drain-unlines, cut_line-none, IsLine-drain,
  index_byte,
}
use mcpwatch.Transport.Proxy.{
  limit, Interceptor, ReadResult, flush_end, take_in, is_eof, read_with, read_all,
}
use mcpwatch.Transport.Wire.{Wire, eof, limit_exceeded}

abbrev pub chunks : List ReadResult → List Bytes
chunks = map (λ r. r.bytes)

abbrev pub Continues : ReadResult → Type 0
Continues r = is_eof r.err ≡ false

is_eof-eof : is_eof (some eof) ≡ true
unfolding is_eof
is_eof-eof = refl

module _ (line : Bytes → Bytes → Bytes → Wire → Wire) where
  length-take_in :
      (bs : Bytes) (s : Interceptor) (w : Wire)
      → length (take_in line bs s w).0.buf ≤ length s.buf + length bs
  unfolding take_in
  length-take_in [] s w = omega arith
  length-take_in (b ∷ bs) s w = grind (
    lengths,
    length-drain-le line_cutter (line s.direction s.trans_type) line_cutter-IsCutter
        (s.buf ++ b ∷ bs) w,
  )

  length-flush_end :
      (e : Bool) (s : Interceptor) (w : Wire) → length (flush_end line e s w).0.buf ≤ length s.buf
  unfolding flush_end
  length-flush_end false s w = omega arith
  length-flush_end true s w = ground arith

  -- A call either passes on what the body gave, or refuses it for the limit, delivers nothing and
  -- leaves the buffer as it was. In both cases the buffer stays within the limit.
  pub read_with-limit :
      (r : ReadResult) (s : Interceptor) (w : Wire)
      → length s.buf ≤ limit
      → (length (read_with line r s w).1.buf ≤ limit)
        × (((read_with line r s w).0 ≡ r)
            ⊎ ((read_with line r s w ≡ (record { bytes = []; err = some limit_exceeded }, s, w))
                × (limit < length s.buf + length r.bytes)))
  unfolding read_with
  read_with-limit r s w h = ground (
    arith,
    length-flush_end (is_eof r.err) (take_in line r.bytes s w).0 (take_in line r.bytes s w).1,
    length-take_in r.bytes s w,
  )

  -- The buffer grows by no more than what is read.
  pub length-read_with :
      (r : ReadResult) (s : Interceptor) (w : Wire)
      → length (read_with line r s w).1.buf ≤ length s.buf + length r.bytes
  unfolding read_with
  length-read_with r s w = ground (
    arith,
    length-flush_end (is_eof r.err) (take_in line r.bytes s w).0 (take_in line r.bytes s w).1,
    length-take_in r.bytes s w,
  )

  abbrev pub handle_line : Interceptor → Bytes → Wire → Wire
  handle_line s = line s.direction s.trans_type

  take_in-drain :
      (bs : Bytes) (s : Interceptor) (w : Wire)
      → IsLine s.buf
      → take_in line bs s w ≡ (
          let (buf, w') = drain line_cutter (handle_line s) (s.buf ++ bs) w in
          (record s { buf = buf }, w'))
  unfolding take_in
  take_in-drain [] s w h = rw (
    append-nil,
    drain-keep line_cutter (handle_line s) line_cutter-IsCutter s.buf w (cut_line-none s.buf h),
  )
  take_in-drain (b ∷ bs) s w h = refl

  -- A call that the limit admits.
  read_with-step :
      (r : ReadResult) (s : Interceptor) (w : Wire)
      → IsLine s.buf
      → length s.buf + length r.bytes ≤ limit
      → read_with line r s w ≡ (
          let (buf, w') = drain line_cutter (handle_line s) (s.buf ++ r.bytes) w in
          let (s'', w'') = flush_end line (is_eof r.err) (record s { buf = buf }) w' in
          (r, s'', w''))
  unfolding read_with
  read_with-step r s w h fits =
      elim (Bool-cases (not (is_empty r.bytes) && ltb limit (length s.buf + length r.bytes))) [
        | inl over ↦ absurd (ground arith)
        | inr within ↦ rw within (
            ap (λ x. (let (s'', w'') = flush_end line (is_eof r.err) x.0 x.1 in (r, s'', w'')))
              (take_in-drain r.bytes s w h))
      ]

  abbrev drained : ReadResult → Interceptor → Wire → Bytes × Wire
  drained r s w = drain line_cutter (handle_line s) (s.buf ++ r.bytes) w

  -- What happens to the text `x` when the body ends behind it.
  abbrev ending : Interceptor → Bytes → Wire → Interceptor × Wire
  ending s x w =
      let (buf, w') = drain line_cutter (handle_line s) x w in
      flush_end line true (record s { buf = buf }) w'

  -- A body that ends after the calls `rs` with the call `last`.
  read_all-ending :
      (rs : List ReadResult) (last : ReadResult) (s : Interceptor) (w : Wire)
      → IsLine s.buf
      → length s.buf + length (joined (chunks rs) ++ last.bytes) ≤ limit
      → All Continues rs
      → last.err ≡ some eof
      → read_all line (rs ++ last ∷ []) s w
        ≡ ending s (s.buf ++ (joined (chunks rs) ++ last.bytes)) w
  unfolding read_all flush_end
  read_all-ending [] last s w h fits c e =
      ap (λ x. (x.1, x.2)) (read_with-step last s w h fits)
      ∙ ap (λ b. flush_end line b (record s { buf = (drained last s w).0 }) (drained last s w).1)
          (ap is_eof e ∙ is_eof-eof)
  read_all-ending (r ∷ rs) last s w h fits c e =
      let more = joined (chunks rs) ++ last.bytes in
      let total = append_assoc r.bytes (joined (chunks rs)) last.bytes in
      ap (λ x. read_all line (rs ++ last ∷ []) x.1 x.2)
        (read_with-step r s w h (grind (lengths, ap length total)))
      ∙ ap
          (λ b.
            (let x = flush_end line b (record s { buf = (drained r s w).0 }) (drained r s w).1 in
              read_all line (rs ++ last ∷ []) x.0 x.1))
          c.0
      ∙ read_all-ending rs last (record s { buf = (drained r s w).0 }) (drained r s w).1
          (IsLine-drain (handle_line s) (s.buf ++ r.bytes) w)
          (grind (
            lengths,
            length-drain-le line_cutter (handle_line s) line_cutter-IsCutter (s.buf ++ r.bytes) w,
            ap length total,
          ))
          c.1 e
      ∙ sym (
          ap (λ x. flush_end line true (record s { buf = x.0 }) x.1)
            (drain-append line_cutter (handle_line s) line_cutter-IsCutter (s.buf ++ r.bytes) more
              w))
      ∙ ap (λ x. ending s x w) (append_assoc s.buf r.bytes more ∙ ap (λ x. s.buf ++ x) (sym total))

  -- At the end the unfinished line is a line, unless it is empty.
  flush_end_rest :
      (rest : Bytes) (s : Interceptor) (w : Wire)
      → flush_end line true (record s { buf = rest }) w
        ≡ (record s { buf = [] }, if is_empty rest then w else handle_line s rest w)
  unfolding flush_end
  flush_end_rest [] s w = refl
  flush_end_rest (b ∷ rest) s w = refl

  -- However a body within the limit is cut into reads, its lines are handled in order, each once,
  -- what stands behind the last newline is handled as a line when the body ends, and nothing is
  -- left in the buffer.
  pub read_all-lines :
      (rs : List ReadResult) (last : ReadResult) (s : Interceptor) (w : Wire) (ls : List Bytes)
      (rest : Bytes)
      → s.buf ≡ []
      → length (joined (chunks rs) ++ last.bytes) ≤ limit
      → All Continues rs
      → last.err ≡ some eof
      → joined (chunks rs) ++ last.bytes ≡ unlines ls ++ rest
      → All IsLine ls
      → IsLine rest
      → let w' = foldl (λ v l. handle_line s l v) w ls in
        read_all line (rs ++ last ∷ []) s w
        ≡ (record s { buf = [] }, if is_empty rest then w' else handle_line s rest w')
  read_all-lines rs last s w ls rest empty fits c e text hl hr =
      let no_line : IsLine s.buf = ap (index_byte b'\n') empty ∙ unfold index_byte in refl in
      let x = joined (chunks rs) ++ last.bytes in
      let split : drain line_cutter (handle_line s) (s.buf ++ x) w
          ≡ (rest, foldl (λ v l. handle_line s l v) w ls) =
        ap (λ y. drain line_cutter (handle_line s) y w) (ap (λ b. b ++ x) empty ∙ text)
        ∙ drain-unlines (handle_line s) ls rest w hl hr in
      read_all-ending rs last s w no_line (omega (arith, ap length empty)) c e
      ∙ ap (λ y. flush_end line true (record s { buf = y.0 }) y.1) split
      ∙ flush_end_rest rest s _
