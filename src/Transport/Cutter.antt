-- ===== src/Transport/Cutter.antt =====
-- The loop that every interceptor runs over its buffer: cut a token off the front, hand it on, and
-- go on with the rest, until no token is left.
pub mod Tokens
use mcpwatch.Base.{
  ℕ, zero, suc, ◌≤◌, ◌<◌, ◌≡◌, refl, sym, ap, ◌∙◌, inl, inr, Option, none, some, Option-cases, List,
  [], ◌∷◌, ◌++◌, append-nil, append_assoc, Bytes, length, arith,
}

-- `cut buf` gives the first token and what stands behind it; where there is none, `keep buf` is
-- the buffer that is left.
pub record Cutter : Type 0 where
  pub cut : Bytes → Option (Bytes × Bytes)
  pub keep : Bytes → Bytes

-- More input moves no token, and what is kept stands for what was read.
pub record IsCutter (k : Cutter) : Type 0 where
  pub shorter : (a t r : Bytes) → k.cut a ≡ some (t, r) → length r < length a
  pub stable : (a b t r : Bytes) → k.cut a ≡ some (t, r) → k.cut (a ++ b) ≡ some (t, r ++ b)
  pub cut-keep : (a b : Bytes) → k.cut a ≡ none → k.cut (k.keep a ++ b) ≡ k.cut (a ++ b)
  pub keep_shorter : (a : Bytes) → length (k.keep a) ≤ length a
  pub keep-keep : (a b : Bytes) → k.cut a ≡ none → k.keep (k.keep a ++ b) ≡ k.keep (a ++ b)

-- The whole of an input that comes in chunks.
abbrev pub joined : List Bytes → Bytes
joined [] = []
joined (p ∷ ps) = p ++ joined ps

module _ {ℓ} {S : Type ℓ} (k : Cutter) (handle : Bytes → S → S) where
  unfoldable pub drain_from : ℕ → Bytes → S → Bytes × S
  drain_from zero buf s = (buf, s)
  drain_from (suc fuel) buf s = elim (k.cut buf) [
    | none ↦ (k.keep buf, s)
    | some (t, r) ↦ drain_from fuel r (handle t s)
  ]

  -- A token takes a byte at least, so that one round more than there are bytes is enough.
  unfoldable pub drain : Bytes → S → Bytes × S
  drain buf s = drain_from (suc (length buf)) buf s

  -- The buffer is drained after each chunk that comes in.
  unfoldable pub drain_chunks : List Bytes → Bytes → S → Bytes × S
  drain_chunks [] buf s = (buf, s)
  drain_chunks (p ∷ ps) buf s = let (r, s') = drain (buf ++ p) s in drain_chunks ps r s'

  module _ (laws : IsCutter k) where
    -- With fuel above the length of the buffer the result does not depend on the fuel.
    drain_from-fuel :
        (n m : ℕ) (buf : Bytes) (s : S)
        → length buf < n
        → length buf < m
        → drain_from n buf s ≡ drain_from m buf s
    unfolding drain_from
    drain_from-fuel zero m buf s h g = absurd (omega arith)
    drain_from-fuel (suc n) zero buf s h g = absurd (omega arith)
    drain_from-fuel (suc n) (suc m) buf s h g = elim (Option-cases (k.cut buf)) [
      | inl e ↦ rw (e, drain_from)
      | inr ((t, r), e) ↦
          rw (e, drain_from)
            (drain_from-fuel n m r (handle t s) (omega (arith, laws.shorter buf t r e))
              (omega (arith, laws.shorter buf t r e)))
    ]

    pub drain-cut :
        (buf t r : Bytes) (s : S) → k.cut buf ≡ some (t, r) → drain buf s ≡ drain r (handle t s)
    unfolding drain
    drain-cut buf t r s e =
        unfold drain_from in
        rw (e, drain_from)
          (drain_from-fuel (length buf) (suc (length r)) r (handle t s) (laws.shorter buf t r e)
            (omega arith))

    pub drain-keep : (buf : Bytes) (s : S) → k.cut buf ≡ none → drain buf s ≡ (k.keep buf, s)
    unfolding drain drain_from
    drain-keep buf s e = rw (e, drain_from)

    drain-eq :
        (a b : Bytes) (s : S) → k.cut a ≡ k.cut b → k.keep a ≡ k.keep b → drain a s ≡ drain b s
    drain-eq a b s e h = elim (Option-cases (k.cut a)) [
      | inl n ↦ drain-keep a s n ∙ ap (λ x. (x, s)) h ∙ sym (drain-keep b s (sym e ∙ n))
      | inr ((t, r), n) ↦ drain-cut a t r s n ∙ sym (drain-cut b t r s (sym e ∙ n))
    ]

    drain-append_below :
        (n : ℕ) (a b : Bytes) (s : S)
        → length a < n
        → drain (a ++ b) s ≡ drain ((drain a s).0 ++ b) (drain a s).1
    drain-append_below zero a b s h = absurd (omega arith)
    drain-append_below (suc n) a b s h = elim (Option-cases (k.cut a)) [
      | inl e ↦ rw (drain-keep a s e) (
          drain-eq (a ++ b) (k.keep a ++ b) s (sym (laws.cut-keep a b e))
            (sym (laws.keep-keep a b e)))
      | inr ((t, r), e) ↦ rw (drain-cut a t r s e) (
          drain-cut (a ++ b) t (r ++ b) s (laws.stable a b t r e)
          ∙ drain-append_below n r b (handle t s) (omega (arith, laws.shorter a t r e)))
    ]

    -- Draining early or late makes no difference.
    pub drain-append :
        (a b : Bytes) (s : S) → drain (a ++ b) s ≡ drain ((drain a s).0 ++ b) (drain a s).1
    drain-append a b s = drain-append_below (suc (length a)) a b s (omega arith)

    length-drain-le_below :
        (n : ℕ) (a : Bytes) (s : S) → length a < n → length (drain a s).0 ≤ length a
    length-drain-le_below zero a s h = absurd (omega arith)
    length-drain-le_below (suc n) a s h = elim (Option-cases (k.cut a)) [
      | inl e ↦ rw (drain-keep a s e) (laws.keep_shorter a)
      | inr ((t, r), e) ↦ rw (drain-cut a t r s e) (
          omega (
            arith,
            length-drain-le_below n r (handle t s) (omega (arith, laws.shorter a t r e)),
            laws.shorter a t r e,
          ))
    ]

    -- The buffer never grows by being drained.
    pub length-drain-le : (a : Bytes) (s : S) → length (drain a s).0 ≤ length a
    length-drain-le a s = length-drain-le_below (suc (length a)) a s (omega arith)

    -- No token is left behind, and the kept buffer is as short as it can be.
    abbrev pub IsDrained : Bytes → Type 0
    IsDrained buf = (k.cut buf ≡ none) × (k.keep buf ≡ buf)

    keep-IsDrained : (a : Bytes) → k.cut a ≡ none → IsDrained (k.keep a)
    keep-IsDrained a e = (
      cc (laws.cut-keep a [] e, append-nil a, append-nil (k.keep a)),
      cc (laws.keep-keep a [] e, append-nil a, append-nil (k.keep a)),
    )

    drain-IsDrained_below : (n : ℕ) (a : Bytes) (s : S) → length a < n → IsDrained (drain a s).0
    drain-IsDrained_below zero a s h = absurd (omega arith)
    drain-IsDrained_below (suc n) a s h = elim (Option-cases (k.cut a)) [
      | inl e ↦ rw (drain-keep a s e) (keep-IsDrained a e)
      | inr ((t, r), e) ↦
          rw (drain-cut a t r s e)
            (drain-IsDrained_below n r (handle t s) (omega (arith, laws.shorter a t r e)))
    ]

    pub drain-IsDrained : (a : Bytes) (s : S) → IsDrained (drain a s).0
    drain-IsDrained a s = drain-IsDrained_below (suc (length a)) a s (omega arith)

    -- However the input is cut into chunks, the tokens are those of the whole.
    pub drain_chunks-drain :
        (ps : List Bytes) (buf : Bytes) (s : S)
        → IsDrained buf
        → drain_chunks ps buf s ≡ drain (buf ++ joined ps) s
    unfolding drain_chunks
    drain_chunks-drain [] buf s d =
        rw append-nil (sym (drain-keep buf s d.0 ∙ ap (λ x. (x, s)) d.1))
    drain_chunks-drain (p ∷ ps) buf s d =
        drain_chunks-drain ps _ _ (drain-IsDrained (buf ++ p) s)
        ∙ sym (drain-append (buf ++ p) (joined ps) s)
        ∙ ap (λ x. drain x s) (append_assoc buf p (joined ps))

-- Two loops that handle each token alike, up to `g`.
module _ {ℓ κ} {S : Type ℓ} {T : Type κ} (k : Cutter) (f : Bytes → S → S) (h : Bytes → T → T)
    (g : S → T) (same : (t : Bytes) (s : S) → g (f t s) ≡ h t (g s)) where
  drain_from-map :
      (n : ℕ) (buf : Bytes) (s : S)
      → drain_from k h n buf (g s) ≡ (let (r, s') = drain_from k f n buf s in (r, g s'))
  unfolding drain_from
  drain_from-map zero buf s = refl
  drain_from-map (suc n) buf s = elim (Option-cases (k.cut buf)) [
    | inl e ↦ rw (e, drain_from)
    | inr ((t, r), e) ↦
        rw (e, drain_from)
          (ap (λ x. drain_from k h n r x) (sym (same t s)) ∙ drain_from-map n r (f t s))
  ]

  pub drain-map :
      (buf : Bytes) (s : S) → drain k h buf (g s) ≡ (let (r, s') = drain k f buf s in (r, g s'))
  unfolding drain
  drain-map buf s = drain_from-map (suc (length buf)) buf s
