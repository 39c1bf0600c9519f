-- ===== src/Storage/Key/Order.antt =====
-- The order of the keys is that of time, and of ids at the same time.
use mcpwatch.Base.{
  lengths, ℕ, zero, suc, ◌/◌, ◌^◌, ◌<◌, ◌≡◌, ◌⊎◌, inl, inr, ◌↔◌, refl, sym, ap, ◌∙◌, Bool, true,
  false, Bool-cases, [], ◌∷◌, ◌++◌, Bytes, length, codes, ltb, ◌==◌, if◌then◌else◌, arith,
}
use mcpwatch.Base.Int.{pos}
use mcpwatch.Storage.Key.{digits, padded, message_key}

-- `bytes.Compare(a, b) < 0`.
unfoldable pub before : Bytes → Bytes → Bool
before s [] = false
before [] (d ∷ t) = true
before (c ∷ s) (d ∷ t) = let rest = before s t in if c == d then rest else ltb c d

before_irrefl : (s : Bytes) → before s s ≡ false
unfolding before
before_irrefl [] = refl
before_irrefl (c ∷ s) = ground (arith, before_irrefl s)

-- Behind texts of one length.
before-append_same : (s u v : Bytes) → before (s ++ u) (s ++ v) ≡ before u v
unfolding before
before-append_same [] u v = refl
before-append_same (c ∷ s) u v = ground (arith, before-append_same s u v)

before-append_less :
    (s t u v : Bytes) → length s ≡ length t → before s t ≡ true → before (s ++ u) (t ++ v) ≡ true
unfolding before
before-append_less [] [] u v e h = absurd (ground arith)
before-append_less [] (d ∷ t) u v e h = absurd (omega (arith, e))
before-append_less (c ∷ s) [] u v e h = absurd (omega (arith, e))
before-append_less (c ∷ s) (d ∷ t) u v e h = ground (arith, before-append_less s t u v)

length-padded_low : (w n : ℕ) → n < 10 ^ w → length (padded w n) ≡ w
unfolding padded digits
length-padded_low zero n h = ground arith
length-padded_low (suc w) n h = grind (lengths, length-padded_low w (n / 10) (omega arith))

before-padded : (w n m : ℕ) → n < m → m < 10 ^ w → before (padded w n) (padded w m) ≡ true
unfolding padded before
before-padded zero n m lt h = absurd (omega arith)
before-padded (suc w) n m lt h = elim (Bool-cases (n / 10 == m / 10)) [
  | inl same ↦ let e : n / 10 ≡ m / 10 = ground arith in rw (e, before-append_same) (ground arith)
  | inr less ↦
      before-append_less (padded w (n / 10)) (padded w (m / 10)) _ _
        (length-padded_low w (n / 10) (omega arith)
          ∙ sym (length-padded_low w (m / 10) (omega arith)))
        (before-padded w (n / 10) (m / 10) (ground arith) (omega arith))
]

before_asym : (s t : Bytes) → before s t ≡ true → before t s ≡ false
unfolding before
before_asym s [] h = absurd (ground arith)
before_asym [] (d ∷ t) h = refl
before_asym (c ∷ s) (d ∷ t) h = ground (arith, before_asym s t)

abbrev pub Earlier : ℕ → ℕ → ℕ → ℕ → Type 0
Earlier t i u j = (t < u) ⊎ ((t ≡ u) × (i < j))

Earlier-cases : (t i u j : ℕ) → Earlier t i u j ⊎ (Earlier u j t i ⊎ ((t ≡ u) × (i ≡ j)))
Earlier-cases t i u j = ground arith

-- What the two numbers of a key can be: nanoseconds of an int64, and ids that six digits hold.
abbrev pub InRange : ℕ → ℕ → Type 0
InRange t i = (t < 2 ^ 63) × (i < 10 ^ 6)

before-Earlier :
    (t i u j : ℕ)
    → InRange t i
    → InRange u j
    → Earlier t i u j
    → before (message_key (pos t) i) (message_key (pos u) j) ≡ true
unfolding message_key
before-Earlier t i u j r q (inl lt) =
    before-append_same (codes "msg:") _ _
    ∙ before-append_less (padded 19 t) (padded 19 u) _ _
        (length-padded_low 19 t (omega (arith, r.0))
          ∙ sym (length-padded_low 19 u (omega (arith, q.0))))
        (before-padded 19 t u lt (omega (arith, q.0)))
before-Earlier t i u j r q (inr (same, lt)) =
    before-append_same (codes "msg:") _ _
    ∙ ap
        (λ x.
          before (padded 19 x ++ (codes ":" ++ padded 6 i))
            (padded 19 u ++ (codes ":" ++ padded 6 j)))
        same
    ∙ before-append_same (padded 19 u) _ _
    ∙ before-append_same (codes ":") _ _
    ∙ before-padded 6 i j lt q.1

-- The database keeps its keys in the order of their bytes. For times from the epoch on and ids
-- below a million that is the order of time, and of ids at the same time.
pub message_key-before :
    (t i u j : ℕ)
    → InRange t i
    → InRange u j
    → (before (message_key (pos t) i) (message_key (pos u) j) ≡ true) ↔ Earlier t i u j
message_key-before t i u j r q = (
  λ h. elim (Earlier-cases t i u j) [
    | inl e ↦ e
    | inr (inl e) ↦ let back = before_asym _ _ (before-Earlier u j t i q r e) in absurd (cc)
    | inr (inr (st, si)) ↦
        let none_before =
          ap (λ x. before (message_key (pos t) i) (message_key (pos x) i)) (sym st)
          ∙ before_irrefl (message_key (pos t) i) in
        let turned = ap (λ x. before (message_key (pos t) i) (message_key (pos u) x)) si in
        absurd (cc)
  ],
  before-Earlier t i u j r q,
)
