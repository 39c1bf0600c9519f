-- ===== src/Transport/Lines/Parts.antt =====
-- Every text is lines and a rest, in one way.
use mcpwatch.Base.{
  lengths, ℕ, zero, suc, ◌<◌, ◌≤◌, ◌≡◌, refl, sym, ap, ◌∙◌, inl, inr, none, some, Option-cases,
  List, [], ◌∷◌, ◌++◌, append_assoc, Bytes, length, length-append, take, drop, All, arith,
}
use mcpwatch.Transport.Cutter.{drain-keep, drain-cut}
use mcpwatch.Transport.Cutter.Tokens.{keep_token, foldl_keep, drain-split}
use mcpwatch.Transport.Lines.{
  index_byte, index_byte-append, index_byte-line, line_cutter, line_cutter-IsCutter, cut_line-index,
  cut_line-none, unlines, IsLine, split_lines,
}

-- The newline is not among so many first bytes.
abbrev pub NoLineBelow : ℕ → Bytes → Type 0
NoLineBelow max x = (i : ℕ) → index_byte b'\n' x ≡ some i → max ≤ i

pub index_byte-prefix :
    (b : ℕ) (r m : Bytes) (i : ℕ)
    → index_byte b r ≡ none
    → index_byte b (r ++ m) ≡ some i
    → length r ≤ i
unfolding index_byte
index_byte-prefix b [] m i h e = omega arith
index_byte-prefix b (c ∷ r) m zero h e = ground arith
index_byte-prefix b (c ∷ r) m (suc i) h e =
    let shorter : length r ≤ i = index_byte-prefix b r m i (ground arith) (ground arith) in
    omega (arith, shorter)

index_byte-cut :
    (x : Bytes) (i : ℕ)
    → index_byte b'\n' x ≡ some i
    → (x ≡ take i x ++ (b'\n' ∷ drop (suc i) x)) × IsLine (take i x)
unfolding index_byte
index_byte-cut [] i e = absurd (ground arith)
index_byte-cut (c ∷ x) zero e =
    let found : c ≡ b'\n' = ground arith in (ap (λ d. d ∷ x) found, refl)
index_byte-cut (c ∷ x) (suc i) e =
    let (parts, line) = index_byte-cut x i (ground arith) in (ap (◌∷◌ c) parts, ground arith)

split_lines-step :
    (x : Bytes) (i : ℕ)
    → index_byte b'\n' x ≡ some i
    → split_lines x
      ≡ ((split_lines (drop (suc i) x)).0, take i x ∷ (split_lines (drop (suc i) x)).1)
split_lines-step x i e =
    let r = drop (suc i) x in
    drain-cut line_cutter keep_token line_cutter-IsCutter x (take i x) r [] (cut_line-index x i e)
    ∙ drain-split line_cutter keep_token r (take i x ∷ [])
    ∙ ap (λ ls. ((split_lines r).0, ls)) (foldl_keep (split_lines r).1 (take i x ∷ []))

abbrev Parts : Bytes → Bytes × List Bytes → Type 0
Parts x s = (x ≡ unlines s.1 ++ s.0) × All IsLine s.1 × IsLine s.0

split_lines-Parts_below : (n : ℕ) (x : Bytes) → length x < n → Parts x (split_lines x)
split_lines-Parts_below zero x h = absurd (omega arith)
split_lines-Parts_below (suc n) x h = elim (Option-cases (index_byte b'\n' x)) [
  | inl e ↦
      rw (drain-keep line_cutter keep_token line_cutter-IsCutter x [] (cut_line-none x e))
        (refl, tt, e)
  | inr (i, e) ↦
      let (parts, line) = index_byte-cut x i e in
      let (more, lines, rest) =
        split_lines-Parts_below n (drop (suc i) x)
          (omega (arith, (index_byte-append b'\n' x [] i e).3)) in
      rw (split_lines-step x i e) (
        parts ∙ ap (λ y. take i x ++ (b'\n' ∷ y)) more ∙ sym (append_assoc (take i x) _ _),
        (line, lines),
        rest,
      )
]

-- The lines that the loop finds, each with its newline, and the rest are the text.
pub split_lines-Parts :
    (x : Bytes)
    → (x ≡ unlines (split_lines x).1 ++ (split_lines x).0)
      × All IsLine (split_lines x).1
      × IsLine (split_lines x).0
split_lines-Parts x = split_lines-Parts_below (suc (length x)) x (omega arith)

-- Lines within the first `max` bytes are the first of any lines that the text is made of.
pub unlines-prefix :
    (max : ℕ) (ks ls : List Bytes) (y x : Bytes)
    → unlines ks ++ y ≡ unlines ls ++ x
    → All IsLine ks
    → All IsLine ls
    → length (unlines ks) ≤ max
    → NoLineBelow max x
    → (ms : List Bytes) × (ls ≡ ks ++ ms) × (y ≡ unlines ms ++ x)
unlines-prefix max [] ls y x e hk hl fits tail = (ls, refl, e)
unlines-prefix max (k ∷ ks) [] y x e hk hl fits tail =
    let (at, taken, dropped) = index_byte-line k (unlines ks ++ y) hk.0 in
    let found : index_byte b'\n' x ≡ some (length k) =
      ap (index_byte b'\n') (sym e ∙ append_assoc k (b'\n' ∷ unlines ks) y) ∙ at in
    absurd (grind (lengths, tail (length k) found))
unlines-prefix max (k ∷ ks) (l ∷ ls) y x e hk hl fits tail =
    let same : k ++ (b'\n' ∷ (unlines ks ++ y)) ≡ l ++ (b'\n' ∷ (unlines ls ++ x)) =
      sym (append_assoc k (b'\n' ∷ unlines ks) y) ∙ e ∙ append_assoc l (b'\n' ∷ unlines ls) x in
    let (at, taken, dropped) = index_byte-line k (unlines ks ++ y) hk.0 in
    let (at', taken', dropped') = index_byte-line l (unlines ls ++ x) hl.0 in
    let lengths : length k ≡ length l =
      ap (λ o. elim o [ none ↦ 0 | some n ↦ n ]) (sym at ∙ ap (index_byte b'\n') same ∙ at') in
    let (ms, el, ey) =
      unlines-prefix max ks ls y x
        (sym dropped
          ∙ ap (drop (suc (length k))) same
          ∙ ap (λ n. drop (suc n) (l ++ (b'\n' ∷ (unlines ls ++ x)))) lengths
          ∙ dropped')
        hk.1 hl.1 (omega (arith, length-append k (b'\n' ∷ unlines ks))) tail in
    let first : l ≡ k =
      sym taken'
      ∙ ap (λ n. take n (l ++ (b'\n' ∷ (unlines ls ++ x)))) (sym lengths)
      ∙ ap (take (length k)) (sym same)
      ∙ taken in
    (ms, ap (λ z. z ∷ ls) first ∙ ap (◌∷◌ k) el, ey)
