-- ===== src/Transport/Lines.antt =====
-- `bytes.IndexByte(buf, '\n')` and the slices on both sides of the newline that it finds.
pub mod Parts
pub mod Unlines
use mcpwatch.Base.{
  ℕ, zero, suc, ◌<◌, ◌≡◌, refl, ap, ◌∙◌, inl, inr, Option, none, some, Option-cases, List, [], ◌∷◌,
  ◌++◌, Bytes, length, take, drop, All, foldl, append_assoc, ◌==◌, if◌then◌else◌, arith,
}
use mcpwatch.Transport.Cutter.{Cutter, IsCutter, drain, drain-keep, drain-cut, drain-IsDrained}
use mcpwatch.Transport.Cutter.Tokens.{keep_token, foldl_keep, split}

unfoldable pub index_byte : ℕ → Bytes → Option ℕ
index_byte b [] = none
index_byte b (c ∷ s) =
    if c == b then some 0 else elim (index_byte b s) [ none ↦ none | some i ↦ some (suc i) ]

-- The line, and the buffer after its newline.
unfoldable pub cut_line : Bytes → Option (Bytes × Bytes)
unfolding index_byte
cut_line buf = elim (index_byte b'\n' buf) [
  | none ↦ none
  | some i ↦ some (take i buf, drop (suc i) buf)
]

abbrev pub line_cutter : Cutter
line_cutter = record { cut = cut_line; keep = λ buf. buf }

pub index_byte-append :
    (b : ℕ) (s r : Bytes) (i : ℕ)
    → index_byte b s ≡ some i
    → (index_byte b (s ++ r) ≡ some i)
      × (take i (s ++ r) ≡ take i s)
      × (drop (suc i) (s ++ r) ≡ drop (suc i) s ++ r)
      × (length (drop (suc i) s) < length s)
unfolding index_byte
index_byte-append b [] r i e = absurd (ground arith)
index_byte-append b (c ∷ s) r zero e = (ground arith, refl, refl, omega arith)
index_byte-append b (c ∷ s) r (suc i) e =
    let (at, taken, dropped, less) = index_byte-append b s r i (ground arith) in
    (ground arith, ap (◌∷◌ c) taken, dropped, omega arith)

pub cut_line-index :
    (buf : Bytes) (i : ℕ)
    → index_byte b'\n' buf ≡ some i
    → cut_line buf ≡ some (take i buf, drop (suc i) buf)
unfolding cut_line
cut_line-index buf i e = rw (e, cut_line)

cut_line-some :
    (buf t r : Bytes)
    → cut_line buf ≡ some (t, r)
    → (i : ℕ) × (index_byte b'\n' buf ≡ some i) × (t ≡ take i buf) × (r ≡ drop (suc i) buf)
unfolding cut_line
cut_line-some buf t r e = elim (Option-cases (index_byte b'\n' buf)) [
  | inl h ↦ absurd (ground arith)
  | inr (i, h) ↦ (i, h, ground arith, ground arith)
]

pub line_cutter-IsCutter : IsCutter line_cutter
line_cutter-IsCutter = record {
  shorter = λ a t r e.
      let (i, at, et, er) = cut_line-some a t r e in rw er (index_byte-append b'\n' a [] i at).3;
  stable = λ a b t r e.
      let (i, at, et, er) = cut_line-some a t r e in
      let (at', taken, dropped, less) = index_byte-append b'\n' a b i at in
      cut_line-index (a ++ b) i at' ∙ cc;
  cut-keep = λ a b e. refl;
  keep_shorter = λ a. omega arith;
  keep-keep = λ a b e. refl;
}

pub cut_line-none : (buf : Bytes) → index_byte b'\n' buf ≡ none → cut_line buf ≡ none
unfolding cut_line
cut_line-none buf e = rw (e, cut_line)

cut_line-none_inv : (buf : Bytes) → cut_line buf ≡ none → index_byte b'\n' buf ≡ none
unfolding cut_line
cut_line-none_inv buf e = elim (Option-cases (index_byte b'\n' buf)) [
  | inl h ↦ h
  | inr (i, h) ↦ absurd (ground arith)
]

-- The text with a newline behind each line.
abbrev pub unlines : List Bytes → Bytes
unlines [] = []
unlines (l ∷ ls) = l ++ (b'\n' ∷ unlines ls)

abbrev pub IsLine : Bytes → Type 0
IsLine l = index_byte b'\n' l ≡ none

pub index_byte-line :
    (l rest : Bytes)
    → IsLine l
    → (index_byte b'\n' (l ++ (b'\n' ∷ rest)) ≡ some (length l))
      × (take (length l) (l ++ (b'\n' ∷ rest)) ≡ l)
      × (drop (suc (length l)) (l ++ (b'\n' ∷ rest)) ≡ rest)
unfolding index_byte
index_byte-line [] rest h = (refl, refl, refl)
index_byte-line (c ∷ l) rest h =
    let (at, taken, dropped) = index_byte-line l rest (ground arith) in
    (ground arith, ap (◌∷◌ c) taken, dropped)

cut_line-append : (l rest : Bytes) → IsLine l → cut_line (l ++ (b'\n' ∷ rest)) ≡ some (l, rest)
cut_line-append l rest h =
    let (at, taken, dropped) = index_byte-line l rest h in cut_line-index _ _ at ∙ cc

-- Complete lines are handed on one by one, in order, and what follows the last newline is kept.
pub drain-unlines {ℓ} :
    {S : Type ℓ} (handle : Bytes → S → S) (ls : List Bytes) (rest : Bytes) (s : S)
    → All IsLine ls
    → IsLine rest
    → drain line_cutter handle (unlines ls ++ rest) s ≡ (rest, foldl (λ t l. handle l t) s ls)
drain-unlines handle [] rest s hl hr =
    drain-keep line_cutter handle line_cutter-IsCutter rest s (cut_line-none rest hr)
drain-unlines handle (l ∷ ls) rest s hl hr =
    ap (λ x. drain line_cutter handle x s) (append_assoc l (b'\n' ∷ unlines ls) rest)
    ∙ drain-cut line_cutter handle line_cutter-IsCutter _ _ _ s
        (cut_line-append l (unlines ls ++ rest) hl.0)
    ∙ drain-unlines handle ls rest (handle l s) hl.1 hr

pub IsLine-drain {ℓ} :
    {S : Type ℓ} (handle : Bytes → S → S) (a : Bytes) (s : S)
    → IsLine (drain line_cutter handle a s).0
IsLine-drain handle a s =
    cut_line-none_inv _ (drain-IsDrained line_cutter handle line_cutter-IsCutter a s).0

-- The rest, and the lines.
abbrev pub split_lines : Bytes → Bytes × List Bytes
split_lines = split line_cutter

pub split_lines-unlines :
    (ls : List Bytes) (rest : Bytes)
    → All IsLine ls
    → IsLine rest
    → split_lines (unlines ls ++ rest) ≡ (rest, ls)
split_lines-unlines ls rest hl hr =
    drain-unlines keep_token ls rest [] hl hr ∙ ap (λ x. (rest, x)) (foldl_keep ls [])
