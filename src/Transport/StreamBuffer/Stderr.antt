-- ===== src/Transport/StreamBuffer/Stderr.antt =====
-- The lines that `extractLines` takes out of a stream.
use mcpwatch.Base.{
  ℕ, inl, inr, false, ◌==◌, Bool-cases, arith, ◌≢◌, ◌≡◌, refl, sym, ap, ◌∙◌, List, [], ◌∷◌, ◌++◌,
  map, foldl, append_assoc, append-nil, Bytes, All,
}
use mcpwatch.Transport.Lines.{unlines, IsLine, drain-unlines}
use mcpwatch.Transport.StreamBuffer.{append, strip_return, extract_lines}

append_all :
    (ls out : List Bytes)
    → foldl (λ v l. append (strip_return l) v) out ls ≡ out ++ map strip_return ls
append_all [] out = sym (append-nil out)
append_all (l ∷ ls) out =
    append_all ls (out ++ strip_return l ∷ [])
    ∙ append_assoc out (strip_return l ∷ []) (map strip_return ls)

-- `k` is the line `l` without one carriage return at its end, if it has one there.
pub data Stripped (l k : Bytes) : Type 0 where
  return_off : l ≡ k ++ b'\r' ∷ [] → Stripped l k
  no_return : l ≡ k → ((j : Bytes) → l ≢ j ++ b'\r' ∷ []) → Stripped l k

pub data AllStripped : List Bytes → List Bytes → Type 0 where
  none_left : AllStripped [] []
  next :
      {ls ks : List Bytes} (l k : Bytes)
      → Stripped l k
      → AllStripped ls ks
      → AllStripped (l ∷ ls) (k ∷ ks)

ne-longer :
    (c d : ℕ) (s : Bytes)
    → ((j : Bytes) → (d ∷ s) ≢ j ++ b'\r' ∷ [])
    → (j : Bytes) → (c ∷ d ∷ s) ≢ j ++ b'\r' ∷ []
ne-longer c d s ne [] e = cc
ne-longer c d s ne (x ∷ j) e = ne j cc

ne-nil : (j : Bytes) → [] ≢ j ++ b'\r' ∷ []
ne-nil [] e = cc
ne-nil (x ∷ j) e = cc

ne-one : (c : ℕ) (j : Bytes) → (c == b'\r') ≡ false → (c ∷ []) ≢ j ++ b'\r' ∷ []
ne-one c [] q e = let same : c ≡ b'\r' = cc in absurd (ground arith)
ne-one c (x ∷ j) q e = ne-nil j cc

strip_return-Stripped : (l : Bytes) → Stripped l (strip_return l)
unfolding strip_return
strip_return-Stripped [] = no_return refl ne-nil
strip_return-Stripped (c ∷ []) = elim (Bool-cases (c == b'\r')) [
  | inl e ↦ let same : c ≡ b'\r' = ground arith in rw e (return_off (ap (λ x. x ∷ []) same))
  | inr e ↦ rw e (no_return refl (λ j. ne-one c j e))
]
strip_return-Stripped (c ∷ d ∷ s) = elim (strip_return-Stripped (d ∷ s)) [
  | return_off e ↦ return_off (ap (λ x. c ∷ x) e)
  | no_return e ne ↦ no_return (ap (λ x. c ∷ x) e) (ne-longer c d s ne)
]

all-Stripped : (ls : List Bytes) → AllStripped ls (map strip_return ls)
all-Stripped [] = none_left
all-Stripped (l ∷ ls) = next l (strip_return l) (strip_return-Stripped l) (all-Stripped ls)

-- Of complete lines and an unfinished one `extractLines` returns the complete lines in order, each
-- without one carriage return at its end if it has one there, and keeps the unfinished line as it is.
pub extract_lines-unlines :
    (ls : List Bytes) (rest : Bytes)
    → All IsLine ls
    → IsLine rest
    → (ks : List Bytes) × AllStripped ls ks
      × (extract_lines (record { buf = unlines ls ++ rest }) ≡ (ks, record { buf = rest }))
unfolding extract_lines
extract_lines-unlines ls rest hl hr = (
  map strip_return ls,
  all-Stripped ls,
  ap (λ x. (x.1, record { buf = x.0 }))
      (drain-unlines (λ l out. append (strip_return l) out) ls rest [] hl hr
        ∙ ap (λ x. (rest, x)) (append_all ls [])),
)
