-- ===== src/Transport/Lines/Unlines.antt =====
-- Lines joined with their newlines.
use mcpwatch.Base.{
  ℕ, zero, suc, ◌≤◌, ◌≡◌, refl, sym, ap, ◌∙◌, some, List, [], ◌∷◌, ◌++◌, append_assoc, Bytes,
  length, take, All, arith,
}
use mcpwatch.Transport.Lines.{index_byte, index_byte-line, unlines, IsLine}

pub take-short : (n : ℕ) (x : Bytes) → length x ≤ n → take n x ≡ x
take-short zero [] h = refl
take-short zero (c ∷ x) h = absurd (omega arith)
take-short (suc n) [] h = refl
take-short (suc n) (c ∷ x) h = ap (◌∷◌ c) (take-short n x (omega arith))

pub take-append : (x y : Bytes) → take (length x) (x ++ y) ≡ x
take-append [] y = refl
take-append (c ∷ x) y = ap (◌∷◌ c) (take-append x y)

pub unlines-append : (ks ls : List Bytes) → unlines (ks ++ ls) ≡ unlines ks ++ unlines ls
unlines-append [] ls = refl
unlines-append (k ∷ ks) ls =
    ap (λ x. k ++ (b'\n' ∷ x)) (unlines-append ks ls)
    ∙ sym (append_assoc k (b'\n' ∷ unlines ks) (unlines ls))

pub nil-IsLine : IsLine []
unfolding index_byte
nil-IsLine = refl

-- The first newline behind a line.
pub index_byte-unlines :
    (l : Bytes) (ls : List Bytes) (x : Bytes)
    → IsLine l
    → index_byte b'\n' (unlines (l ∷ ls) ++ x) ≡ some (length l)
index_byte-unlines l ls x h =
    ap (index_byte b'\n') (append_assoc l (b'\n' ∷ unlines ls) x)
    ∙ (index_byte-line l (unlines ls ++ x) h).0

pub line-unlines :
    (b : Bytes) (ls : List Bytes) (x : Bytes)
    → IsLine b
    → b ≡ unlines ls ++ x
    → All IsLine ls
    → ls ≡ []
line-unlines b [] x hb e hl = refl
line-unlines b (l ∷ ls) x hb e hl =
    absurd (cc (hb, ap (index_byte b'\n') e, index_byte-unlines l ls x hl.0))
