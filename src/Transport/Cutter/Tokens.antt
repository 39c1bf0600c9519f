-- ===== src/Transport/Cutter/Tokens.antt =====
-- The tokens of a text and what is left behind them, as the loop finds them.
use mcpwatch.Base.{
  ◌≡◌, sym, ap, ◌∙◌, List, [], ◌∷◌, ◌++◌, foldl, foldl-append, append_assoc, append-nil, Bytes,
}
use mcpwatch.Transport.Cutter.{Cutter, IsCutter, drain, drain-map, drain-append}

abbrev pub keep_token : Bytes → List Bytes → List Bytes
keep_token t ts = ts ++ t ∷ []

pub foldl_keep : (ts acc : List Bytes) → foldl (λ s t. keep_token t s) acc ts ≡ acc ++ ts
foldl_keep [] acc = sym (append-nil acc)
foldl_keep (t ∷ ts) acc = foldl_keep ts (acc ++ t ∷ []) ∙ append_assoc acc (t ∷ []) ts

module _ (k : Cutter) where
  -- The rest, and the tokens.
  abbrev pub split : Bytes → Bytes × List Bytes
  split x = drain k keep_token x []

  -- A loop handles the tokens in order and keeps the rest.
  pub drain-split {ℓ} :
      {S : Type ℓ} (f : Bytes → S → S) (x : Bytes) (s : S)
      → drain k f x s ≡ ((split x).0, foldl (λ t l. f l t) s (split x).1)
  drain-split f x s =
      drain-map k keep_token f (foldl (λ t l. f l t) s)
        (λ t acc. foldl-append (λ t l. f l t) s acc (t ∷ [])) x []

  -- The tokens of a text that goes on are those of its beginning and then the others.
  pub split-append :
      IsCutter k
      → (a b : Bytes)
      → split (a ++ b) ≡ ((split ((split a).0 ++ b)).0, (split a).1 ++ (split ((split a).0 ++ b)).1)
  split-append laws a b =
      let x = split ((split a).0 ++ b) in
      drain-append k keep_token laws a b []
      ∙ drain-split keep_token ((split a).0 ++ b) (split a).1
      ∙ ap (λ ts. (x.0, ts)) (foldl_keep x.1 (split a).1)
