-- ===== src/Transport/StreamBuffer/Balanced.antt =====
-- Balanced texts, and the scan over one of them.
use mcpwatch.Base.{
  lengths, ℕ, suc, ◌+◌, ◌≡◌, refl, ap, ◌∙◌, true, false, ◌||◌, none, some, [], ◌∷◌, ◌++◌,
  append_assoc, Bytes, length, ◌==◌, arith,
}
use mcpwatch.Base.Int.{pos}
use mcpwatch.Transport.StreamBuffer.{is_opener, is_closer, Scan, scan_start, scan_byte, scan}
use mcpwatch.Transport.StreamBuffer.Laws.{scan_stop, scan_go}

-- The inside of a string: a backslash takes the byte behind it along.
pub data Quoted : Bytes → Type 0 where
  nil : Quoted []
  byte : {c : ℕ} {q : Bytes} → (c == b'"' || c == b'\\') ≡ false → Quoted q → Quoted (c ∷ q)
  escaped : {c : ℕ} {q : Bytes} → Quoted q → Quoted (b'\\' ∷ c ∷ q)

-- The inside of a text: brackets come in pairs, and those in strings do not count.
pub data Body : Bytes → Type 0 where
  nil : Body []
  byte :
      {c : ℕ} {s : Bytes}
      → (is_opener c || is_closer c || c == b'"' || c == b'\\') ≡ false
      → Body s
      → Body (c ∷ s)
  quote : {q s : Bytes} → Quoted q → Body s → Body (b'"' ∷ (q ++ (b'"' ∷ s)))
  nest :
      {o : ℕ} {s r : Bytes} (c : ℕ)
      → is_opener o ≡ true
      → Body s
      → is_closer c ≡ true
      → Body r
      → Body (o ∷ (s ++ (c ∷ r)))

abbrev inside : ℕ → Scan
inside d = record { depth = pos (suc d); in_string = false; escape = false }

abbrev in_quotes : ℕ → Scan
in_quotes d = record { depth = pos (suc d); in_string = true; escape = false }

scan-Quoted :
    {q : Bytes} (d n : ℕ) (rest : Bytes)
    → Quoted q
    → scan (in_quotes d) rest ≡ some n
    → scan (in_quotes d) (q ++ rest) ≡ some (length q + n)
unfolding scan_byte
scan-Quoted d n rest Quoted.nil h = h ∙ ap some (omega arith)
scan-Quoted d n rest (Quoted.byte {c} {q} x t) h =
    scan_go _ (in_quotes d) c (q ++ rest) _ (ground arith) (scan-Quoted d n rest t h)
    ∙ ap some (omega arith)
scan-Quoted d n rest (Quoted.escaped {c} {q} t) h =
    scan_go _ _ b'\\' (c ∷ (q ++ rest)) _ refl
      (scan_go _ (in_quotes d) c (q ++ rest) _ refl (scan-Quoted d n rest t h))
    ∙ ap some (omega arith)

opener_byte : (d : ℕ) (o : ℕ) → is_opener o ≡ true → scan_byte (inside d) o ≡ some (inside (suc d))
unfolding scan_byte
opener_byte d o h = ground arith

closer_byte : (d : ℕ) (c : ℕ) → is_closer c ≡ true → scan_byte (inside (suc d)) c ≡ some (inside d)
unfolding scan_byte
closer_byte d c h = ground arith

plain_byte :
    (d c : ℕ)
    → (is_opener c || is_closer c || c == b'"' || c == b'\\') ≡ false
    → scan_byte (inside d) c ≡ some (inside d)
unfolding scan_byte
plain_byte d c h = ground arith

open_quote : (d : ℕ) → scan_byte (inside d) b'"' ≡ some (in_quotes d)
unfolding scan_byte
open_quote d = refl

close_quote : (d : ℕ) → scan_byte (in_quotes d) b'"' ≡ some (inside d)
unfolding scan_byte
close_quote d = refl

scan-Body :
    {s : Bytes} (d n : ℕ) (rest : Bytes)
    → Body s
    → scan (inside d) rest ≡ some n
    → scan (inside d) (s ++ rest) ≡ some (length s + n)
scan-Body d n rest Body.nil h = h ∙ ap some (omega arith)
scan-Body d n rest (Body.byte {c} {s} x t) h =
    scan_go _ (inside d) c (s ++ rest) _ (plain_byte d c x) (scan-Body d n rest t h)
    ∙ ap some (omega arith)
scan-Body d n rest (Body.quote {q} {s} x t) h =
    ap (λ z. scan (inside d) (b'"' ∷ z)) (append_assoc q (b'"' ∷ s) rest)
    ∙ scan_go _ (in_quotes d) b'"' (q ++ (b'"' ∷ (s ++ rest))) _ (open_quote d) (
        scan-Quoted d _ (b'"' ∷ (s ++ rest)) x
          (scan_go _ (inside d) b'"' (s ++ rest) _ (close_quote d) (scan-Body d n rest t h)))
    ∙ ap some (grind lengths)
scan-Body d n rest (Body.nest {o} {s} {r} c ho hs hc hr) h =
    ap (λ z. scan (inside d) (o ∷ z)) (append_assoc s (c ∷ r) rest)
    ∙ scan_go _ (inside (suc d)) o (s ++ (c ∷ (r ++ rest))) _ (opener_byte d o ho) (
        scan-Body (suc d) _ (c ∷ (r ++ rest)) hs
          (scan_go _ (inside d) c (r ++ rest) _ (closer_byte d c hc) (scan-Body d n rest hr h)))
    ∙ ap some (grind lengths)

-- A JSON text: an object or an array, as its brackets and strings show it.
pub data IsText : Bytes → Type 0 where
  text :
      {o : ℕ} {s : Bytes} (c : ℕ)
      → is_opener o ≡ true
      → Body s
      → is_closer c ≡ true
      → IsText (o ∷ (s ++ (c ∷ [])))

first_byte : (o : ℕ) → is_opener o ≡ true → scan_byte scan_start o ≡ some (inside 0)
unfolding scan_byte
first_byte o h = ground arith

last_byte : (c : ℕ) → is_closer c ≡ true → scan_byte (inside 0) c ≡ none
unfolding scan_byte
last_byte c h = ground arith

pub scan-IsText :
    {t : Bytes} (rest : Bytes) → IsText t → scan scan_start (t ++ rest) ≡ some (length t)
scan-IsText rest (text {o} {s} c ho hs hc) =
    ap (λ z. scan scan_start (o ∷ z)) (append_assoc s (c ∷ []) rest)
    ∙ scan_go _ (inside 0) o (s ++ (c ∷ rest)) _ (first_byte o ho)
        (scan-Body 0 1 (c ∷ rest) hs (scan_stop (inside 0) c rest (last_byte c hc)))
    ∙ ap some (grind lengths)
