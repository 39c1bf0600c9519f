-- ===== src/Transport/StreamBuffer/Laws.antt =====
-- The cutter of JSON texts is one: more input moves no text.
use mcpwatch.Base.{
  ℕ, suc, ◌<◌, ◌≤◌, ◌≡◌, refl, sym, ap, ◌∙◌, ◌⊎◌, ◌≢◌, inl, inr, Bool-cases, none, some,
  Option-cases, [], ◌∷◌, ◌++◌, Bytes, length, take, drop, arith,
}
use mcpwatch.Transport.Cutter.{IsCutter}
use mcpwatch.Transport.StreamBuffer.{
  is_opener, from_opener, Scan, scan_start, scan_byte, scan, cut_text, cut_json, json_cutter,
}

pub scan_stop : (sc : Scan) (b : ℕ) (s : Bytes) → scan_byte sc b ≡ none → scan sc (b ∷ s) ≡ some 1
unfolding scan
scan_stop sc b s e = rw (e, scan)

pub scan_go :
    (sc sc' : Scan) (b : ℕ) (s : Bytes) (n : ℕ)
    → scan_byte sc b ≡ some sc'
    → scan sc' s ≡ some n
    → scan sc (b ∷ s) ≡ some (suc n)
unfolding scan
scan_go sc sc' b s n e h = rw (e, scan) (rw h)

scan_cases :
    (sc : Scan) (b : ℕ) (s : Bytes) (n : ℕ)
    → scan sc (b ∷ s) ≡ some n
    → ((scan_byte sc b ≡ none) × (n ≡ 1))
      ⊎ ((sc' : Scan) × (k : ℕ) × (scan_byte sc b ≡ some sc') × (scan sc' s ≡ some k) × (n ≡ suc k))
unfolding scan
scan_cases sc b s n h = elim (Option-cases (scan_byte sc b)) [
  | inl e ↦ inl (e, ground arith)
  | inr (sc', e) ↦ elim (Option-cases (scan sc' s)) [
    | inl none' ↦ absurd (ground arith)
    | inr (k, e') ↦ inr (sc', k, e, e', ground arith)
  ]
]

scan-append :
    (sc : Scan) (s r : Bytes) (n : ℕ)
    → scan sc s ≡ some n
    → (scan sc (s ++ r) ≡ some n)
      × (take n (s ++ r) ≡ take n s)
      × (drop n (s ++ r) ≡ drop n s ++ r)
      × (length (drop n s) < length s)
scan-append sc [] r n e = absurd (unfold scan in cc)
scan-append sc (b ∷ s) r n e = elim (scan_cases sc b s n e) [
  | inl (stop, one) ↦ rw one (scan_stop sc b (s ++ r) stop, refl, refl, omega arith)
  | inr (sc', k, go, later, eq) ↦
      let (at, taken, dropped, less) = scan-append sc' s r k later in
      rw eq (scan_go sc sc' b (s ++ r) k go at, ap (◌∷◌ b) taken, dropped, omega arith)
]

pub from_opener-append : (a b : Bytes) → from_opener (a ++ b) ≡ from_opener (from_opener a ++ b)
unfolding from_opener
from_opener-append [] b = refl
from_opener-append (c ∷ a) b = elim (Bool-cases (is_opener c)) [
  | inl h ↦ rw h (rw h)
  | inr h ↦ rw h (from_opener-append a b)
]

from_opener-append_ne :
    (a b : Bytes) → from_opener a ≢ [] → from_opener (a ++ b) ≡ from_opener a ++ b
unfolding from_opener
from_opener-append_ne [] b h = absurd (h refl)
from_opener-append_ne (c ∷ a) b h = ground (arith, from_opener-append_ne a b)

length-from_opener-le : (a : Bytes) → length (from_opener a) ≤ length a
unfolding from_opener
length-from_opener-le [] = omega arith
length-from_opener-le (c ∷ a) = ground (arith, length-from_opener-le a)

cut_text-some :
    (d t r : Bytes)
    → cut_text d ≡ some (t, r)
    → (n : ℕ) × (scan scan_start d ≡ some n) × (t ≡ take n d) × (r ≡ drop n d)
unfolding cut_text
cut_text-some d t r e = elim (Option-cases (scan scan_start d)) [
  | inl h ↦ absurd (ground arith)
  | inr (n, h) ↦ (n, h, ground arith, ground arith)
]

pub cut_text-scan :
    (d : Bytes) (n : ℕ) → scan scan_start d ≡ some n → cut_text d ≡ some (take n d, drop n d)
unfolding cut_text
cut_text-scan d n e = rw (e, cut_text)

cut_text-append :
    (d b t r : Bytes)
    → cut_text d ≡ some (t, r)
    → (cut_text (d ++ b) ≡ some (t, r ++ b)) × (length r < length d)
cut_text-append d b t r e =
    let (n, at, et, er) = cut_text-some d t r e in
    let (at', taken, dropped, less) = scan-append scan_start d b n at in
    (cut_text-scan (d ++ b) n at' ∙ cc, rw er less)

cut_text-ne : (a t r : Bytes) → cut_text a ≡ some (t, r) → a ≢ []
unfolding cut_text scan
cut_text-ne [] t r e = absurd (ground arith)
cut_text-ne (c ∷ a) t r e = λ z. cc

pub json_cutter-IsCutter : IsCutter json_cutter
unfolding cut_json
json_cutter-IsCutter = record {
  shorter = λ a t r e.
      omega (arith, (cut_text-append (from_opener a) [] t r e).1, length-from_opener-le a);
  stable = λ a b t r e.
      rw (from_opener-append_ne a b (cut_text-ne (from_opener a) t r e))
        (cut_text-append (from_opener a) b t r e).0;
  cut-keep = λ a b e. ap cut_text (sym (from_opener-append a b));
  keep_shorter = length-from_opener-le;
  keep-keep = λ a b e. sym (from_opener-append a b);
}
