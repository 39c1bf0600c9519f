-- ===== src/Transport/StreamBuffer/Complete.antt =====
-- Every balanced text of the stream is cut out whole, wherever the chunks end.
use mcpwatch.Base.{
  ◌≡◌, refl, ap, ◌∙◌, none, some, List, [], ◌∷◌, ◌++◌, append_assoc, append-nil, map, Bytes, length,
  take, drop, All, arith,
}
use mcpwatch.Transport.Cutter.{
  drain, drain-cut, drain-keep, joined, drain_chunks, drain_chunks-drain,
}
use mcpwatch.Transport.StreamBuffer.{
  from_opener, scan, cut_text, cut_json, json_cutter, append, extract_json,
}
use mcpwatch.Transport.StreamBuffer.Laws.{cut_text-scan, from_opener-append, json_cutter-IsCutter}
use mcpwatch.Transport.StreamBuffer.Balanced.{IsText, text, scan-IsText}

take-length :
    (t rest : Bytes) → (take (length t) (t ++ rest) ≡ t) × (drop (length t) (t ++ rest) ≡ rest)
take-length [] rest = (refl, refl)
take-length (x ∷ t) rest = let (a, b) = take-length t rest in (ap (◌∷◌ x) a, b)

-- Bytes with no opener in front of a text.
abbrev pub IsNoise : Bytes → Type 0
IsNoise s = from_opener s ≡ []

from_opener-noise : (s t : Bytes) → IsNoise s → from_opener (s ++ t) ≡ from_opener t
from_opener-noise s t h = from_opener-append s t ∙ ap (λ x. from_opener (x ++ t)) h

from_opener-IsText : {t : Bytes} (rest : Bytes) → IsText t → from_opener (t ++ rest) ≡ t ++ rest
unfolding from_opener
from_opener-IsText rest (text c ho hs hc) = ground arith

cut_json-text :
    (noise t rest : Bytes)
    → IsNoise noise
    → IsText t
    → cut_json (noise ++ (t ++ rest)) ≡ some (t, rest)
unfolding cut_json
cut_json-text noise t rest hn ht =
    let (taken, dropped) = take-length t rest in
    ap cut_text (from_opener-noise noise (t ++ rest) hn ∙ from_opener-IsText rest ht)
    ∙ cut_text-scan (t ++ rest) (length t) (scan-IsText rest ht)
    ∙ cc

-- Texts, each behind bytes that belong to none.
abbrev pub stream : List (Bytes × Bytes) → Bytes → Bytes
stream [] rest = rest
stream ((noise, t) ∷ fs) rest = noise ++ (t ++ stream fs rest)

abbrev pub IsFrame : Bytes × Bytes → Type 0
IsFrame (noise, t) = IsNoise noise × IsText t

abbrev pub texts : List (Bytes × Bytes) → List Bytes
texts = map (λ f. f.1)

pub drain-stream :
    (fs : List (Bytes × Bytes)) (rest : Bytes) (out : List Bytes)
    → All IsFrame fs
    → cut_json rest ≡ none
    → drain json_cutter append (stream fs rest) out ≡ (from_opener rest, out ++ texts fs)
drain-stream [] rest out h e =
    drain-keep json_cutter append json_cutter-IsCutter rest out e ∙ rw append-nil
drain-stream ((noise, t) ∷ fs) rest out h e =
    drain-cut json_cutter append json_cutter-IsCutter _ t (stream fs rest) out
      (cut_json-text noise t (stream fs rest) h.0.0 h.0.1)
    ∙ drain-stream fs rest (out ++ t ∷ []) h.1 e
    ∙ ap (λ z. (from_opener rest, z)) (append_assoc out (t ∷ []) (texts fs))

-- From a stream of complete texts, with noise between them and an unfinished rest, `extractJSON`
-- returns the texts in order, and keeps the rest from its first opener on.
pub extract_json-stream :
    (fs : List (Bytes × Bytes)) (rest : Bytes)
    → All IsFrame fs
    → cut_json rest ≡ none
    → extract_json (record { buf = stream fs rest }) ≡ (texts fs, record { buf = from_opener rest })
unfolding extract_json
extract_json-stream fs rest h e = rw (drain-stream fs rest [] h e)

pub IsDrained-nil : (cut_json [] ≡ none) × (from_opener [] ≡ [])
unfolding cut_json cut_text scan from_opener
IsDrained-nil = (refl, refl)

-- So it does when the stream comes in chunks and the texts are cut out after each of them.
pub extract_json-chunks :
    (fs : List (Bytes × Bytes)) (rest : Bytes) (ps : List Bytes)
    → All IsFrame fs
    → cut_json rest ≡ none
    → joined ps ≡ stream fs rest
    → drain_chunks json_cutter append ps [] [] ≡ (from_opener rest, texts fs)
extract_json-chunks fs rest ps h e j =
    drain_chunks-drain json_cutter append json_cutter-IsCutter ps [] [] IsDrained-nil
    ∙ ap (λ x. drain json_cutter append x []) j
    ∙ drain-stream fs rest [] h e
