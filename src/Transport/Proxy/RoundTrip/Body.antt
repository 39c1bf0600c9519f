-- ===== src/Transport/Proxy/RoundTrip/Body.antt =====
-- The request's body on its way to the server.
use mcpwatch.Base.{
  ℕ, zero, suc, ◌+◌, ◌<◌, ◌≤◌, ◌≡◌, refl, ap, ◌∙◌, inl, inr, false, none, some, List, [], ◌∷◌, ◌++◌,
  append-nil, Bytes, codes, take, drop, take-append-drop, foldl, length, length-append, All,
  is_empty, if◌then◌else◌, arith,
}
use mcpwatch.Engine.Parser.{Parser}
use mcpwatch.Transport.Cutter.{joined}
use mcpwatch.Transport.Lines.{unlines, IsLine}
use mcpwatch.Transport.Proxy.{
  limit, proxy_type, Interceptor, ReadResult, is_eof, body_line, read_with, read_all,
}
use mcpwatch.Transport.Proxy.Laws.{
  chunks, Continues, read_with-limit, length-read_with, read_all-lines,
}
use mcpwatch.Transport.Proxy.RoundTrip.{interceptor_of, reads, results}
use mcpwatch.Transport.Wire.{eof, Wire}

abbrev pub at_eof : ReadResult
at_eof = record { bytes = []; err = some eof }

goes_on : is_eof none ≡ false
unfolding is_eof
goes_on = refl

length-drop-le {ℓ} : {A : Type ℓ} (n : ℕ) (s : List A) → length (drop n s) ≤ length s
length-drop-le zero s = omega arith
length-drop-le (suc n) [] = omega arith
length-drop-le (suc n) (x ∷ s) = omega (arith, length-drop-le n s)

abbrev Positive : ℕ → Type 0
Positive n = 0 < n

-- More reads than the body has bytes come to its end, and give all of it.
reads_end :
    (ns : List ℕ) (body : Bytes)
    → All Positive ns
    → length body < length ns
    → (rs : List ReadResult) × (reads ns body ≡ rs ++ at_eof ∷ [])
      × (joined (chunks rs) ≡ body)
      × All Continues rs
unfolding reads
reads_end [] body p h = absurd (omega arith)
reads_end (zero ∷ ns) body p h = absurd (omega (arith, p.0))
reads_end (suc n ∷ ns) [] p h = ([], refl, refl, tt)
reads_end (suc n ∷ ns) (b ∷ body) p h =
    let (rs, e, j, c) = reads_end ns (drop n body) p.1 (omega (arith, length-drop-le n body)) in
    (
      record { bytes = b ∷ take n body; err = none } ∷ rs,
      ap (◌∷◌ (record { bytes = b ∷ take n body; err = none })) e,
      ap (λ x. b ∷ (take n body ++ x)) j ∙ ap (◌∷◌ b) (take-append-drop n body),
      (goes_on, c),
    )

joined_end : (rs : List ReadResult) → joined (chunks (rs ++ at_eof ∷ [])) ≡ joined (chunks rs)
joined_end [] = refl
joined_end (r ∷ rs) = ap (λ x. r.bytes ++ x) (joined_end rs)

module _ (line : Bytes → Bytes → Bytes → Wire → Wire) where
  -- Within the limit the reads pass on what the body gives.
  results-reads :
      (rs : List ReadResult) (s : Interceptor) (w : Wire)
      → length s.buf + length (joined (chunks rs)) ≤ limit
      → results line rs s w ≡ rs
  unfolding results
  results-reads [] s w fits = refl
  results-reads (r ∷ rs) s w fits =
      let more = joined (chunks rs) in
      let whole = length-append r.bytes more in
      let (inside, answer) = read_with-limit line r s w (omega arith) in
      let passed : (read_with line r s w).0 ≡ r = elim answer [
        | inl same ↦ same
        | inr over ↦ absurd (omega (arith, over.1, whole))
      ] in
      ap (λ q. q ∷ results line rs (read_with line r s w).1 (read_with line r s w).2) passed
      ∙ ap (◌∷◌ r) (
          results-reads rs (read_with line r s w).1 (read_with line r s w).2
            (omega (arith, length-read_with line r s w, whole)))

-- A request's body within the limit reaches the server whole, in whatever slices it is read, and
-- its lines are delivered as messages of the client, in order and each once, the last one also
-- where no newline ends it.
pub reads-lines :
    (parser : Parser) (ns : List ℕ) (body : Bytes) (w : Wire) (ls : List Bytes) (rest : Bytes)
    → All Positive ns
    → length body < length ns
    → length body ≤ limit
    → body ≡ unlines ls ++ rest
    → All IsLine ls
    → IsLine rest
    → let s = interceptor_of (codes "IN") in
      let handle = λ (l : Bytes) (v : Wire). body_line parser (codes "IN") proxy_type l v in
      let w' = foldl (λ v l. handle l v) w ls in
      (joined (chunks (results (body_line parser) (reads ns body) s w)) ≡ body)
      × (read_all (body_line parser) (reads ns body) s w
          ≡ (s, if is_empty rest then w' else handle rest w'))
reads-lines parser ns body w ls rest p enough fits text hl hr =
    let s = interceptor_of (codes "IN") in
    let line = body_line parser in
    let (rs, e, j, c) = reads_end ns body p enough in
    let all : joined (chunks rs) ++ [] ≡ body = append-nil _ ∙ j in
    let ends : joined (chunks (rs ++ at_eof ∷ [])) ≡ body = joined_end rs ∙ j in
    let kept = ap (λ x. joined (chunks x)) e ∙ ends in
    (
      ap (λ x. joined (chunks x))
            (results-reads line (reads ns body) s w (omega (arith, ap length kept, fits)))
          ∙ kept,
      ap (λ x. read_all line x s w) e
          ∙ read_all-lines line rs at_eof s w ls rest refl (omega (arith, ap length all, fits)) c
              refl (all ∙ text) hl hr,
    )
