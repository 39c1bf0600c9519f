-- ===== src/Storage/Query/Order.antt =====
-- The recent messages are the latest of all.
use mcpwatch.Base.{
  ℕ, zero, suc, ◌-◌, ◌<◌, ◌≡◌, refl, sym, ap, ◌∙◌, inl, inr, true, false, Bool-cases, Option, none,
  some, Option-cases, List, [], ◌∷◌, ◌++◌, reverse, reverse-cons, append_assoc, append-nil, Bytes,
  take, length, length-append, arith,
}
use mcpwatch.Base.Int.{pos}
use mcpwatch.Base.Float.{Float64}
use mcpwatch.Engine.Message.{Message}
use mcpwatch.Storage.Flush.{Badger, Coding, Store}
use mcpwatch.Storage.Query.{enough, scan_all, scan_recent, message_prefix, query_all, query_recent}

take_nil {ℓ} : {A : Type ℓ} (n : ℕ) → take {A = A} n [] ≡ []
take_nil zero = refl
take_nil (suc n) = refl

-- A message is added to `out`, and the loop stops or goes on to `rest`.
found-take :
    (limit : ℕ) (m : Message) (out ds rest : List Message)
    → length out < limit
    → (length (out ++ m ∷ []) < limit
        → rest ≡ (out ++ m ∷ []) ++ take (limit - length (out ++ m ∷ [])) ds)
    → elim (enough (pos limit) (out ++ m ∷ [])) [ true ↦ out ++ m ∷ [] | false ↦ rest ]
      ≡ out ++ take (limit - length out) (m ∷ ds)
found-take limit m out ds rest h go =
    let longer = length-append out (m ∷ []) in
    let left : limit - length out ≡ suc (limit - length (out ++ m ∷ [])) = omega (arith, longer) in
    elim (Bool-cases (enough (pos limit) (out ++ m ∷ []))) [
      | inr less ↦
          rw (less, left)
            (go (ground arith)
              ∙ append_assoc out (m ∷ []) (take (limit - length (out ++ m ∷ [])) ds))
      | inl full ↦
          let last : limit - length (out ++ m ∷ []) ≡ 0 = ground arith in rw (full, left, last)
    ]

module _ (decode : Bytes → Option Message) where
  -- The messages of the entries that can be decoded.
  abbrev pub decoded : List (Bytes × Bytes) → List Message
  decoded [] = []
  decoded ((k, v) ∷ es) = elim (decode v) [ none ↦ decoded es | some m ↦ m ∷ decoded es ]

  pub scan_all-decoded :
      (es : List (Bytes × Bytes)) (out : List Message) → scan_all decode es out ≡ out ++ decoded es
  unfolding scan_all
  scan_all-decoded [] out = sym (append-nil out)
  scan_all-decoded ((k, v) ∷ es) out = elim (Option-cases (decode v)) [
    | inl e ↦ rw (e, scan_all, decoded) (scan_all-decoded es out)
    | inr (m, e) ↦
        rw (e, scan_all, decoded)
          (scan_all-decoded es (out ++ m ∷ []) ∙ append_assoc out (m ∷ []) (decoded es))
  ]

  -- While the limit is not reached, the loop takes what is missing.
  scan_recent-take :
      (limit : ℕ) (es : List (Bytes × Bytes)) (out : List Message)
      → length out < limit
      → scan_recent decode (pos limit) es out ≡ out ++ take (limit - length out) (decoded es)
  unfolding scan_recent
  scan_recent-take limit [] out h =
      sym (ap (λ x. out ++ x) (take_nil (limit - length out)) ∙ append-nil out)
  scan_recent-take limit ((k, v) ∷ es) out h = elim (Option-cases (decode v)) [
    | inl e ↦ rw (e, scan_recent, decoded) (scan_recent-take limit es out h)
    | inr (m, e) ↦
        rw (e, scan_recent, decoded)
          (found-take limit m out (decoded es) _ h
            (λ more. scan_recent-take limit es (out ++ m ∷ []) more))
  ]

  decoded-append : (es fs : List (Bytes × Bytes)) → decoded (es ++ fs) ≡ decoded es ++ decoded fs
  decoded-append [] fs = refl
  decoded-append ((k, v) ∷ es) fs = elim (Option-cases (decode v)) [
    | inl e ↦ rw (e, decoded) (decoded-append es fs)
    | inr (m, e) ↦ rw (e, decoded) (ap (◌∷◌ m) (decoded-append es fs))
  ]

  decoded-reverse : (es : List (Bytes × Bytes)) → decoded (reverse es) ≡ reverse (decoded es)
  decoded-reverse [] = refl
  decoded-reverse ((k, v) ∷ es) =
      ap decoded (reverse-cons (k, v) es)
      ∙ decoded-append (reverse es) ((k, v) ∷ [])
      ∙ elim (Option-cases (decode v)) [
        | inl e ↦ rw (e, decoded) (append-nil (decoded (reverse es)) ∙ decoded-reverse es)
        | inr (m, e) ↦
            rw (e, decoded)
              (ap (λ x. x ++ m ∷ []) (decoded-reverse es) ∙ sym (reverse-cons m (decoded es)))
      ]

-- What BadgerDB says of its iterators: backwards they give the same entries in reverse.
abbrev pub Reverses : (b : Badger) → Bytes → Type 0
Reverses b prefix = (d : b.D) → b.pairs_reversed prefix d ≡ reverse (b.pairs prefix d)

module _ (fl : Float64) (b : Badger) (coding : Coding fl) where
  open coding use {message_from}

  -- With a limit above zero `QueryRecent` returns the latest messages of those that `QueryAll`
  -- returns, the latest first, and as many as the limit allows; what cannot be decoded does not
  -- count.
  pub query_recent-take :
      (limit : ℕ) (s : Store fl b coding)
      → Reverses b (message_prefix fl b coding)
      → 0 < limit
      → query_recent fl b coding (pos limit) s ≡ take limit (reverse (query_all fl b coding s))
  unfolding query_recent query_all
  query_recent-take limit s backwards h =
      let prefix = message_prefix fl b coding in
      let whole : limit - 0 ≡ limit = omega arith in
      scan_recent-take message_from limit (b.pairs_reversed prefix s.db) [] h
      ∙ ap (λ n. take n (decoded message_from (b.pairs_reversed prefix s.db))) whole
      ∙ ap (λ x. take limit (decoded message_from x)) (backwards s.db)
      ∙ ap (take limit) (decoded-reverse message_from (b.pairs prefix s.db))
      ∙ ap (λ x. take limit (reverse x))
          (sym (scan_all-decoded message_from (b.pairs prefix s.db) []))
