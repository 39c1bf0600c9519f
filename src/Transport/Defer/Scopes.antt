-- ===== src/Transport/Defer/Scopes.antt =====
-- Everything that a function opens is closed when it returns, on whichever path.
use mcpwatch.Base.{
  ◌≡◌, refl, ◌↔◌, inl, inr, true, Bool, Bool-cases, none, List, [], ◌∷◌, ◌++◌, Bytes,
}
use mcpwatch.Transport.Defer.{Call, opens, closes, Step, acquires, tries, defers, unwind, run_steps}

pub data Among {ℓ} {R : Type ℓ} (r : R) : List R → Type ℓ where
  here : {rs : List R} → Among r (r ∷ rs)
  there : {q : R} {rs : List R} → Among r rs → Among r (q ∷ rs)

-- Calls that start with `rs` open, the latest first, and end with nothing open. What is open is
-- closed in the reverse order; it may be closed once more before its turn.
pub data Unwinds {ℓ} {R : Type ℓ} : List R → List (Call R) → Type ℓ where
  ends : Unwinds [] []
  open_next :
      {rs : List R} {cs : List (Call R)} (r : R) → Unwinds (r ∷ rs) cs → Unwinds rs (opens r ∷ cs)
  close_last :
      {rs : List R} {cs : List (Call R)} (r : R) → Unwinds rs cs → Unwinds (r ∷ rs) (closes r ∷ cs)
  close_early :
      {rs : List R} {cs : List (Call R)} (r : R)
      → Among r rs
      → Unwinds rs cs
      → Unwinds rs (closes r ∷ cs)

module _ {ℓ} {R : Type ℓ} where
  pub unwind-Unwinds : (rs : List R) → Unwinds rs (unwind rs)
  unwind-Unwinds [] = Unwinds.ends
  unwind-Unwinds (r ∷ rs) = Unwinds.close_last r (unwind-Unwinds rs)

  -- Each call that opens a resource has the `defer` that closes it right behind it.
  pub data Paired : List (Step R) → Type ℓ where
    no_steps : Paired []
    pairs_next :
        {ss : List (Step R)} (r : R) (text : Bytes)
        → Paired ss
        → Paired (acquires r text ∷ defers r ∷ ss)
    tries_next : {ss : List (Step R)} (text : Bytes) → Paired ss → Paired (tries text ∷ ss)

  -- The deferred calls after the steps.
  abbrev pub after_steps : List (Step R) → List R → List R
  after_steps [] rs = rs
  after_steps (acquires r text ∷ ss) rs = after_steps ss rs
  after_steps (tries text ∷ ss) rs = after_steps ss rs
  after_steps (defers r ∷ ss) rs = after_steps ss (r ∷ rs)

  module _ (ok : Step R → Bool) (body : List (Call R)) where
    -- Every step that can fail is taken.
    abbrev pub Taken : List (Step R) → Type 0
    Taken [] = Unit
    Taken (acquires r text ∷ ss) = (ok (acquires r text) ≡ true) × Taken ss
    Taken (tries text ∷ ss) = (ok (tries text) ≡ true) × Taken ss
    Taken (defers r ∷ ss) = Taken ss

    -- Whichever step fails, the calls end with nothing open, if the body's do.
    pub run_steps-Unwinds :
        {ss : List (Step R)} (rs : List R)
        → Paired ss
        → Unwinds (after_steps ss rs) (body ++ unwind (after_steps ss rs))
        → Unwinds rs (run_steps ok body ss rs).calls
    unfolding run_steps
    run_steps-Unwinds rs Paired.no_steps u = u
    run_steps-Unwinds rs (Paired.pairs_next r text p) u = elim (Bool-cases (ok (acquires r text))) [
      | inl e ↦ rw e (Unwinds.open_next r (run_steps-Unwinds (r ∷ rs) p u))
      | inr e ↦ rw e (unwind-Unwinds rs)
    ]
    run_steps-Unwinds rs (Paired.tries_next text p) u = elim (Bool-cases (ok (tries text))) [
      | inl e ↦ rw e (run_steps-Unwinds rs p u)
      | inr e ↦ rw e (unwind-Unwinds rs)
    ]

    -- No error is returned exactly if no step fails.
    pub run_steps-none :
        (ss : List (Step R)) (rs : List R) → ((run_steps ok body ss rs).error ≡ none) ↔ Taken ss
    unfolding run_steps
    run_steps-none [] rs = (λ e. tt, λ a. refl)
    run_steps-none (acquires r text ∷ ss) rs = elim (Bool-cases (ok (acquires r text))) [
      | inl e ↦ rw e (λ q. (refl, (run_steps-none ss rs).0 q), λ a. (run_steps-none ss rs).1 a.1)
      | inr e ↦ rw e (λ q. cc, λ a. cc (a.0))
    ]
    run_steps-none (tries text ∷ ss) rs = elim (Bool-cases (ok (tries text))) [
      | inl e ↦ rw e (λ q. (refl, (run_steps-none ss rs).0 q), λ a. (run_steps-none ss rs).1 a.1)
      | inr e ↦ rw e (λ q. cc, λ a. cc (a.0))
    ]
    run_steps-none (defers r ∷ ss) rs = run_steps-none ss (r ∷ rs)
