-- ===== src/Transport/Defer.antt =====
-- What the handlers share when they open resources: calls are deferred, and a step that fails returns
-- from the function, which runs the deferred calls.
pub mod Scopes
use mcpwatch.Base.{Bool, Option, none, some, List, [], ◌∷◌, ◌++◌, Bytes, if◌then◌else◌}

pub data Call {ℓ} (R : Type ℓ) : Type ℓ where
  opens closes : R → Call R

-- A call that opens a resource, a call that only can fail, each with the text that goes before its
-- error, and a `defer` of the call that closes a resource.
pub data Step {ℓ} (R : Type ℓ) : Type ℓ where
  acquires : R → Bytes → Step R
  tries : Bytes → Step R
  defers : R → Step R

-- A function's calls, and the text before its error if it returns one.
pub record Returned {ℓ} (R : Type ℓ) : Type ℓ where
  pub calls : List (Call R)
  pub error : Option Bytes

module _ {ℓ} {R : Type ℓ} where
  -- The deferred calls, the last one first.
  abbrev pub unwind : List R → List (Call R)
  unwind [] = []
  unwind (r ∷ rs) = closes r ∷ unwind rs

  abbrev pub opened : R → Returned R → Returned R
  opened r x = record x { calls = opens r ∷ x.calls }

  module _ (ok : Step R → Bool) (body : List (Call R)) where
    -- The steps one after another, and the body after them, with the calls that are deferred.
    unfoldable pub run_steps : List (Step R) → List R → Returned R
    run_steps [] rs = record { calls = body ++ unwind rs; error = none }
    run_steps (acquires r text ∷ ss) rs =
        if ok (acquires r text)
        then opened r (run_steps ss rs)
        else record { calls = unwind rs; error = some text }
    run_steps (defers r ∷ ss) rs = run_steps ss (r ∷ rs)
    run_steps (tries text ∷ ss) rs =
        let rest = run_steps ss rs in
        if ok (tries text) then rest else record { calls = unwind rs; error = some text }
