-- ===== src/Server/Hub/Order/Runs.antt =====
-- Runs in which Go lists the map of clients in a new order before each step.
use mcpwatch.Base.{
  ◌>>=◌, ℕ, ◌+◌, ◌≡◌, refl, sym, ap, ◌∙◌, inl, inr, true, false, Bool-cases, some, some_inj, List,
  [], ◌∷◌, length, ◌==◌, arith, if◌then◌else◌,
}
use mcpwatch.Server.Hub.{Hub, member, delete, Action, step, run, client_count}
use mcpwatch.Server.Hub.Safety.{IsSound, Distinct, step-IsSound, Distinct-delete, member-delete}
use mcpwatch.Server.Hub.Order.{SameView, SameView-refl, SameView-sym, SameView-trans}
use mcpwatch.Server.Hub.Order.Steps.{moved, step-moved, moved-SameView}

length-delete :
    (c : ℕ) (ds : List ℕ)
    → Distinct ds
    → length (delete c ds) + (if member c ds then 1 else 0) ≡ length ds
unfolding member delete
length-delete c [] u = omega arith
length-delete c (d ∷ ds) u = elim (Bool-cases (d == c)) [
  | inl e ↦
      let same : d ≡ c = ground arith in
      let missing : member c ds ≡ false = ap (λ x. member x ds) (sym same) ∙ u.0 in
      ground (arith, length-delete c ds u.1, missing)
  | inr e ↦ ground (arith, length-delete c ds u.1)
]

-- Two listings of the same keys are of the same length.
length-members :
    (cs ds : List ℕ)
    → Distinct cs
    → Distinct ds
    → ((x : ℕ) → member x cs ≡ member x ds)
    → length cs ≡ length ds
unfolding member
length-members [] [] u v same = refl
length-members [] (d ∷ ds) u v same = let e = same d in absurd (ground arith)
length-members (c ∷ cs) ds u v same =
    let here : member c ds ≡ true = ground (arith, same c) in
    let rest =
      length-members cs (delete c ds) u.1 (Distinct-delete c ds v)
        (λ x. ground (arith, same x, member-delete x c ds, u.0)) in
    ground (arith, rest, length-delete c ds v, here)

listed-IsSound : (h k : Hub) → IsSound h → SameView h k → Distinct k.clients → IsSound k
listed-IsSound h k v s u = record {
  distinct = u;
  opened = λ c m.
      let (o, less) = v.opened c (s.members c ∙ m) in
      (ap (λ ch. ch.closed) (sym (s.channels c)) ∙ o, omega (arith, less, s.next));
  bounded = λ c. omega (arith, ap (λ ch. length ch.queue) (s.channels c), v.bounded c);
}

-- A run that lists the keys of the map anew before each step, each key once.
pub data AnyOrder : List Action → Hub → Hub → Type 0 where
  ended : (h : Hub) → AnyOrder [] h h
  acts :
      {as' : List Action} {h h' : Hub} (a : Action) (k k' : Hub)
      → SameView h k
      → Distinct k.clients
      → step a k ≡ some k'
      → AnyOrder as' k' h'
      → AnyOrder (a ∷ as') h h'

ordered-run :
    (as' : List Action) (h l h' : Hub)
    → IsSound h
    → IsSound l
    → SameView h l
    → AnyOrder as' h h'
    → (k : Hub) × (run as' l ≡ some k) × SameView h' k × (client_count h' ≡ client_count k)
unfolding run client_count
ordered-run [] h l _ v w s (ended _) =
    (l, refl, s, length-members h.clients l.clients v.distinct w.distinct s.members)
ordered-run (a ∷ as') h l h' v w s (acts _ k k' t u e r) =
    let x = listed-IsSound h k v t u in
    let same = some_inj k' (moved a k) (sym e ∙ step-moved a k x) in
    let kl = SameView-trans k h l (SameView-sym h k t) s in
    let next : SameView k' (moved a l) = rw (same) (moved-SameView a k l x w kl) in
    let to_l = step-moved a l w in
    let (m, em, sm, cm) =
      ordered-run as' k' (moved a l) h' (step-IsSound a k k' x e)
        (step-IsSound a l (moved a l) w to_l) next r in
    (m, ap (λ o. o >>= run as') to_l ∙ em, sm, cm)

-- Go goes through a map in an order that it chooses anew each time. For clients that makes no
-- difference: whatever order the keys are listed in before each step of a run from a sound hub, the
-- run ends with the same clients in the map, the same channels and the same goroutines that are to
-- remove a client as a run that keeps the order.
pub AnyOrder-run :
    (as' : List Action) (h h' : Hub)
    → IsSound h
    → AnyOrder as' h h'
    → (k : Hub) × (run as' h ≡ some k) × SameView h' k × (client_count h' ≡ client_count k)
AnyOrder-run as' h h' v r = ordered-run as' h h h' v v (SameView-refl h) r
