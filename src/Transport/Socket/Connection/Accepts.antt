-- ===== src/Transport/Socket/Connection/Accepts.antt =====
-- The loop over the connections, and what `Start` has closed when it returns.
use mcpwatch.Base.{◌≡◌, refl, ap, Bool, true, List, [], ◌∷◌, ◌++◌}
use mcpwatch.Transport.Defer.{closes}
use mcpwatch.Transport.Defer.Scopes.{
  Unwinds, Among, pairs_next, no_steps, run_steps-Unwinds, unwind-Unwinds,
}
use mcpwatch.Transport.Socket.Connection.{
  listener, Accepted, connection, accept_failed, accept_stopped, accept_loop, start_socket,
}

-- Answers before the context is done, and the connections among them.
pub data Answers {C : Type 0} : List (Accepted C) → List C → Type 0 where
  nothing : Answers [] []
  accepts :
      {xs : List (Accepted C)} {cs : List C} (c : C)
      → Answers xs cs
      → Answers (connection c ∷ xs) (c ∷ cs)
  fails : {xs : List (Accepted C)} {cs : List C} → Answers xs cs → Answers (accept_failed ∷ xs) cs

-- Every connection gets its goroutine, in order, a failed call of Accept ends nothing, and the loop
-- returns when the context is done.
accept_loop-stops :
    {C : Type 0} {xs : List (Accepted C)} {cs : List C} (more : List (Accepted C))
    → Answers xs cs
    → accept_loop (xs ++ accept_stopped ∷ more) ≡ (cs, true)
unfolding accept_loop
accept_loop-stops more Answers.nothing = refl
accept_loop-stops more (Answers.accepts c a) = ap (λ o. (c ∷ o.0, o.1)) (accept_loop-stops more a)
accept_loop-stops more (Answers.fails a) = accept_loop-stops more a

-- The listener is closed on both paths.
start_socket-Unwinds : (listens : Bool) → Unwinds [] (start_socket listens).calls
unfolding start_socket
start_socket-Unwinds listens =
    run_steps-Unwinds (λ _. listens) (closes listener ∷ []) [] (pairs_next listener _ no_steps)
      (Unwinds.close_early listener Among.here (unwind-Unwinds (listener ∷ [])))
