-- ===== src/App/Program/Empties.antt =====
-- A program that goes on: how the channel and the store's queue get empty.
use mcpwatch.Base.{
  lengths, ℕ, zero, suc, ◌+◌, ◌≤◌, ◌≡◌, ◌≢◌, refl, sym, ap, ◌∙◌, false, Option, none, some,
  some_inj, ◌>>=◌, List, [], ◌∷◌, ◌++◌, All, Bytes, length, length-eq_zero, Bool, arith,
}
use mcpwatch.Base.Float.{Float64}
use mcpwatch.Base.Channel.{IsBounded}
use mcpwatch.Engine.Message.{Message}
use mcpwatch.Engine.Json.{Codec}
use mcpwatch.Storage.Queue.{receives, drain_run, drain_step}
use mcpwatch.Storage.Queue.Delivers.{catch_up}
use mcpwatch.Server.Hub.Safety.{IsSound}
use mcpwatch.App.Loop.{
  received, context_done, store_receives, store_ticks, System, system_step, system_run, live_step,
}
use mcpwatch.App.Loop
use mcpwatch.App.Loop.Exchange.{messages_of, run-GoesOn, system_step-live}
use mcpwatch.App.Program.{Event, takes, context_ends, Program, program_step, program_run}
use mcpwatch.App.Program.Carries.{
  taken, loop_events, step-Carries, still-Carries, Carries-trans, next-step,
}
use mcpwatch.App.Program.Settles.{take_all, drain_all, Moves, list-goes_on}

module _ {ℓ} (fl : Float64) {F : Type 0} {S : Type ℓ} (codec : Codec F) (tracing : Bool)
    (encode : Message → Option Bytes) (flush : List Message → S → S) where
  abbrev pub run : List Event → Program fl S → Option (Program fl S)
  run = program_run fl codec tracing encode flush

  pub Carries-live :
      (ls : List Loop.Event) (new : List Message) (p q : Program fl S)
      → Moves fl codec tracing encode flush ls new p q
      → IsSound p.system.hub
      → p.system.returned ≡ false
      → All (λ e. e ≢ context_done) ls
      → q.system.returned ≡ false
  Carries-live ls new p q c v l ne =
      let (t, et, g) = run-GoesOn fl codec tracing encode flush ls p.system v l ne in
      ap (λ s. s.returned) (some_inj q.system t (sym c.looped ∙ et)) ∙ g.live

  -- A loop that goes on takes a message if there is one.
  taken-shorter :
      (items : List Message) (p : Program fl S) (n : ℕ)
      → p.system.returned ≡ false
      → length items ≤ suc n
      → length items ≤ n + length (messages_of (taken fl codec tracing encode flush items p))
  taken-shorter [] p n l h = omega arith
  taken-shorter (m ∷ ms) p n l h = rw (l) (omega (arith, h))

  pub take_all-empties :
      (n : ℕ) (p : Program fl S)
      → IsSound p.system.hub
      → IsBounded p.messages
      → p.system.returned ≡ false
      → length p.messages.items ≤ n
      → (q : Program fl S) × (run (take_all n) p ≡ some q)
        × Moves fl codec tracing encode flush
            (loop_events fl codec tracing encode flush (take_all n) p)
            []
            p
            q
        × (q.messages.items ≡ [])
  unfolding program_run program_step
  take_all-empties zero p v short l h = (
    p,
    refl,
    still-Carries fl codec tracing encode flush p v short,
    length-eq_zero p.messages.items h,
  )
  take_all-empties (suc n) p v short l h =
      let (q, eq, c) = step-Carries fl codec tracing encode flush takes p v short in
      let ls = taken fl codec tracing encode flush p.messages.items p in
      let on =
        Carries-live ls [] p q c v l
          (list-goes_on fl codec tracing encode flush p.messages.items p) in
      let less : length q.messages.items ≤ n =
        grind (lengths, taken-shorter p.messages.items p n l h, ap length c.kept) in
      let (r, er, d, empty) = take_all-empties n q c.sound c.bounded on less in
      (
        r,
        ap (λ o. o >>= run (take_all n)) eq ∙ er,
        rw (next-step fl codec tracing encode flush takes p q eq) (
            Carries-trans fl codec tracing encode flush ls
              (loop_events fl codec tracing encode flush (take_all n) q) [] [] p q r c d),
        empty,
      )

  pub take_all-goes_on : (n : ℕ) → All (λ e. e ≢ context_ends) (take_all n)
  take_all-goes_on zero = tt
  take_all-goes_on (suc n) = ((λ e. cc), take_all-goes_on n)

  -- The store's loop empties its queue, and the channel stays as it is.
  pub drain_all-runs :
      (n : ℕ) (p : Program fl S)
      → p.system.returned ≡ false
      → (q : Program fl S) × (run (drain_all n) p ≡ some q)
        × (q.messages ≡ p.messages)
        × (q.system.pipeline ≡ drain_run flush (catch_up n) p.system.pipeline)
  unfolding program_run program_step live_step drain_run
  drain_all-runs zero p l = (
    _,
    ap (λ o. (o >>= λ s. some (record p { system = s })) >>= run [])
        (system_step-live fl codec tracing encode flush store_ticks p.system l),
    refl,
    refl,
  )
  drain_all-runs (suc n) p l =
      let (q, e, same, drained) =
        drain_all-runs n
          (record p {
            system = record p.system { pipeline = drain_step flush receives p.system.pipeline };
          })
          l in
      (
        q,
        ap (λ o. (o >>= λ s. some (record p { system = s })) >>= run (drain_all n))
              (system_step-live fl codec tracing encode flush store_receives p.system l)
            ∙ e,
        same,
        drained,
      )

  bind-append :
      (o : Option (Program fl S)) (es fs : List Event)
      → ((p : Program fl S) → run (es ++ fs) p ≡ (run es p >>= run fs))
      → (o >>= run (es ++ fs)) ≡ ((o >>= run es) >>= run fs)
  bind-append none es fs h = refl
  bind-append (some p) es fs h = h p

  pub program_run-append :
      (es fs : List Event) (p : Program fl S) → run (es ++ fs) p ≡ (run es p >>= run fs)
  unfolding program_run
  program_run-append [] fs p = refl
  program_run-append (e ∷ es) fs p =
      bind-append (program_step fl codec tracing encode flush e p) es fs (program_run-append es fs)
