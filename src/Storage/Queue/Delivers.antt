-- ===== src/Storage/Queue/Delivers.antt =====
-- What waits gets to the database.
use mcpwatch.Base.{
  ℕ, zero, suc, ◌≤◌, ◌<◌, ◌≡◌, refl, sym, ap, ◌∙◌, inl, inr, Bool-cases, List, [], ◌∷◌, ◌++◌,
  append-nil, foldl, length, length-eq_zero, All, leb, arith,
}
use mcpwatch.Engine.Message.{Message}
use mcpwatch.Storage.Queue.{
  batch_size, Pipeline, Event, receives, ticks, receive_from, tick_from, drain_step, drain_run,
}
use mcpwatch.Storage.Queue.Batches.{joined, IsBatch, waiting, added, accepted, drain_run-Flushes}

-- So many receptions, and the ticker.
abbrev pub catch_up : ℕ → List Event
catch_up zero = ticks ∷ []
catch_up (suc n) = receives ∷ catch_up n

module _ {ℓ} {S : Type ℓ} (flush : List Message → S → S) where
  receive-items :
      (items : List Message) (p : Pipeline S) (n : ℕ)
      → p.queue.items ≡ items
      → length items ≤ suc n
      → length (receive_from flush items p).queue.items ≤ n
  unfolding receive_from
  receive-items [] p n e h = omega (arith, ap length e)
  receive-items (m ∷ ms) p n e h = elim (Bool-cases (leb batch_size (length (p.batch ++ m ∷ [])))) [
    | inl full ↦ rw full (omega arith)
    | inr short ↦ rw short (omega arith)
  ]

  tick-empty :
      (batch : List Message) (p : Pipeline S)
      → p.batch ≡ batch
      → length p.queue.items ≤ 0
      → waiting flush (tick_from flush batch p) ≡ []
  unfolding tick_from
  tick-empty [] p e h = ap (λ b. b ++ p.queue.items) e ∙ length-eq_zero p.queue.items h
  tick-empty (m ∷ ms) p e h = length-eq_zero p.queue.items h

  catch_up-empty :
      (n : ℕ) (p : Pipeline S)
      → length p.queue.items ≤ n
      → waiting flush (drain_run flush (catch_up n) p) ≡ []
  unfolding drain_run drain_step
  catch_up-empty zero p h = tick-empty p.batch p refl h
  catch_up-empty (suc n) p h =
      catch_up-empty n (receive_from flush p.queue.items p) (receive-items p.queue.items p n refl h)

  pub drain_run-append :
      (es fs : List Event) (p : Pipeline S)
      → drain_run flush (es ++ fs) p ≡ drain_run flush fs (drain_run flush es p)
  unfolding drain_run
  drain_run-append [] fs p = refl
  drain_run-append (e ∷ es) fs p = drain_run-append es fs (drain_step flush e p)

  accepted-catch_up : (n : ℕ) (p : Pipeline S) → accepted flush (catch_up n) p ≡ []
  accepted-catch_up zero p = refl
  accepted-catch_up (suc n) p = accepted-catch_up n (drain_step flush receives p)

  accepted-append :
      (es : List Event) (n : ℕ) (p : Pipeline S)
      → accepted flush (es ++ catch_up n) p ≡ accepted flush es p
  accepted-append [] n p = accepted-catch_up n p
  accepted-append (e ∷ es) n p =
      ap (λ x. added flush e p ++ x) (accepted-append es n (drain_step flush e p))

  -- After any run, as many receptions as messages wait in the queue and one tick bring everything
  -- that was accepted to the database: in order, each message once, in batches of at least one
  -- message and at most `batch_size`; and nothing waits any more.
  pub drain_run-delivers :
      (es : List Event) (n : ℕ) (p : Pipeline S)
      → length p.batch < batch_size
      → length (drain_run flush es p).queue.items ≤ n
      → let q = drain_run flush (es ++ catch_up n) p in
        (waiting flush q ≡ [])
        × ((bs : List (List Message)) × All IsBatch bs
            × (joined bs ≡ waiting flush p ++ accepted flush es p)
            × (q.sink ≡ foldl (λ s b. flush b s) p.sink bs))
  drain_run-delivers es n p h enough =
      let (bs, f) = drain_run-Flushes flush (es ++ catch_up n) p h in
      let empty : waiting flush (drain_run flush (es ++ catch_up n) p) ≡ [] =
        ap (waiting flush) (drain_run-append es (catch_up n) p)
        ∙ catch_up-empty n (drain_run flush es p) enough in
      (
        empty,
        (
          bs,
          f.all,
          sym (append-nil (joined bs))
              ∙ ap (λ x. joined bs ++ x) (sym empty)
              ∙ f.kept
              ∙ ap (λ x. waiting flush p ++ x) (accepted-append es n p),
          f.sink_is,
        ),
      )
