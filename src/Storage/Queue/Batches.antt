-- ===== src/Storage/Queue/Batches.antt =====
-- What the loop flushes.
use mcpwatch.Base.{
  lengths, ◌≤◌, ◌<◌, ◌≡◌, refl, sym, ap, ◌∙◌, inl, inr, Bool-cases, List, [], ◌∷◌, ◌++◌,
  append_assoc, append-nil, foldl, foldl-append, length, All, All-append, ltb, leb, if◌then◌else◌,
  arith,
}
use mcpwatch.Base.Channel.{try_send}
use mcpwatch.Engine.Message.{Message}
use mcpwatch.Storage.Queue.{
  batch_size, Pipeline, Event, inserts, receives, ticks, insert, receive_from, tick_from,
  drain_step, drain_run,
}

abbrev pub joined : List (List Message) → List Message
joined [] = []
joined (b ∷ bs) = b ++ joined bs

abbrev pub IsBatch : List Message → Type 0
IsBatch b = (0 < length b) × (length b ≤ batch_size)

joined-append : (bs cs : List (List Message)) → joined (bs ++ cs) ≡ joined bs ++ joined cs
joined-append [] cs = refl
joined-append (b ∷ bs) cs =
    ap (λ x. b ++ x) (joined-append bs cs) ∙ sym (append_assoc b (joined bs) (joined cs))

module _ {ℓ} {S : Type ℓ} (flush : List Message → S → S) where
  -- What waits in the batch and in the queue, the oldest first.
  abbrev pub waiting : Pipeline S → List Message
  waiting p = p.batch ++ p.queue.items

  -- The message that a step adds.
  abbrev pub added : Event → Pipeline S → List Message
  added (inserts m) p = if ltb (length p.queue.items) p.queue.capacity then m ∷ [] else []
  added _ p = []

  -- The messages that `Insert` accepts in a run.
  abbrev pub accepted : List Event → Pipeline S → List Message
  accepted [] p = []
  accepted (e ∷ es) p = added e p ++ accepted es (drain_step flush e p)

  -- A run that starts with `from` waiting flushes `batches` and gets to `q`.
  pub record Flushes (batches : List (List Message)) (p q : Pipeline S) (new : List Message)
      : Type ℓ where
    pub sink_is : q.sink ≡ foldl (λ s b. flush b s) p.sink batches
    pub all : All IsBatch batches
    pub kept : joined batches ++ waiting q ≡ waiting p ++ new
    pub below : length q.batch < batch_size

  insert-Flushes :
      (m : Message) (p : Pipeline S)
      → length p.batch < batch_size
      → Flushes [] p (insert m p) (added (inserts m) p)
  unfolding insert try_send
  insert-Flushes m p h = elim (Bool-cases (ltb (length p.queue.items) p.queue.capacity)) [
    | inl room ↦ rw room (record {
      sink_is = refl;
      all = tt;
      kept = sym (append_assoc p.batch p.queue.items (m ∷ []));
      below = h;
    })
    | inr full ↦
        rw full
          (record { sink_is = refl; all = tt; kept = sym (append-nil (waiting p)); below = h })
  ]

  taken-kept :
      (m : Message) (ms : List Message) (p : Pipeline S)
      → p.queue.items ≡ m ∷ ms
      → (p.batch ++ m ∷ []) ++ ms ≡ waiting p ++ []
  taken-kept m ms p e =
      append_assoc p.batch (m ∷ []) ms
      ∙ ap (λ x. p.batch ++ x) (sym e)
      ∙ sym (append-nil (waiting p))

  receive-Flushes :
      (items : List Message) (p : Pipeline S)
      → p.queue.items ≡ items
      → length p.batch < batch_size
      → (bs : List (List Message)) × Flushes bs p (receive_from flush items p) []
  unfolding receive_from
  receive-Flushes [] p e h =
      ([], record { sink_is = refl; all = tt; kept = sym (append-nil (waiting p)); below = h })
  receive-Flushes (m ∷ ms) p e h = elim (Bool-cases (leb batch_size (length (p.batch ++ m ∷ [])))) [
    | inl full ↦ rw full (
      (p.batch ++ m ∷ []) ∷ [],
      record {
        sink_is = refl;
        all = ((grind lengths, grind lengths), tt);
        kept = ap (λ x. x ++ ms) (append-nil (p.batch ++ m ∷ [])) ∙ taken-kept m ms p e;
        below = omega arith;
      },
    )
    | inr short ↦
        rw short (
          [],
          record { sink_is = refl; all = tt; kept = taken-kept m ms p e; below = ground arith },
        )
  ]

  tick-Flushes :
      (batch : List Message) (p : Pipeline S)
      → p.batch ≡ batch
      → length p.batch < batch_size
      → (bs : List (List Message)) × Flushes bs p (tick_from flush batch p) []
  unfolding tick_from
  tick-Flushes [] p e h =
      ([], record { sink_is = refl; all = tt; kept = sym (append-nil (waiting p)); below = h })
  tick-Flushes (m ∷ ms) p e h = (
    p.batch ∷ [],
    record {
      sink_is = refl;
      all = ((omega (arith, ap length e), omega arith), tt);
      kept = ap (λ x. x ++ p.queue.items) (append-nil p.batch) ∙ sym (append-nil (waiting p));
      below = omega arith;
    },
  )

  step-Flushes :
      (e : Event) (p : Pipeline S)
      → length p.batch < batch_size
      → (bs : List (List Message)) × Flushes bs p (drain_step flush e p) (added e p)
  unfolding drain_step
  step-Flushes (inserts m) p h = ([], insert-Flushes m p h)
  step-Flushes receives p h = receive-Flushes p.queue.items p refl h
  step-Flushes ticks p h = tick-Flushes p.batch p refl h

  Flushes-trans :
      (bs cs : List (List Message)) (p q r : Pipeline S) (new more : List Message)
      → Flushes bs p q new
      → Flushes cs q r more
      → Flushes (bs ++ cs) p r (new ++ more)
  Flushes-trans bs cs p q r new more f g = record {
    sink_is =
        g.sink_is
        ∙ ap (λ s. foldl (λ t b. flush b t) s cs) f.sink_is
        ∙ sym (foldl-append _ p.sink bs cs);
    all = All-append IsBatch bs cs f.all g.all;
    kept =
        ap (λ x. x ++ waiting r) (joined-append bs cs)
        ∙ append_assoc (joined bs) (joined cs) (waiting r)
        ∙ ap (λ x. joined bs ++ x) g.kept
        ∙ sym (append_assoc (joined bs) (waiting q) more)
        ∙ ap (λ x. x ++ more) f.kept
        ∙ append_assoc (waiting p) new more;
    below = g.below;
  }

  -- In a run of insertions, receptions and ticks in any order no accepted message is lost, repeated
  -- or reordered on its way to the database: what was flushed and what still waits is what was
  -- accepted, in order. The flushes are batches of at least one message and at most `batch_size`.
  pub drain_run-Flushes :
      (es : List Event) (p : Pipeline S)
      → length p.batch < batch_size
      → (bs : List (List Message)) × Flushes bs p (drain_run flush es p) (accepted es p)
  unfolding drain_run
  drain_run-Flushes [] p h =
      ([], record { sink_is = refl; all = tt; kept = sym (append-nil (waiting p)); below = h })
  drain_run-Flushes (e ∷ es) p h =
      let (bs, f) = step-Flushes e p h in
      let (cs, g) = drain_run-Flushes es (drain_step flush e p) f.below in
      (bs ++ cs, Flushes-trans bs cs p _ _ (added e p) (accepted es (drain_step flush e p)) f g)
