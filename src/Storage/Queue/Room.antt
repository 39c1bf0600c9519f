-- ===== src/Storage/Queue/Room.antt =====
-- What `Insert` accepts as long as the queue has room.
use mcpwatch.Base.{
  lengths, ℕ, ◌+◌, ◌≤◌, ◌≡◌, refl, ap, ◌∙◌, Bool-cases, inl, inr, true, List, [], ◌∷◌, ◌++◌, foldl,
  All, length, length-append, ltb, leb, arith,
}
use mcpwatch.Base.Channel.{Channel, try_send}
use mcpwatch.Engine.Message.{Message}
use mcpwatch.Storage.Queue.{
  batch_size, Pipeline, Event, inserts, receives, ticks, receive_from, tick_from, insert,
  drain_step, drain_run, queue_capacity, new_pipeline,
}
use mcpwatch.Storage.Queue.Batches.{joined, IsBatch, waiting, accepted, drain_run-Flushes}
use mcpwatch.Storage.Queue.Delivers.{catch_up, drain_run-delivers}

-- The messages that are inserted in a run.
abbrev pub inserted : List Event → List Message
inserted [] = []
inserted (inserts m ∷ es) = m ∷ inserted es
inserted (_ ∷ es) = inserted es

pub inserted-append : (es fs : List Event) → inserted (es ++ fs) ≡ inserted es ++ inserted fs
inserted-append [] fs = refl
inserted-append (inserts m ∷ es) fs = ap (◌∷◌ m) (inserted-append es fs)
inserted-append (receives ∷ es) fs = inserted-append es fs
inserted-append (ticks ∷ es) fs = inserted-append es fs

module _ {ℓ} {S : Type ℓ} (flush : List Message → S → S) where
  -- There is room for the messages that come.
  abbrev Room : List Message → Channel Message → Type 0
  Room ms ch = length ch.items + length ms ≤ ch.capacity

  receive-Room :
      (ms items : List Message) (p : Pipeline S)
      → p.queue.items ≡ items
      → Room ms p.queue
      → Room ms (receive_from flush items p).queue
  unfolding receive_from
  receive-Room ms [] p e h = h
  receive-Room ms (x ∷ xs) p e h = elim (Bool-cases (leb batch_size (length (p.batch ++ x ∷ [])))) [
    | inl full ↦ rw full (omega (arith, ap length e, h))
    | inr short ↦ rw short (omega (arith, ap length e, h))
  ]

  tick-Room :
      (ms batch : List Message) (p : Pipeline S)
      → Room ms p.queue
      → Room ms (tick_from flush batch p).queue
  unfolding tick_from
  tick-Room ms [] p h = h
  tick-Room ms (x ∷ xs) p h = h

  pub accepted-inserted :
      (es : List Event) (p : Pipeline S)
      → Room (inserted es) p.queue
      → accepted flush es p ≡ inserted es
  unfolding drain_step insert try_send
  accepted-inserted [] p h = refl
  accepted-inserted (inserts m ∷ es) p h =
      let room : ltb (length p.queue.items) p.queue.capacity ≡ true = ground (arith, h) in
      let more = length-append p.queue.items (m ∷ []) in
      rw (room) (ap (◌∷◌ m) (accepted-inserted es _ (omega (arith, more, h))))
  accepted-inserted (receives ∷ es) p h =
      accepted-inserted es (receive_from flush p.queue.items p)
        (receive-Room (inserted es) p.queue.items p refl h)
  accepted-inserted (ticks ∷ es) p h =
      accepted-inserted es (tick_from flush p.batch p) (tick-Room (inserted es) p.batch p h)

  -- Everything that is inserted into a new queue with room for it gets to the database.
  pub new_pipeline-delivers :
      (es : List Event) (n : ℕ) (sink : S)
      → length (inserted es) ≤ queue_capacity
      → length (inserted es) ≤ n
      → let q = drain_run flush (es ++ catch_up n) (new_pipeline sink) in
        (waiting flush q ≡ [])
        × ((bs : List (List Message)) × All IsBatch bs
            × (joined bs ≡ inserted es)
            × (q.sink ≡ foldl (λ s b. flush b s) sink bs))
  new_pipeline-delivers es n sink room enough =
      let p = new_pipeline sink in
      let all = accepted-inserted es p (omega (arith, room)) in
      let (bs, f) = drain_run-Flushes flush es p (omega arith) in
      let q = drain_run flush es p in
      let few : length q.queue.items ≤ n =
        grind (lengths, enough, ap length f.kept, ap length all) in
      let (empty, (cs, small, whole, sunk)) = drain_run-delivers flush es n p (omega arith) few in
      (empty, (cs, small, whole ∙ all, sunk))
