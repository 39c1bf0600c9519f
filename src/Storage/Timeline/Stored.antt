-- ===== src/Storage/Timeline/Stored.antt =====
-- internal/storage/badger.go: what a history of flushes leaves on a database that refuses no call.
use mcpwatch.Base.{
  ℕ, ◌+◌, ◌^◌, ◌<◌, ◌≡◌, refl, sym, ap, ◌∙◌, inl, inr, Option-cases, List, [], ◌∷◌, ◌++◌, map,
  foldl-append, length, lengths, arith,
}
use mcpwatch.Base.Float.{Float64}
use mcpwatch.Engine.Message.{Message}
use mcpwatch.Storage.Flush.{Badger, Accepts, Coding, word, with_id, next_id}
use mcpwatch.Storage.Queue.Batches.{joined}
use mcpwatch.Storage.Timeline.{place, place_all}
use mcpwatch.Storage.Timeline.Batch.{stamped}
use mcpwatch.Storage.Timeline.History.{
  Change, flushes, Archive, Step, stored, stored_uncounted, refused, deleted, not_deleted, reopened,
  not_reopened, History, ended, goes_on,
}

module _ (fl : Float64) (b : Badger) (coding : Coding fl) where
  stamped-append :
      (c : ℕ) (xs ys : List Message)
      → c + length xs < word
      → stamped fl b coding c (xs ++ ys)
        ≡ stamped fl b coding c xs ++ stamped fl b coding (c + length xs) ys
  stamped-append c [] ys h = ap (λ n. stamped fl b coding n ys) (omega arith)
  stamped-append c (m ∷ xs) ys h =
      let next = next_id fl b coding c in
      let rest = stamped-append next xs ys (omega (arith, h)) in
      let at : stamped fl b coding (next + length xs) ys
          ≡ stamped fl b coding (c + length (m ∷ xs)) ys =
        ap (λ n. stamped fl b coding n ys) (omega (arith, h)) in
      let all = rest ∙ ap (λ zs. stamped fl b coding next xs ++ zs) at in
      elim (Option-cases (coding.message_bytes (with_id fl b coding next m))) [
        | inl q ↦ rw (q, stamped) all
        | inr (v, q) ↦ rw (q, stamped) (ap (λ zs. with_id fl b coding next m ∷ zs) all)
      ]

  -- The archive `a'` is `a` with the messages at their places, and their ids are used.
  pub record Adds (a : Archive) (ms : List Message) (a' : Archive) : Type 0 where
    pub counter : a'.counter ≡ a.counter + length ms
    pub messages : a'.messages ≡ place_all a.messages (stamped fl b coding a.counter ms)

  -- The messages of a batch, or none of another change.
  abbrev batch_of : Change → List Message
  batch_of (flushes batch) = batch
  batch_of _ = []

  abbrev Flushed : Change → Type 0
  Flushed (flushes batch) = Unit
  Flushed _ = ⊥

  Step-Adds :
      (a a' : Archive) (x : Change)
      → Accepts b
      → Flushed x
      → Step fl b coding a x a'
      → Adds a (batch_of x) a'
  Step-Adds a _ _ acc f (stored _ _) = record { counter = refl; messages = refl }
  Step-Adds a _ _ acc f (stored_uncounted _ _ _ _) = record { counter = refl; messages = refl }
  Step-Adds a _ _ acc f (refused _ _ _ ne _) = absurd (ne acc)
  Step-Adds a _ _ acc f (deleted _) = absurd f
  Step-Adds a _ _ acc f (not_deleted _ _) = absurd f
  Step-Adds a _ _ acc f (reopened _) = absurd f
  Step-Adds a _ _ acc f (not_reopened _ _) = absurd f

  pub History-Adds :
      (bs : List (List Message)) (a a' : Archive)
      → Accepts b
      → a.counter + length (joined bs) < 10 ^ 6
      → History fl b coding a (map flushes bs) a'
      → Adds a (joined bs) a'
  History-Adds [] a _ acc room (ended _) = record { counter = omega arith; messages = refl }
  History-Adds (c ∷ bs) a a'' acc room (goes_on _ a' _ step rest) =
      let now = Step-Adds a a' (flushes c) acc tt step in
      let size : length (c ++ joined bs) ≡ length c + length (joined bs) = grind (lengths) in
      let later = History-Adds bs a' a'' acc (omega (arith, room, size, now.counter)) rest in
      record {
        counter = omega (arith, later.counter, now.counter, size);
        messages =
            later.messages
            ∙ ap (λ ms. place_all ms (stamped fl b coding a'.counter (joined bs))) now.messages
            ∙ ap
                (λ n.
                  place_all (place_all a.messages (stamped fl b coding a.counter c))
                    (stamped fl b coding n (joined bs)))
                now.counter
            ∙ sym (
                foldl-append (λ xs m. place m xs) a.messages (stamped fl b coding a.counter c)
                  (stamped fl b coding (a.counter + length c) (joined bs)))
            ∙ ap (place_all a.messages)
                (sym (stamped-append a.counter c (joined bs) (omega (arith, room, size))));
      }
