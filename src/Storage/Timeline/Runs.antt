-- ===== src/Storage/Timeline/Runs.antt =====
-- internal/storage/badger.go: what a store stands for after any changes of it, and after any run of
-- the queue before it.
use mcpwatch.Base.{
  ◌+◌, ◌^◌, ◌≤◌, ◌<◌, ◌≡◌, refl, sym, ap, ◌∙◌, List, [], ◌∷◌, ◌++◌, map, foldl, All, All-split,
  length, length-append, lengths, arith,
}
use mcpwatch.Base.Float.{Float64}
use mcpwatch.Engine.Message.{Message}
use mcpwatch.Storage.Flush.{Badger, Coding, Store, flush}
use mcpwatch.Storage.Queue.{Pipeline, Event, batch_size, drain_run}
use mcpwatch.Storage.Queue.Batches.{joined, waiting, accepted, drain_run-Flushes}
use mcpwatch.Storage.Timeline.{IsOrdered, place_all-IsOrdered}
use mcpwatch.Storage.Timeline.Batch.{Storable, stamped, length-stamped-le}
use mcpwatch.Storage.Timeline.History.{
  Change, flushes, ids, Archive, change, changes, StorableIn, Laws, Step, stored, stored_uncounted,
  refused, deleted, not_deleted, reopened, not_reopened, History, ended, goes_on, archive, IsKept,
  Shows, archive-Shows,
}
use mcpwatch.Storage.Timeline.History.Steps.{change-Steps}

-- The ids that `xs` may use and the messages that they may add have room in the keys.
abbrev pub Roomy : Archive → List Change → Type 0
Roomy a xs = (a.counter + ids xs < 10 ^ 6) × (a.total + ids xs < 10 ^ 6)

module _ (fl : Float64) (b : Badger) (coding : Coding fl) where
  pub Step-IsOrdered :
      (a a' : Archive) (x : Change)
      → Step fl b coding a x a'
      → IsOrdered a.messages
      → IsOrdered a'.messages
  Step-IsOrdered a _ _ (stored _ batch) o =
      place_all-IsOrdered (stamped fl b coding a.counter batch) a.messages o
  Step-IsOrdered a _ _ (stored_uncounted _ batch _ _) o =
      place_all-IsOrdered (stamped fl b coding a.counter batch) a.messages o
  Step-IsOrdered a _ _ (refused _ _ _ _ _) o = o
  Step-IsOrdered a _ _ (deleted _) o = tt
  Step-IsOrdered a _ _ (not_deleted _ _) o = o
  Step-IsOrdered a _ _ (reopened _) o = o
  Step-IsOrdered a _ _ (not_reopened _ _) o = o

  Step-Roomy :
      (a a' : Archive) (x : Change) (xs : List Change)
      → Step fl b coding a x a'
      → Roomy a (x ∷ xs)
      → Roomy a' xs
  Step-Roomy a _ _ xs (stored _ batch) r =
      omega (arith, r, length-stamped-le fl b coding a.counter batch)
  Step-Roomy a _ _ xs (stored_uncounted _ batch _ _) r = omega (arith, r)
  Step-Roomy a _ _ xs (refused _ c batch _ u) r = omega (arith, r, u)
  Step-Roomy a _ _ xs (deleted _) r = omega (arith, r)
  Step-Roomy a _ _ xs (not_deleted _ _) r = omega (arith, r)
  Step-Roomy a _ _ xs (reopened _) r = omega (arith, r)
  Step-Roomy a _ _ xs (not_reopened _ _) r = r

  changes-Shows :
      (xs : List Change) (s : Store fl b coding) (a : Archive)
      → Laws fl b coding
      → All (StorableIn fl b coding) xs
      → Roomy a xs
      → Shows fl b coding s a
      → IsOrdered a.messages
      → (a' : Archive) × History fl b coding a xs a'
        × Shows fl b coding (changes fl b coding xs s) a'
        × IsOrdered a'.messages
  changes-Shows [] s a laws all r x o = (a, ended a, x, o)
  changes-Shows (c ∷ cs) s a laws all r x o =
      let (a', step, y) = change-Steps fl b coding c cs s a laws all.0 r.0 r.1 x in
      let (a'', rest, z, p) =
        changes-Shows cs (change fl b coding c s) a' laws all.1 (Step-Roomy a a' c cs step r) y
          (Step-IsOrdered a a' c step o) in
      (a'', goes_on a a' a'' step rest, z, p)

  pub Shows-IsKept :
      (s : Store fl b coding) (a : Archive)
      → Shows fl b coding s a
      → IsOrdered a.messages
      → IsKept fl b coding s
  Shows-IsKept s a x o =
      let same = ap (λ y. y.messages) (archive-Shows fl b coding s a x) in
      record { keeps = rw (same) x.keeps; ordered = rw (same) o }

  -- Over a database and an encoding that keep their laws, for messages of times that fit the keys
  -- and that are read back as they are stored, and while there is room for their ids: flushes,
  -- deletions and new starts act on a store as on an archive: a batch is stored whole, each message
  -- that can be encoded with its id at its place, or not at all; the messages are all deleted or
  -- none is; a new start keeps them. Only a database that refuses some call refuses a change; the
  -- count of the messages is lost where the average latency is not finite. The database stays one that holds what `QueryAll` returns, in
  -- the order of time and, at the same time, of ids.
  pub changes-History :
      (xs : List Change) (s : Store fl b coding)
      → Laws fl b coding
      → All (StorableIn fl b coding) xs
      → Roomy (archive fl b coding s) xs
      → IsKept fl b coding s
      → let t = changes fl b coding xs s in
        History fl b coding (archive fl b coding s) xs (archive fl b coding t)
        × IsKept fl b coding t
  changes-History xs s laws all r k =
      let a = archive fl b coding s in
      let (a', past, x, o) =
        changes-Shows xs s a laws all r (record { counter = refl; total = refl; keeps = k.keeps })
          k.ordered in
      let t = changes fl b coding xs s in
      (rw (archive-Shows fl b coding t a' x) past, Shows-IsKept t a' x o)

  pub changes-flushes :
      (bs : List (List Message)) (s : Store fl b coding)
      → changes fl b coding (map flushes bs) s ≡ foldl (λ s b'. flush fl b coding b' s) s bs
  changes-flushes [] s = refl
  changes-flushes (b' ∷ bs) s = changes-flushes bs (flush fl b coding b' s)

  pub ids-flushes : (bs : List (List Message)) → ids (map flushes bs) ≡ length (joined bs)
  ids-flushes [] = refl
  ids-flushes (b' ∷ bs) = grind (lengths, ids-flushes bs)

  pub StorableIn-joined :
      (bs : List (List Message))
      → All (Storable fl b coding) (joined bs)
      → All (StorableIn fl b coding) (map flushes bs)
  StorableIn-joined [] all = tt
  StorableIn-joined (b' ∷ bs) all =
      let (here, there) = All-split (Storable fl b coding) b' (joined bs) all in
      (here, StorableIn-joined bs there)

  -- There is room for so many messages.
  abbrev pub RoomFor : Store fl b coding → List Message → Type 0
  RoomFor s ms =
      (s.id_counter + length ms < 10 ^ 6) × ((archive fl b coding s).total + length ms < 10 ^ 6)

  -- The store behind its queue, with a batch below its size, over a database and an encoding that
  -- keep their laws. The messages that wait or are accepted are of times that fit the keys and are
  -- read back as they are stored, there is room for their ids, and the store is kept at first.
  -- However insertions, receptions and ticks alternate, there are batches which, with what still
  -- waits, are the messages that were waiting and those that were accepted, in order; and the store
  -- then stands for the result of a history of flushing them, in which only a database that refuses
  -- some call refuses a batch.
  pub drain_run-History :
      (es : List Event) (p : Pipeline (Store fl b coding))
      → Laws fl b coding
      → length p.batch < batch_size
      → let flush' = flush fl b coding in
        All (Storable fl b coding) (waiting flush' p ++ accepted flush' es p)
        → RoomFor p.sink (waiting flush' p ++ accepted flush' es p)
        → IsKept fl b coding p.sink
        → let q = drain_run flush' es p in
          (bs : List (List Message)) × (joined bs ++ waiting flush' q
            ≡ waiting flush' p ++ accepted flush' es p)
          × History fl b coding
              (archive fl b coding p.sink)
              (map flushes bs)
              (archive fl b coding q.sink)
          × IsKept fl b coding q.sink
  drain_run-History es p laws short all room k =
      let flush' = flush fl b coding in
      let q = drain_run flush' es p in
      let (bs, f) = drain_run-Flushes flush' es p short in
      let flushed : All (Storable fl b coding) (joined bs ++ waiting flush' q) = rw (f.kept) all in
      let (storable, _) = All-split (Storable fl b coding) (joined bs) (waiting flush' q) flushed in
      let fewer : ids (map flushes bs) ≤ length (waiting flush' p ++ accepted flush' es p) =
        omega
          (arith, ids-flushes bs, length-append (joined bs) (waiting flush' q), ap length f.kept) in
      let (past, kept) =
        changes-History (map flushes bs) p.sink laws (StorableIn-joined bs storable)
          (omega (arith, fewer, room.0), omega (arith, fewer, room.1)) k in
      let same = f.sink_is ∙ sym (changes-flushes bs p.sink) in
      (bs, f.kept, rw (same) past, rw (same) kept)
