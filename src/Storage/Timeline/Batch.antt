-- ===== src/Storage/Timeline/Batch.antt =====
-- internal/storage/badger.go: the loop of `flush` on a timeline.
use mcpwatch.Base.{
  ℕ, ◌+◌, ◌^◌, ◌≤◌, ◌<◌, ◌≡◌, refl, sym, ap, ◌∙◌, true, inl, inr, Option, none, some, Option-cases,
  List, [], ◌∷◌, All, length, Bytes, codes, has_prefix, arith,
}
use mcpwatch.Base.Float.{Float64}
use mcpwatch.Engine.Message.{Message}
use mcpwatch.Storage.Key.{message_key, unix_nano}
use mcpwatch.Storage.Flush.{
  word, Badger, Coding, Flushing, Loop, going, broken, with_id, next_id, count_stats, counted,
  put_message, flush_loop, stats_key, counter_of,
}
use mcpwatch.Storage.Flush.Loops.{flush_loop-broken, going_inj}
use mcpwatch.Storage.Query.{message_prefix}
use mcpwatch.Storage.Timeline.{place, place_all}
use mcpwatch.Storage.Timeline.Entries.{Iterates, IsDated, HasKey, key_of, Files, put-Files}

message_key-prefix : (t : _) (i : ℕ) → has_prefix (codes "msg:") (message_key t i) ≡ true
unfolding message_key has_prefix
message_key-prefix t i = refl

module _ (fl : Float64) (b : Badger) (coding : Coding fl) where
  open b use {D, set, set_entry, commit, pairs, drop_all}
  open coding use {message_bytes, message_from}

  abbrev pub prefix : Bytes
  prefix = message_prefix fl b coding

  -- A message that is stored is read back as it was, whatever id it has.
  abbrev pub ReadBack : Message → Type 0
  ReadBack m =
      (n : ℕ) (v : Bytes)
      → message_bytes (with_id fl b coding n m) ≡ some v
      → message_from v ≡ some (with_id fl b coding n m)

  abbrev pub Storable : Message → Type 0
  Storable m = IsDated m × ReadBack m

  -- The messages of a batch that can be encoded, with the ids that they get.
  abbrev pub stamped : ℕ → List Message → List Message
  stamped c [] = []
  stamped c (m ∷ ms) = elim (message_bytes (with_id fl b coding (next_id fl b coding c) m)) [
    | none ↦ stamped (next_id fl b coding c) ms
    | some _ ↦ with_id fl b coding (next_id fl b coding c) m ∷ stamped (next_id fl b coding c) ms
  ]

  abbrev pub Keeps : List Message → D → Type 0
  Keeps ms d = Files message_from ms (pairs prefix d)

  set_entry-Keeps :
      (m : Message) (v : Bytes) (ms : List Message) (d d' : D)
      → Iterates b
      → HasKey m
      → message_from v ≡ some m
      → set_entry 24 (key_of m) v d ≡ some d'
      → Keeps ms d
      → Keeps (place m ms) d'
  set_entry-Keeps m v ms d d' laws h back e f =
      rw
        (
          laws.pairs-set_entry 24 prefix (key_of m) v d d' e,
          message_key-prefix (unix_nano m.timestamp) m.id,
        )
        (put-Files message_from m v ms (pairs prefix d) h back f)

  pub set_stats-pairs :
      (v : Bytes) (d d' : D)
      → Iterates b
      → set (stats_key fl b coding) v d ≡ some d'
      → pairs prefix d' ≡ pairs prefix d
  unfolding has_prefix
  set_stats-pairs v d d' laws e = laws.pairs-set prefix (stats_key fl b coding) v d d' e

  -- What a loop that comes to its end has done.
  abbrev pub Placed : List Message → Flushing fl b coding → Flushing fl b coding → Type 0
  Placed batch f g =
      (ms : List Message)
      → Keeps ms f.view
      → Keeps (place_all ms (stamped f.counter batch)) g.view
        × (g.counter ≡ f.counter + length batch)
        × (g.stats.total_messages ≡ f.stats.total_messages + length (stamped f.counter batch))

  abbrev pub Rest : List Message → Flushing fl b coding → Type 0
  Rest batch g =
      (f : Flushing fl b coding)
      → All Storable batch
      → f.counter + length batch < 10 ^ 6
      → f.stats.total_messages + length batch < 10 ^ 6
      → flush_loop fl b coding batch (going f) ≡ going g
      → Placed batch f g

  skipped-Placed :
      (m : Message) (batch : List Message) (f g : Flushing fl b coding)
      → Rest batch g
      → All Storable (m ∷ batch)
      → f.counter + length (m ∷ batch) < 10 ^ 6
      → f.stats.total_messages + length (m ∷ batch) < 10 ^ 6
      → message_bytes (with_id fl b coding (next_id fl b coding f.counter) m) ≡ none
      → flush_loop fl b coding batch (put_message fl b coding m none f) ≡ going g
      → Placed (m ∷ batch) f g
  unfolding put_message
  skipped-Placed m batch f g rest all c t q e ms keeps =
      let (kept, ids, total) = rest _ all.1 (omega (arith, c)) (omega (arith, t)) e ms keeps in
      rw (q, stamped) (kept, omega (arith, ids, c), total)

  counted-Placed :
      (m : Message) (batch : List Message) (f g : Flushing fl b coding) (v : Bytes)
      → Iterates b
      → Rest batch g
      → All Storable (m ∷ batch)
      → f.counter + length (m ∷ batch) < 10 ^ 6
      → f.stats.total_messages + length (m ∷ batch) < 10 ^ 6
      → message_bytes (with_id fl b coding (next_id fl b coding f.counter) m) ≡ some v
      → flush_loop fl b coding batch (put_message fl b coding m (some v) f) ≡ going g
      → Placed (m ∷ batch) f g
  unfolding put_message counted count_stats
  counted-Placed m batch f g v laws rest all c t q e ms keeps =
      let id = next_id fl b coding f.counter in
      let m' = with_id fl b coding id m in
      elim (Option-cases (set_entry 24 (key_of m') v f.view)) [
        | inl n ↦
            let stuck =
              sym (flush_loop-broken fl b coding batch id)
              ∙ ap (λ o. flush_loop fl b coding batch (counted fl b coding m f o)) (sym n)
              ∙ e in
            absurd (cc)
        | inr (view, n) ↦
            let on =
              ap (λ o. flush_loop fl b coding batch (counted fl b coding m f o)) (sym n) ∙ e in
            let (kept, ids, total) =
              rest _ all.1 (omega (arith, c)) (omega (arith, t)) on (place m' ms) (
                set_entry-Keeps m' v ms f.view view laws (all.0.0, omega (arith, c))
                  (all.0.1 id v q) n keeps) in
            rw (q, stamped) (kept, omega (arith, ids, c), omega (arith, total, t))
      ]

  pub flush_loop-Placed :
      (batch : List Message) (g : Flushing fl b coding) → Iterates b → Rest batch g
  unfolding flush_loop
  flush_loop-Placed [] g laws f all c t e =
      rw (sym (going_inj fl b coding f g e)) (λ ms keeps. (keeps, omega arith, omega arith))
  flush_loop-Placed (m ∷ batch) g laws f all c t e =
      let bytes = message_bytes (with_id fl b coding (next_id fl b coding f.counter) m) in
      let after =
        λ (o : Option Bytes). flush_loop fl b coding batch (put_message fl b coding m o f) in
      elim (Option-cases bytes) [
        | inl q ↦
            skipped-Placed m batch f g (flush_loop-Placed batch g laws) all c t q
              (ap after (sym q) ∙ e)
        | inr (v, q) ↦
            counted-Placed m batch f g v laws (flush_loop-Placed batch g laws) all c t q
              (ap after (sym q) ∙ e)
      ]

  pub length-stamped-le : (c : ℕ) (batch : List Message) → length (stamped c batch) ≤ length batch
  length-stamped-le c [] = omega arith
  length-stamped-le c (m ∷ batch) =
      let rest = length-stamped-le (next_id fl b coding c) batch in
      elim (Option-cases (message_bytes (with_id fl b coding (next_id fl b coding c) m))) [
        | inl q ↦ rw (q, stamped) (omega (arith, rest))
        | inr (v, q) ↦ rw (q, stamped) (omega (arith, rest))
      ]

  put_message-next :
      (m : Message) (o : Option Bytes) (f : Flushing fl b coding)
      → counter_of fl b coding (put_message fl b coding m o f) ≡ next_id fl b coding f.counter
  unfolding put_message counted
  put_message-next m none f = refl
  put_message-next m (some v) f =
      let key = message_key (unix_nano m.timestamp) (next_id fl b coding f.counter) in
      elim (Option-cases (set_entry 24 key v f.view)) [ inl n ↦ rw (n) | inr (view, n) ↦ rw (n) ]

  -- The ids that are used for a batch, not all if the loop returns an error.
  abbrev pub Used : ℕ → List Message → ℕ → Type 0
  Used c batch c' = (c ≤ c') × (c' ≤ c + length batch)

  pub flush_loop-Used :
      (batch : List Message) (l : Loop fl b coding)
      → counter_of fl b coding l + length batch < word
      → Used
          (counter_of fl b coding l)
          batch
          (counter_of fl b coding (flush_loop fl b coding batch l))
  unfolding flush_loop
  flush_loop-Used [] l c = omega arith
  flush_loop-Used (m ∷ batch) (broken n) c = omega arith
  flush_loop-Used (m ∷ batch) (going f) c =
      let bytes = message_bytes (with_id fl b coding (next_id fl b coding f.counter) m) in
      let next = put_message-next m bytes f in
      let rest =
        flush_loop-Used batch (put_message fl b coding m bytes f) (omega (arith, next, c)) in
      omega (arith, rest, next, c)
