-- ===== src/Storage/Flush/Counts.antt =====
-- What the statistics say after a flush.
use mcpwatch.Base.{
  Bool-cases, if◌then◌else◌, ℕ, ◌+◌, ◌%◌, ◌≡◌, ◌<◌, ◌⊎◌, inl, inr, refl, sym, ap, ◌∙◌, Option, none,
  some, Option-cases, List, [], ◌∷◌, Bytes, length, ◌>>=◌, arith,
}
use mcpwatch.Base.Float.{Float64}
use mcpwatch.Engine.Message.{Message}
use mcpwatch.Storage.Flush.Loops.{
  flush_loop-broken, going_inj, Loop-cases, flush_loop-ne-broken, end_flush-ne-none,
}
use mcpwatch.Storage.Flush.{
  word, Badger, Stores, Accepts, CodesStats, found, Stats, Coding, Store, Flushing, Loop, going,
  with_average, with_id, next_id, counted, put_message, flush_loop, begin_flush, end_flush, flush,
  stats_key, stats_in, or_else, counter_of,
}
use mcpwatch.Storage.Lifecycle.{get_stats}
use mcpwatch.Storage.Flush.Sums.{
  Counts, IsWide, Counts-nil, Counts-cons, count_stats-IsWide, Counts-with_average,
}

module _ (fl : Float64) (b : Badger) (coding : Coding fl) where
  open b use {D, set, set_entry, commit, get}
  open coding use {stats_bytes, stats_of, message_bytes}

  -- The messages of the batch that can be encoded with the ids that they get.
  abbrev pub stored : ℕ → List Message → List Message
  stored c [] = []
  stored c (m ∷ ms) = elim (message_bytes (with_id fl b coding (next_id fl b coding c) m)) [
    | none ↦ stored (next_id fl b coding c) ms
    | some _ ↦ m ∷ stored (next_id fl b coding c) ms
  ]

  -- What a loop that comes to its end has counted.
  abbrev Done : List Message → Flushing fl b coding → Flushing fl b coding → Type 0
  Done ms f g =
      Counts fl f.stats (stored f.counter ms) g.stats × (g.counter ≡ (f.counter + length ms) % word)

  -- The claim for the rest of a batch.
  abbrev Rest : List Message → Flushing fl b coding → Type 0
  Rest ms g =
      (f : Flushing fl b coding)
      → IsWide fl f.stats
      → f.counter < word
      → flush_loop fl b coding ms (going f) ≡ going g
      → Done ms f g

  -- After a message that cannot be encoded.
  skipped-Done :
      (m : Message) (ms : List Message) (f g : Flushing fl b coding)
      → Rest ms g
      → IsWide fl f.stats
      → message_bytes (with_id fl b coding (next_id fl b coding f.counter) m) ≡ none
      → flush_loop fl b coding ms (put_message fl b coding m none f) ≡ going g
      → Done (m ∷ ms) f g
  unfolding put_message
  skipped-Done m ms f g rest w q e =
      let (counts, ids) = rest _ w (omega arith) e in rw (q, stored) (counts, omega (arith, ids))

  -- After a message that is encoded, and set or not.
  counted-Done :
      (m : Message) (ms : List Message) (f g : Flushing fl b coding) (v : Bytes) (o : Option D)
      → Rest ms g
      → IsWide fl f.stats
      → message_bytes (with_id fl b coding (next_id fl b coding f.counter) m) ≡ some v
      → flush_loop fl b coding ms (counted fl b coding m f o) ≡ going g
      → Done (m ∷ ms) f g
  unfolding counted
  counted-Done m ms f g v none rest w q e =
      let stuck = sym (flush_loop-broken fl b coding ms (next_id fl b coding f.counter)) ∙ e in
      absurd (cc)
  counted-Done m ms f g v (some view) rest w q e =
      let (counts, ids) = rest _ (count_stats-IsWide fl m f.stats w) (omega arith) e in
      rw (q, stored) (Counts-cons fl m _ f.stats g.stats counts, omega (arith, ids))

  flush_loop-Done : (ms : List Message) (g : Flushing fl b coding) → Rest ms g
  unfolding flush_loop
  flush_loop-Done [] g f w c e =
      rw (sym (going_inj fl b coding f g e)) (Counts-nil fl f.stats w, omega (arith, c))
  flush_loop-Done (m ∷ ms) g f w c e =
      elim (Option-cases (message_bytes (with_id fl b coding (next_id fl b coding f.counter) m))) [
        | inl q ↦
            skipped-Done m ms f g (flush_loop-Done ms g) w q
              (ap (λ o. flush_loop fl b coding ms (put_message fl b coding m o f)) (sym q) ∙ e)
        | inr (v, q) ↦ counted-Done m ms f g v _ (flush_loop-Done ms g) w q (
            unfold put_message in
            ap (λ o. flush_loop fl b coding ms (put_message fl b coding m o f)) (sym q) ∙ e)
      ]

  -- What the statistics in the database are, before a flush.
  abbrev pub stats_before : Store fl b coding → Stats fl
  stats_before s = stats_in fl b coding (get (stats_key fl b coding) s.db)

  -- The end of a transaction that is committed.
  pub end_flush-get :
      (f : Flushing fl b coding) (db d : D)
      → Stores b
      → end_flush fl b coding (going f) db ≡ some d
      → get (stats_key fl b coding) d
        ≡ found (stats_bytes (with_average fl f.total_latency f.stats))
  unfolding end_flush
  end_flush-get f db d laws e =
      elim (Option-cases (
        set (stats_key fl b coding) (stats_bytes (with_average fl f.total_latency f.stats))
          f.view)) [
            | inl q ↦ let stuck = ap (λ o. o >>= commit db) (sym q) ∙ e in absurd (cc)
            | inr (v, q) ↦
                let done = ap (λ o. o >>= commit db) (sym q) ∙ e in
                rw (laws.commit-view db v d done) (laws.get-set _ _ f.view v q)
          ]

  get_stats-found :
      (s : Store fl b coding) (t : Stats fl)
      → CodesStats fl coding
      → get (stats_key fl b coding) s.db ≡ found (stats_bytes t)
      → get_stats fl b coding s ≡ (if fl.is_finite t.avg_latency_ms then some t else none)
  unfolding get_stats
  get_stats-found s t codes e = elim (Bool-cases (fl.is_finite t.avg_latency_ms)) [
    | inl q ↦ let (same, valid) = codes.back t q in rw (e, get_stats, q, valid, same) refl
    | inr q ↦ let (same, invalid) = codes.lost t q in rw (e, get_stats, q, invalid) refl
  ]

  -- A transaction that fails leaves the database as it was, and a database that refuses no call lets
  -- none fail. One that is committed takes as many ids as there are messages, and the statistics are
  -- the former ones with the messages of the batch added that can be encoded: how many, how many
  -- requests and errors, and their bytes and tokens. `GetStats` returns them, or an error if their
  -- average is not finite.
  pub flush-Counts :
      (batch : List Message) (s : Store fl b coding)
      → Stores b
      → CodesStats fl coding
      → IsWide fl (stats_before s)
      → s.id_counter < word
      → let s' = flush fl b coding batch s in
        ((s'.db ≡ s.db) × (Accepts b → ⊥))
        ⊎ ((t : Stats fl) × Counts fl (stats_before s) (stored s.id_counter batch) t
            × (s'.id_counter ≡ (s.id_counter + length batch) % word)
            × (get_stats fl b coding s' ≡ (if fl.is_finite t.avg_latency_ms then some t else none)))
  unfolding flush begin_flush
  flush-Counts batch s laws codes w c =
      let db_after =
        λ (l : Loop fl b coding). or_else fl b coding (end_flush fl b coding l s.db) s.db in
      let begun = begin_flush fl b coding s in
      elim (Loop-cases fl b coding (flush_loop fl b coding batch (going begun))) [
        | inl (n, q) ↦ inl (
          ap db_after q ∙ unfold end_flush in refl,
          λ a. flush_loop-ne-broken fl b coding batch begun n a q,
        )
        | inr (g, q) ↦
            let (counts, ids) = flush_loop-Done batch g begun w c q in
            elim (Option-cases (end_flush fl b coding (going g) s.db)) [
              | inl n ↦ inl (
                ap db_after q ∙ ap (λ o. or_else fl b coding o s.db) n,
                λ a. end_flush-ne-none fl b coding g s.db a n,
              )
              | inr (d, n) ↦
                  let same : db_after (flush_loop fl b coding batch (going begun)) ≡ d =
                    ap db_after q ∙ ap (λ o. or_else fl b coding o s.db) n in
                  inr (
                    with_average fl g.total_latency g.stats,
                    Counts-with_average fl g.total_latency _ g.stats _ counts,
                    ap (counter_of fl b coding) q ∙ ids,
                    get_stats-found (flush fl b coding batch s) _ codes
                        (ap (get (stats_key fl b coding)) same ∙ end_flush-get g s.db d laws n),
                  )
            ]
      ]
