-- ===== src/Storage/Timeline/History/Flushes.antt =====
-- internal/storage/badger.go: a flush is a step of the archive.
use mcpwatch.Base.{
  ℕ, ◌≢◌, Bool-cases, if◌then◌else◌, ◌+◌, ◌^◌, ◌<◌, ◌≡◌, refl, sym, ap, ◌∙◌, inl, inr, Option-cases,
  List, All, length, arith,
}
use mcpwatch.Base.Float.{Float64}
use mcpwatch.Engine.Message.{Message}
use mcpwatch.Storage.Flush.{
  Badger, Accepts, Coding, Store, Stats, Flushing, Loop, going, broken, flush_loop, begin_flush,
  end_flush, flush, with_average, or_else, counter_of, no_stats,
}
use mcpwatch.Storage.Flush.Loops.{flush_loop-ne-broken, end_flush-ne-none}
use mcpwatch.Storage.Timeline.{place_all}
use mcpwatch.Storage.Timeline.Batch.{
  Storable, stamped, Keeps, flush_loop-Placed, flush_loop-Used, Used,
}
use mcpwatch.Storage.Timeline.History.{
  Change, flushes, Archive, change, Laws, Step, stored, stored_uncounted, refused, Shows,
}
use mcpwatch.Storage.Timeline.History.Commits.{set-Commits, kept}

total-with_average :
    (fl : Float64) (x : fl.F) (t : Stats fl)
    → (with_average fl x t).total_messages ≡ t.total_messages
unfolding with_average
total-with_average fl x t = ground arith

module _ (fl : Float64) (b : Badger) (coding : Coding fl) where
  open b use {D, get, set, commit, pairs, drop_all}
  open coding use {stats_bytes, stats_of}

  abbrev pub Steps : Store fl b coding → Archive → Change → Type 0
  Steps s a x =
      (a' : Archive) × Step fl b coding a x a' × Shows fl b coding (change fl b coding x s) a'

  -- The end of `flush`, of a loop that has used ids and placed the messages if it came to its end.
  loop-Steps :
      (batch : List Message) (s : Store fl b coding) (a : Archive) (l : Loop fl b coding)
      → Laws fl b coding
      → Shows fl b coding s a
      → (Accepts b → (c : ℕ) → l ≢ broken c)
      → Used fl b coding a.counter batch (counter_of fl b coding l)
      → ((g : Flushing fl b coding)
          → l ≡ going g
          → Keeps fl b coding (place_all a.messages (stamped fl b coding a.counter batch)) g.view
            × (g.counter ≡ a.counter + length batch)
            × (g.stats.total_messages ≡ a.total + length (stamped fl b coding a.counter batch)))
      → (a' : Archive) × Step fl b coding a (flushes batch) a'
        × Shows fl b coding
            (record {
              db = or_else fl b coding (end_flush fl b coding l s.db) s.db;
              id_counter = counter_of fl b coding l;
            })
            a'
  unfolding end_flush
  loop-Steps batch s a (broken n) laws x whole used placed = (
    _,
    refused a n batch (λ acc. whole acc n refl) used,
    record { counter = refl; total = x.total; keeps = x.keeps },
  )
  loop-Steps batch s a (going g) laws x whole used placed =
      let (kept_there, count, total) = placed g refl in
      let t = with_average fl g.total_latency g.stats in
      elim (Option-cases (end_flush fl b coding (going g) s.db)) [
        | inl n ↦ (
          _,
          refused a g.counter batch (λ acc. end_flush-ne-none fl b coding g s.db acc n) used,
          rw (n) (record { counter = refl; total = x.total; keeps = x.keeps }),
        )
        | inr (d, n) ↦
            let done = set-Commits fl b coding t g.view s.db d laws n in
            elim (Bool-cases (fl.is_finite t.avg_latency_ms)) [
              | inl q ↦ (
                _,
                stored a batch,
                rw (n) (record {
                  counter = count;
                  total =
                      ap (λ u. u.total_messages)
                        (done.same_stats ∙ ap (λ x. if x then t else no_stats fl) q)
                      ∙ total-with_average fl g.total_latency g.stats
                      ∙ total;
                  keeps = rw (done.same_messages) kept_there;
                }),
              )
              | inr q ↦ (
                _,
                stored_uncounted a batch t.avg_latency_ms q,
                rw (n) (record {
                  counter = count;
                  total =
                      ap (λ u. u.total_messages)
                        (done.same_stats ∙ ap (λ x. if x then t else no_stats fl) q);
                  keeps = rw (done.same_messages) kept_there;
                }),
              )
            ]
      ]

  pub flush-Steps :
      (batch : List Message) (s : Store fl b coding) (a : Archive)
      → Laws fl b coding
      → All (Storable fl b coding) batch
      → a.counter + length batch < 10 ^ 6
      → a.total + length batch < 10 ^ 6
      → Shows fl b coding s a
      → Steps s a (flushes batch)
  unfolding flush begin_flush
  flush-Steps batch s a laws all c n x =
      let f = begin_flush fl b coding s in
      let l = flush_loop fl b coding batch (going f) in
      let used = flush_loop-Used fl b coding batch (going f) (omega (arith, c, x.counter)) in
      loop-Steps batch s a l laws x (λ acc c. flush_loop-ne-broken fl b coding batch f c acc)
        (omega (arith, used, x.counter))
        (λ g e.
          let (kept, count, total) =
            flush_loop-Placed fl b coding batch g laws.iterates f all (omega (arith, c, x.counter))
              (omega (arith, n, x.total)) e a.messages x.keeps in
          (
            rw (sym x.counter) kept,
            omega (arith, count, x.counter),
            rw (sym x.counter, sym x.total) total,
          ))
