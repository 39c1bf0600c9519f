-- ===== src/Storage/Timeline/History/Steps.antt =====
-- internal/storage/badger.go: each change of a store is a step of the archive that it stands for.
use mcpwatch.Base.{
  ◌+◌, ◌^◌, ◌<◌, ◌≡◌, ◌⊎◌, refl, sym, ap, ◌∙◌, inl, inr, none, some, Option-cases, ◌>>=◌,
  bind_assoc, List, ◌∷◌, arith,
}
use mcpwatch.Base.Float.{Float64}
use mcpwatch.Storage.Flush.{
  Badger, Accepts, Coding, Store, Lookup, found, not_found, lookup_failed, stats_key, stats_in,
  no_stats,
}
use mcpwatch.Storage.Flush.Loops.{set_commit-ne-none}
use mcpwatch.Storage.Lifecycle.{init_stats, new_store, clear}
use mcpwatch.Storage.Timeline.Batch.{prefix}
use mcpwatch.Storage.Timeline.History.{
  Change, flushes, clears, reopens, ids, Archive, change, reopened_store, StorableIn, Laws, deleted,
  not_deleted, reopened, not_reopened, Shows,
}
use mcpwatch.Storage.Timeline.History.Commits.{kept-no_stats, set-Commits}
use mcpwatch.Storage.Timeline.History.Flushes.{Steps, flush-Steps}

module _ (fl : Float64) (b : Badger) (coding : Coding fl) where
  open b use {D, get, set, commit, pairs, drop_all}
  open coding use {stats_bytes, stats_of}

  pub clear-Steps :
      (s : Store fl b coding) (a : Archive)
      → Laws fl b coding
      → Shows fl b coding s a
      → Steps fl b coding s a clears
  unfolding clear
  clear-Steps s a laws x = elim (Option-cases (drop_all s.db)) [
    | inl n ↦
        rw (n, change, clear)
          (
            _,
            not_deleted a (λ acc. acc.drops s.db n),
            record { counter = refl; total = x.total; keeps = x.keeps },
          )
    | inr (d, n) ↦
        let empty = laws.iterates.pairs-drop_all (prefix fl b coding) s.db d n in
        let gone = laws.stores.get-drop_all (stats_key fl b coding) s.db d n in
        let zero = no_stats fl in
        elim (Option-cases
          (do view ← set (stats_key fl b coding) (stats_bytes zero) d; commit d view)) [
            | inl q ↦
                rw (n, change, clear, q)
                  (
                    _,
                    deleted a,
                    record {
                      counter = refl;
                      total = ap (λ l. (stats_in fl b coding l).total_messages) gone;
                      keeps = rw (empty) tt;
                    },
                  )
            | inr (d', q) ↦
                let done = set-Commits fl b coding zero d d d' laws q in
                rw (n, change, clear, q)
                  (
                    _,
                    deleted a,
                    record {
                      counter = refl;
                      total =
                          ap (λ u. u.total_messages) (done.same_stats ∙ kept-no_stats fl b coding);
                      keeps = rw (done.same_messages, empty) tt;
                    },
                  )
          ]
  ]

  -- What `New` makes of what it reads.
  init-Shows :
      (l : Lookup) (s : Store fl b coding) (a : Archive)
      → Laws fl b coding
      → Shows fl b coding s a
      → get (stats_key fl b coding) s.db ≡ l
      → ((init_stats fl b coding l s.db ≡ none) × (Accepts b → ⊥))
        ⊎ ((t : Store fl b coding) × (init_stats fl b coding l s.db ≡ some t)
            × Shows fl b coding t (record a { counter = a.total }))
  unfolding init_stats
  init-Shows (found v) s a laws x e = elim (Option-cases (commit s.db s.db)) [
    | inl n ↦ inl (rw (n) refl, λ acc. acc.commits s.db s.db n)
    | inr (d, n) ↦
        let same = laws.stores.commit-view s.db s.db d n in
        let counted = ap (λ l. (stats_in fl b coding l).total_messages) (sym e) ∙ x.total in
        inr (
          record { db = d; id_counter = (stats_of v).total_messages },
          rw (n) refl,
          record { counter = counted; total = rw (same) x.total; keeps = rw (same) x.keeps },
        )
  ]
  init-Shows not_found s a laws x e =
      let zero = no_stats fl in
      let none_counted = ap (λ l. (stats_in fl b coding l).total_messages) (sym e) ∙ x.total in
      let opened : D → Store fl b coding = λ d. record { db = d; id_counter = 0 } in
      let joined =
        bind_assoc (set (stats_key fl b coding) (stats_bytes zero) s.db) (commit s.db)
          (λ d. some (opened d)) in
      elim (Option-cases
        (do view ← set (stats_key fl b coding) (stats_bytes zero) s.db; commit s.db view)) [
          | inl n ↦ inl (
            joined ∙ ap (λ o. o >>= λ d. some (opened d)) n,
            λ acc.
                set_commit-ne-none fl b coding (stats_key fl b coding) (stats_bytes zero) s.db s.db
                  acc n,
          )
          | inr (d, n) ↦
              let done = set-Commits fl b coding zero s.db s.db d laws n in
              inr (
                opened d,
                joined ∙ ap (λ o. o >>= λ d. some (opened d)) n,
                record {
                  counter = none_counted;
                  total =
                      ap (λ u. u.total_messages) (done.same_stats ∙ kept-no_stats fl b coding)
                      ∙ none_counted;
                  keeps = rw (done.same_messages) x.keeps;
                },
              )
        ]
  init-Shows lookup_failed s a laws x e = inl (refl, λ acc. acc.gets (stats_key fl b coding) s.db e)

  reopen-Steps :
      (s : Store fl b coding) (a : Archive)
      → Laws fl b coding
      → Shows fl b coding s a
      → Steps fl b coding s a reopens
  unfolding new_store
  reopen-Steps s a laws x = elim (init-Shows (get (stats_key fl b coding) s.db) s a laws x refl) [
    | inl (n, unless) ↦ rw (n, change, reopened_store, new_store) (_, not_reopened a unless, x)
    | inr (t, n, y) ↦ rw (n, change, reopened_store, new_store) (_, reopened a, y)
  ]

  pub change-Steps :
      (x : Change) (xs : List Change) (s : Store fl b coding) (a : Archive)
      → Laws fl b coding
      → StorableIn fl b coding x
      → a.counter + ids (x ∷ xs) < 10 ^ 6
      → a.total + ids (x ∷ xs) < 10 ^ 6
      → Shows fl b coding s a
      → Steps fl b coding s a x
  change-Steps (flushes batch) xs s a laws all c n y =
      flush-Steps fl b coding batch s a laws all (omega (arith, c)) (omega (arith, n)) y
  change-Steps clears xs s a laws all c n y = clear-Steps s a laws y
  change-Steps reopens xs s a laws all c n y = reopen-Steps s a laws y
