-- ===== src/Storage/Timeline/History/Commits.antt =====
-- internal/storage/badger.go: a transaction that sets the statistics and is committed.
use mcpwatch.Base.{
  Bool-cases, if◌then◌else◌, ◌≡◌, refl, sym, ap, ◌∙◌, inl, inr, some, Option-cases, ◌>>=◌, Bytes,
}
use mcpwatch.Base.Float.{Float64}
use mcpwatch.Storage.Flush.{Badger, Coding, Stats, stats_key, stats_in, no_stats}
use mcpwatch.Storage.Timeline.Batch.{prefix, set_stats-pairs}
use mcpwatch.Storage.Timeline.History.{Laws}

module _ (fl : Float64) (b : Badger) (coding : Coding fl) where
  open b use {D, get, set, commit, pairs, drop_all}
  open coding use {stats_bytes, stats_of}

  abbrev key : Bytes
  key = stats_key fl b coding

  -- What is read back of statistics.
  abbrev pub kept : Stats fl → Stats fl
  kept t = if fl.is_finite t.avg_latency_ms then t else no_stats fl

  pub stats_of-kept : (t : Stats fl) → Laws fl b coding → stats_of (stats_bytes t) ≡ kept t
  stats_of-kept t laws = elim (Bool-cases (fl.is_finite t.avg_latency_ms)) [
    | inl q ↦ rw q ((laws.codes_stats.back t q).0)
    | inr q ↦ rw q ((laws.codes_stats.lost t q).0)
  ]

  pub kept-no_stats : kept (no_stats fl) ≡ no_stats fl
  kept-no_stats = elim (Bool-cases (fl.is_finite (fl.of_int 0))) [
    | inl q ↦ rw q refl
    | inr q ↦ rw q refl
  ]

  -- A transaction that sets the statistics and is committed.
  pub record Commits (t : Stats fl) (view d : D) : Type 0 where
    pub same_messages : pairs (prefix fl b coding) d ≡ pairs (prefix fl b coding) view
    pub same_stats : stats_in fl b coding (get key d) ≡ kept t

  pub set-Commits :
      (t : Stats fl) (view db d : D)
      → Laws fl b coding
      → (do view' ← set key (stats_bytes t) view; commit db view') ≡ some d
      → Commits t view d
  set-Commits t view db d laws e = elim (Option-cases (set key (stats_bytes t) view)) [
    | inl q ↦ let stuck = ap (λ o. o >>= commit db) (sym q) ∙ e in absurd (cc)
    | inr (view', q) ↦
        let done = ap (λ o. o >>= commit db) (sym q) ∙ e in
        let same = laws.stores.commit-view db view' d done in
        record {
          same_messages =
              ap (pairs (prefix fl b coding)) same
              ∙ set_stats-pairs fl b coding (stats_bytes t) view view' laws.iterates q;
          same_stats =
              ap (λ x. stats_in fl b coding (get key x)) same
              ∙ ap (stats_in fl b coding) (laws.stores.get-set key (stats_bytes t) view view' q)
              ∙ stats_of-kept t laws;
        }
  ]
