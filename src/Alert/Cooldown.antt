-- ===== src/Alert/Cooldown.antt =====
-- When an alert is sent, and how far apart two alerts are.
use mcpwatch.Base.{
  ℕ, suc, ◌≤◌, ◌<◌, ◌≡◌, ◌↔◌, refl, true, Option, none, some, List, [], ◌∷◌, Bool-cases, inl, inr,
  is_empty, ◌==◌, arith,
}
use mcpwatch.Base.Int.{ℤ, pos, sub_ℕ, ◌<ℤ◌, ◌-ℤ◌, ltb_ℤ}
use mcpwatch.Base.Time.{Clock, now, tick, since}
use mcpwatch.Base.Float.{Float64}
use mcpwatch.Engine.Message.{Message}
use mcpwatch.Alert.{
  Alerter, Tally, no_messages, tally, start, Reason, Check, breach, fire, decide, check, check_all,
  noted,
}
use mcpwatch.Alert.Breaches.{Breached, breach-Breached, Breached-breach}

abbrev pub IsMonotone : Clock → Type 0
IsMonotone c = (i : ℕ) → c.at i ≤ c.at (suc i)

-- Between neighbours of the list, the latest first, there is more than `w`.
abbrev pub Follows : ℤ → ℕ → List ℕ → Type 0
Follows w t [] = Unit
Follows w t (u ∷ us) = w <ℤ sub_ℕ t u

abbrev pub Spaced : ℤ → List ℕ → Type 0
Spaced w [] = Unit
Spaced w (t ∷ ts) = Follows w t ts × Spaced w ts

since-lt : (w : ℤ) (n m t : ℕ) → t ≤ n → n ≤ m → ltb_ℤ w (since n t) ≡ true → w <ℤ sub_ℕ m t
since-lt w n m t le le' h = ground arith

abbrev pub Latest : ℕ → List ℕ → Type 0
Latest t [] = Unit
Latest t (u ∷ us) = t ≡ u

Follows-Latest :
    (w : ℤ) (t u : ℕ) (sent : List ℕ) → Latest t sent → w <ℤ sub_ℕ u t → Follows w u sent
Follows-Latest w t u [] l h = tt
Follows-Latest w t u (v ∷ vs) l h = rw l at h

module _ (fl : Float64) where
  -- The alerter and the times of the alerts, after a check that began with the window `w`.
  pub record Log (w : ℤ) (a : Alerter fl) (c : Clock) (sent : List ℕ) : Type 0 where
    pub window_kept : a.window ≡ w
    pub monotone : IsMonotone c
    pub recent : a.last_alerted ≤ now c
    pub latest : Latest a.last_alerted sent
    pub spaced : Spaced w sent

  abbrev Logged : ℤ → Check fl → List ℕ → Type 0
  Logged w r sent = Log w r.alerter r.clock (noted fl r.fired r.alerter.last_alerted sent)

  tick-Log :
      (w : ℤ) (a : Alerter fl) (c : Clock) (sent : List ℕ) → Log w a c sent → Log w a (tick c) sent
  tick-Log w a c sent l = record {
    window_kept = l.window_kept;
    monotone = l.monotone;
    recent = omega (arith, l.recent, l.monotone c.reads);
    latest = l.latest;
    spaced = l.spaced;
  }

  fire-Log :
      (w : ℤ) (a : Alerter fl) (r : Option (Reason fl)) (c : Clock) (sent : List ℕ)
      → Log w a c sent
      → Logged w (fire fl a r c) sent
  unfolding fire
  fire-Log w a none c sent l = l
  fire-Log w a (some r) c sent l =
      elim (Bool-cases (ltb_ℤ a.window (since (now c) a.last_alerted))) [
        | inr e ↦ rw e (tick-Log w a c sent l)
        | inl e ↦
            let later = now (tick (tick c)) in
            let apart : a.window <ℤ sub_ℕ later a.last_alerted =
              since-lt a.window (now c) later a.last_alerted l.recent
                (omega (arith, l.monotone c.reads, l.monotone (suc c.reads))) e in
            rw e (record {
              window_kept = l.window_kept;
              monotone = l.monotone;
              recent = l.monotone (suc (suc c.reads));
              latest = refl;
              spaced = (
                Follows-Latest w a.last_alerted later sent l.latest (rw l.window_kept at apart),
                l.spaced,
              );
            })
      ]

  check-Log :
      (w : ℤ) (q : Option (List Message)) (a : Alerter fl) (c : Clock) (sent : List ℕ)
      → Log w a c sent
      → Logged w (check fl q a c) sent
  unfolding check decide
  check-Log w none a c sent l = l
  check-Log w (some []) a c sent l = l
  check-Log w (some (m ∷ ms)) a c sent l =
      let t = tally (pos (now c) -ℤ a.window) (m ∷ ms) no_messages in
      elim (Bool-cases (t.total_msgs == 0)) [
        | inl e ↦ rw e (tick-Log w a c sent l)
        | inr e ↦ rw e (fire-Log w a (breach fl a t) (tick c) sent (tick-Log w a c sent l))
      ]

  check_all-Log :
      (w : ℤ) (qs : List (Option (List Message))) (a : Alerter fl) (c : Clock) (sent : List ℕ)
      → Log w a c sent
      → Spaced w (check_all fl qs a c sent).2
  unfolding check_all
  check_all-Log w [] a c sent l = l.spaced
  check_all-Log w (q ∷ qs) a c sent l = check_all-Log w qs _ _ _ (check-Log w q a c sent l)

  -- On a clock that does not run backwards, two alerts of one run are further apart than the
  -- window, whatever the store returns.
  pub start-Spaced :
      (qs : List (Option (List Message))) (a : Alerter fl) (c : Clock)
      → IsMonotone c
      → a.last_alerted ≤ now c
      → Spaced a.window (start fl qs a c).2
  unfolding start
  start-Spaced qs a c mono h = elim (Bool-cases (is_empty a.webhook_url)) [
    | inl e ↦ rw e tt
    | inr e ↦ rw e (
        check_all-Log a.window qs a c []
          (record { window_kept = refl; monotone = mono; recent = h; latest = tt; spaced = tt }))
  ]

  -- The last alert is further back than the window.
  abbrev pub Due : Alerter fl → Clock → Type 0
  Due a c = a.window <ℤ since (now c) a.last_alerted

  fire-fired :
      (a : Alerter fl) (o : Option (Reason fl)) (c : Clock) (r : Reason fl)
      → ((fire fl a o c).fired ≡ some r) ↔ ((o ≡ some r) × Due a c)
  unfolding fire
  fire-fired a none c r = (λ e. cc, λ h. cc)
  fire-fired a (some x) c r = elim (Bool-cases (ltb_ℤ a.window (since (now c) a.last_alerted))) [
    | inl due ↦ rw due (λ e. (e, ground arith), λ h. h.0)
    | inr early ↦ rw early (λ e. absurd cc, λ h. absurd (ground arith))
  ]

  -- A check sends an alert for a reason exactly if messages are counted, the reason is what the
  -- counters say of the thresholds, and the last alert is further back than the window.
  pub decide-fired :
      (a : Alerter fl) (t : Tally) (c : Clock) (r : Reason fl)
      → ((decide fl a t c).fired ≡ some r) ↔ ((0 < t.total_msgs) × (Breached fl a t r × Due a c))
  unfolding decide
  decide-fired a t c r = elim (Bool-cases (t.total_msgs == 0)) [
    | inl e ↦ rw e (λ h. cc, λ h. absurd (ground arith))
    | inr e ↦ rw e (
      λ h.
          let (b, due) = (fire-fired a (breach fl a t) c r).0 h in
          (ground arith, (breach-Breached fl a t r b, due)),
      λ h. (fire-fired a (breach fl a t) c r).1 (Breached-breach fl a t r h.1.0, h.1.1),
    )
  ]
