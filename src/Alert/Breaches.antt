-- ===== src/Alert/Breaches.antt =====
-- internal/alert/alert.go: which thresholds the counters of a check breach.
use mcpwatch.Base.{
  suc, ◌<◌, ◌≡◌, ◌↔◌, refl, true, some, Bool-cases, inl, inr, arith, ◌⊎◌, sym, ap, ◌∙◌, false, ◌&&◌,
  ltb, some_inj, zero,
}
use mcpwatch.Base.Int.{ℤ, pos, negsuc, is_positive, div_ℤ, ◌<ℤ◌, ltb_ℤ}
use mcpwatch.Base.Float.{Float64}
use mcpwatch.Alert.{Alerter, Tally, Reason, error_rate, latency, error_rate_of, avg_latency, breach}

module _ (fl : Float64) where
  -- What an alert for a reason says of the counters and the thresholds: more than the threshold's
  -- share of the messages, in percent, are errors; or that is not so, and the average latency of the
  -- responses that have one is over its threshold. A threshold of zero is none.
  pub data Breached (a : Alerter fl) (t : Tally) : Reason fl → Type 0 where
    errors_high :
        (rate : fl.F)
        → rate
          ≡ fl.times (fl.over (fl.of_int t.error_msgs) (fl.of_int t.total_msgs)) (fl.of_int 100)
        → fl.greater a.error_rate_threshold (fl.of_int 0) ≡ true
        → fl.greater rate a.error_rate_threshold ≡ true
        → Breached a t (error_rate rate a.error_rate_threshold)
    latency_high :
        (rate : fl.F) (average : ℤ)
        → rate
          ≡ fl.times (fl.over (fl.of_int t.error_msgs) (fl.of_int t.total_msgs)) (fl.of_int 100)
        → (fl.greater a.error_rate_threshold (fl.of_int 0) ≡ false)
          ⊎ (fl.greater rate a.error_rate_threshold ≡ false)
        → 0 < t.latency_count
        → average ≡ div_ℤ t.total_latency t.latency_count
        → pos 0 <ℤ a.latency_threshold
        → a.latency_threshold <ℤ average
        → Breached a t (latency average a.latency_threshold)

  is_positive-lt : (x : ℤ) → (is_positive x ≡ true) ↔ (pos 0 <ℤ x)
  is_positive-lt (pos zero) = (λ e. absurd cc, λ h. absurd (omega arith))
  is_positive-lt (pos (suc n)) = (λ e. omega arith, λ h. refl)
  is_positive-lt (negsuc n) = (λ e. absurd cc, λ h. absurd (omega arith))

  latencies_counted :
      (a : Alerter fl) (t : Tally)
      → pos 0 <ℤ a.latency_threshold
      → a.latency_threshold <ℤ avg_latency fl t
      → (0 < t.latency_count) × (avg_latency fl t ≡ div_ℤ t.total_latency t.latency_count)
  unfolding avg_latency
  latencies_counted a t above over = elim (Bool-cases (ltb 0 t.latency_count)) [
    | inl e ↦ (ground arith, rw (e) refl)
    | inr e ↦
        let low : a.latency_threshold <ℤ pos 0 = rw (e) at over in
        absurd (omega (arith, above, low))
  ]

  pub breach-Breached :
      (a : Alerter fl) (t : Tally) (r : Reason fl) → breach fl a t ≡ some r → Breached a t r
  unfolding breach error_rate_of
  breach-Breached a t r e =
      let limit = a.error_rate_threshold in
      let rate = error_rate_of fl t in
      let on = fl.greater limit (fl.of_int 0) in
      let high = fl.greater rate limit in
      elim (Bool-cases (on && high)) [
        | inl b ↦
            let q = some_inj (error_rate rate limit) r (rw (b) at e) in
            rw (sym q) (errors_high rate refl (ground (arith, b)) (ground (arith, b)))
        | inr b ↦
            let low = a.latency_threshold in
            let slow = is_positive low && ltb_ℤ low (avg_latency fl t) in
            elim (Bool-cases slow) [
              | inl c ↦
                  let q = some_inj (latency (avg_latency fl t) low) r (rw (b, c) at e) in
                  let above = (is_positive-lt low).0 (ground (arith, c)) in
                  let over : low <ℤ avg_latency fl t = ground (arith, c) in
                  let (some_counted, is_mean) = latencies_counted a t above over in
                  rw (sym q) (
                    latency_high rate (avg_latency fl t) refl (ground (arith, b)) some_counted
                      is_mean above over)
              | inr c ↦ let stuck = rw (b, c) at e in absurd cc
            ]
      ]

  pub Breached-breach :
      (a : Alerter fl) (t : Tally) (r : Reason fl) → Breached a t r → breach fl a t ≡ some r
  unfolding breach error_rate_of avg_latency
  Breached-breach a t _ (errors_high rate q on high) =
      let high' = ap (λ x. fl.greater x a.error_rate_threshold) (sym q) ∙ high in
      rw (on, high') (ap (λ x. some (error_rate x a.error_rate_threshold)) (sym q))
  Breached-breach a t _ (latency_high rate average q off some_in m above over) =
      let positive = (is_positive-lt a.latency_threshold).1 above in
      let some_counted : ltb 0 t.latency_count ≡ true = ground arith in
      let over' : ltb_ℤ a.latency_threshold (div_ℤ t.total_latency t.latency_count) ≡ true =
        ground (arith, m) in
      let low : (fl.greater a.error_rate_threshold (fl.of_int 0)
            && fl.greater (error_rate_of fl t) a.error_rate_threshold)
          ≡ false =
        ground (arith, off, ap (λ x. fl.greater x a.error_rate_threshold) q) in
      rw (low, positive, some_counted, over')
        (ap (λ x. some (latency x a.latency_threshold)) (sym m))
