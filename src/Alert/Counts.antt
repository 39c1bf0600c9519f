-- ===== src/Alert/Counts.antt =====
-- The counters of a check as counts over the messages in the window.
use mcpwatch.Base.{ℕ, ◌+◌, ◌≤◌, ◌≡◌, Bool, ◌&&◌, List, [], ◌∷◌, count, arith}
use mcpwatch.Base.Int.{ℤ}
use mcpwatch.Engine.Message.{Message, is_error}
use mcpwatch.Alert.{Tally, is_after, is_counted, has_latency, count_message, tally, no_messages}

-- A message counts where it is young enough and passes the test.
abbrev pub recent : ℤ → (Message → Bool) → List Message → ℕ
recent cutoff p = count (λ m. is_after cutoff m && p m)

tally-total :
    (cutoff : ℤ) (ms : List Message) (t : Tally)
    → (tally cutoff ms t).total_msgs ≡ recent cutoff is_counted ms + t.total_msgs
unfolding tally count_message
tally-total cutoff [] t = omega arith
tally-total cutoff (m ∷ ms) t =
    ground (arith, tally-total cutoff ms t, tally-total cutoff ms (count_message m t))

tally-errors :
    (cutoff : ℤ) (ms : List Message) (t : Tally)
    → (tally cutoff ms t).error_msgs
      ≡ recent cutoff (λ m. is_counted m && is_error m) ms + t.error_msgs
unfolding tally count_message
tally-errors cutoff [] t = omega arith
tally-errors cutoff (m ∷ ms) t =
    ground (arith, tally-errors cutoff ms t, tally-errors cutoff ms (count_message m t))

tally-latencies :
    (cutoff : ℤ) (ms : List Message) (t : Tally)
    → (tally cutoff ms t).latency_count ≡ recent cutoff has_latency ms + t.latency_count
unfolding tally count_message
tally-latencies cutoff [] t = omega arith
tally-latencies cutoff (m ∷ ms) t =
    ground (arith, tally-latencies cutoff ms t, tally-latencies cutoff ms (count_message m t))

errors_counted :
    (cutoff : ℤ) (ms : List Message)
    → recent cutoff (λ m. is_counted m && is_error m) ms ≤ recent cutoff is_counted ms
errors_counted cutoff [] = omega arith
errors_counted cutoff (m ∷ ms) = ground (arith, errors_counted cutoff ms)

-- A check counts the requests and responses of the window, the errors among them, which are never
-- more, and the responses with a latency.
pub tally-counts :
    (cutoff : ℤ) (ms : List Message)
    → let t = tally cutoff ms no_messages in
      (t.total_msgs ≡ recent cutoff is_counted ms)
      × (t.error_msgs ≡ recent cutoff (λ m. is_counted m && is_error m) ms)
      × (t.error_msgs ≤ t.total_msgs)
      × (t.latency_count ≡ recent cutoff has_latency ms)
tally-counts cutoff ms = (
  omega (arith, tally-total cutoff ms no_messages),
  omega (arith, tally-errors cutoff ms no_messages),
  omega (
    arith,
    tally-total cutoff ms no_messages,
    tally-errors cutoff ms no_messages,
    errors_counted cutoff ms,
  ),
  omega (arith, tally-latencies cutoff ms no_messages),
)
