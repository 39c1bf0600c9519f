-- ===== src/Alert.antt =====
-- internal/alert/alert.go. The messages of a check are those that the store's `QueryAll` returned.
-- An alert is a value here; Webhook is its request.
mod Tests
pub mod Counts
pub mod Breaches
pub mod Cooldown
pub mod Webhook
use mcpwatch.Base.{
  ℕ, suc, Bool, true, false, not, ◌&&◌, ◌||◌, Option, none, some, List, [], ◌∷◌, Bytes, is_empty,
  ◌==◌, ltb, if◌then◌else◌,
}
use mcpwatch.Base.Int.{ℤ, pos, ◌-ℤ◌, ◌+ℤ◌, ltb_ℤ, div_ℤ, wrap64, scale, is_positive}
use mcpwatch.Base.Time.{Clock, now, tick, since}
use mcpwatch.Base.Float.{Float64}
use mcpwatch.Engine.Message.{MsgType, Message, is_request, is_response, is_error}

-- The counters of a check.
pub record Tally : Type 0 where
  pub total_msgs : ℕ
  pub error_msgs : ℕ
  pub total_latency : ℤ
  pub latency_count : ℕ

abbrev pub no_messages : Tally
no_messages = record { total_msgs = 0; error_msgs = 0; total_latency = pos 0; latency_count = 0 }

-- `t.After(cutoff)`.
abbrev pub is_after : ℤ → Message → Bool
is_after cutoff m = ltb_ℤ cutoff (pos m.timestamp)

-- Raw streams and notifications do not count.
abbrev pub is_counted : Message → Bool
is_counted m = is_request m.msg_type || is_response m.msg_type

abbrev pub has_latency : Message → Bool
has_latency m = is_response m.msg_type && is_positive m.latency_ms

-- The two tests of a message within the window.
unfoldable pub count_message : Message → Tally → Tally
count_message m t = record {
  total_msgs = if is_counted m then suc t.total_msgs else t.total_msgs;
  error_msgs = if is_counted m && is_error m then suc t.error_msgs else t.error_msgs;
  total_latency =
      if has_latency m then wrap64 (t.total_latency +ℤ m.latency_ms) else t.total_latency;
  latency_count = if has_latency m then suc t.latency_count else t.latency_count;
}

unfoldable pub tally : ℤ → List Message → Tally → Tally
tally cutoff [] t = t
tally cutoff (m ∷ ms) t = tally cutoff ms (if is_after cutoff m then count_message m t else t)

module _ (fl : Float64) where
  open fl use {F, of_int, times, over, greater}

  pub record Alerter : Type 0 where
    pub webhook_url : Bytes
    pub error_rate_threshold : F
    pub latency_threshold : ℤ
    pub window : ℤ
    pub last_alerted : ℕ

  pub data Reason : Type 0 where
    error_rate : F → F → Reason
    latency : ℤ → ℤ → Reason

  -- `New`; the window is given in seconds.
  unfoldable pub new_alerter : Bytes → F → ℤ → ℤ → Alerter
  new_alerter webhook rate ms seconds = record {
    webhook_url = webhook;
    error_rate_threshold = rate;
    latency_threshold = ms;
    window = wrap64 (scale seconds 1_000_000_000);
    last_alerted = 0;
  }

  unfoldable pub error_rate_of : Tally → F
  error_rate_of t = times (over (of_int t.error_msgs) (of_int t.total_msgs)) (of_int 100)

  unfoldable pub avg_latency : Tally → ℤ
  avg_latency t = if ltb 0 t.latency_count then div_ℤ t.total_latency t.latency_count else pos 0

  -- The threshold that the counts breach, if any; the error rate goes first.
  unfoldable pub breach : Alerter → Tally → Option Reason
  unfolding error_rate_of avg_latency
  breach a t =
      if greater a.error_rate_threshold (of_int 0)
        && greater (error_rate_of t) a.error_rate_threshold
      then some (error_rate (error_rate_of t) a.error_rate_threshold)
      else if is_positive a.latency_threshold && ltb_ℤ a.latency_threshold (avg_latency t)
      then some (latency (avg_latency t) a.latency_threshold)
      else none

  -- An alert was sent for a reason, or none was.
  pub record Check : Type 0 where
    pub alerter : Alerter
    pub fired : Option Reason
    pub clock : Clock

  -- The clock is read for `time.Since`, for the text of the alert and for `lastAlerted`.
  unfoldable pub fire : Alerter → Option Reason → Clock → Check
  fire a none c = record { alerter = a; fired = none; clock = c }
  fire a (some r) c =
      if ltb_ℤ a.window (since (now c) a.last_alerted)
      then record {
        alerter = record a { last_alerted = now (tick (tick c)) };
        fired = some r;
        clock = tick (tick (tick c));
      }
      else record { alerter = a; fired = none; clock = tick c }

  -- What follows the loop over the messages.
  unfoldable pub decide : Alerter → Tally → Clock → Check
  decide a t c =
      if t.total_msgs == 0
      then record { alerter = a; fired = none; clock = c }
      else fire a (breach a t) c

  -- `check`; no list stands for an error of the store.
  unfoldable pub check : Option (List Message) → Alerter → Clock → Check
  check none a c = record { alerter = a; fired = none; clock = c }
  check (some []) a c = record { alerter = a; fired = none; clock = c }
  check (some (m ∷ ms)) a c =
      decide a (tally (pos (now c) -ℤ a.window) (m ∷ ms) no_messages) (tick c)

  abbrev pub noted : Option Reason → ℕ → List ℕ → List ℕ
  noted none t sent = sent
  noted (some _) t sent = t ∷ sent

  -- The checks of the ticker, and the times at which alerts were sent, the latest first.
  unfoldable pub check_all :
      List (Option (List Message)) → Alerter → Clock → List ℕ → Alerter × Clock × List ℕ
  check_all [] a c sent = (a, c, sent)
  check_all (q ∷ qs) a c sent =
      let r = check q a c in
      check_all qs r.alerter r.clock (noted r.fired r.alerter.last_alerted sent)

  -- `Start`: with no webhook it returns at once.
  unfoldable pub start : List (Option (List Message)) → Alerter → Clock → Alerter × Clock × List ℕ
  start qs a c = if is_empty a.webhook_url then (a, c, []) else check_all qs a c []
