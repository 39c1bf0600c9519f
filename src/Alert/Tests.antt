-- ===== src/Alert/Tests.antt =====
-- Runs of the checks, and the theorems at concrete inputs.
use mcpwatch.Base.{
  true, ℕ, ◌+◌, ◌*◌, ◌/◌, ◌<◌, ◌≡◌, ◌↔◌, refl, Option, none, some, List, [], ◌∷◌, codes, ltb, arith,
}
use mcpwatch.Base.Int.{pos}
use mcpwatch.Base.Time.{Clock}
use mcpwatch.Base.Float.{Float64}
use mcpwatch.Engine.Message.{response, Message}
use mcpwatch.Alert.{
  Tally, Alerter, latency, breach, error_rate_of, avg_latency, decide, start, fire,
}
use mcpwatch.Alert.Breaches.{Breached}
use mcpwatch.Alert.Cooldown.{Spaced, start-Spaced, Due, decide-fired}

-- Numbers that are whole.
abbrev whole : Float64
whole = record {
  F = ℕ;
  of_int = λ n. n;
  plus = λ a b. a + b;
  times = λ a b. a * b;
  over = λ a b. a / b;
  greater = λ a b. ltb b a;
  is_finite = λ _. true;
}

-- A check a second.
abbrev clock : Clock
clock = record { at = λ i. 63_000_000_000_000_000_000 + 1_000_000_000 * i; reads = 0 }

-- Over 10 percent or 100 ms, in a window of two seconds.
abbrev alerter : Alerter whole
alerter = record {
  webhook_url = codes "http://hook";
  error_rate_threshold = 10;
  latency_threshold = pos 100;
  window = pos 2_000_000_000;
  last_alerted = 0;
}

-- A failed response that took 250 ms.
abbrev failure : Message
failure = record {
  id = 0;
  timestamp = 63_000_000_000_000_000_000;
  transport = codes "stdio";
  direction = codes "OUT";
  msg_type = response;
  method = [];
  jsonrpc_id = codes "1";
  params = [];
  result = [];
  error_data = codes "{}";
  latency_ms = pos 250;
  size_bytes = 0;
  token_estimate = 0;
  error_code = [];
  raw = [];
}

abbrev three_checks : List (Option (List Message))
three_checks = some (failure ∷ []) ∷ none ∷ some (failure ∷ []) ∷ []

start-Spaced_example : Spaced (pos 2_000_000_000) (start whole three_checks alerter clock).2
start-Spaced_example =
    start-Spaced whole three_checks alerter clock (λ i. omega arith) (omega arith)

abbrev one_slow : Tally
one_slow = record { total_msgs = 1; error_msgs = 0; total_latency = pos 250; latency_count = 1 }

decide-fired_example :
    ((decide whole alerter one_slow clock).fired ≡ some (latency (pos 250) (pos 100))) ↔ (
      (0 < 1)
      × (Breached whole alerter one_slow (latency (pos 250) (pos 100)) × Due whole alerter clock))
decide-fired_example = decide-fired whole alerter one_slow clock (latency (pos 250) (pos 100))

slow_fires : (decide whole alerter one_slow clock).fired ≡ some (latency (pos 250) (pos 100))
unfolding decide breach error_rate_of avg_latency fire
slow_fires = refl
