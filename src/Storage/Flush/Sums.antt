-- ===== src/Storage/Flush/Sums.antt =====
-- internal/storage/badger.go: what the sums of the statistics say of messages.
use mcpwatch.Base.{ℕ, ◌+◌, ◌%◌, ◌≡◌, ◌<◌, List, [], ◌∷◌, count, length, arith}
use mcpwatch.Base.Float.{Float64}
use mcpwatch.Engine.Message.{Message, is_request, has_error_data}
use mcpwatch.Storage.Flush.{word, Stats, count_stats, with_average}

abbrev pub sum : (Message → ℕ) → List Message → ℕ
sum f [] = 0
sum f (m ∷ ms) = f m + sum f ms

module _ (fl : Float64) where
  -- `t` are the statistics `s` after the messages `ms`.
  pub record Counts (s : Stats fl) (ms : List Message) (t : Stats fl) : Type 0 where
    pub messages : t.total_messages ≡ (s.total_messages + length ms) % word
    pub requests :
        t.total_requests ≡ (s.total_requests + count (λ m. is_request m.msg_type) ms) % word
    pub errors :
        t.total_errors ≡ (s.total_errors + count (λ m. has_error_data m.error_data) ms) % word
    pub bytes : t.total_bytes ≡ (s.total_bytes + sum (λ m. m.size_bytes) ms) % word
    pub tokens : t.total_tokens ≡ (s.total_tokens + sum (λ m. m.token_estimate) ms) % word

  -- Statistics that fit their words.
  pub record IsWide (s : Stats fl) : Type 0 where
    pub messages : s.total_messages < word
    pub requests : s.total_requests < word
    pub errors : s.total_errors < word
    pub bytes : s.total_bytes < word
    pub tokens : s.total_tokens < word

  pub Counts-nil : (s : Stats fl) → IsWide s → Counts s [] s
  Counts-nil s w = record {
    messages = omega (arith, w.messages);
    requests = omega (arith, w.requests);
    errors = omega (arith, w.errors);
    bytes = omega (arith, w.bytes);
    tokens = omega (arith, w.tokens);
  }

  pub Counts-cons :
      (m : Message) (ms : List Message) (s t : Stats fl)
      → Counts (count_stats fl m s) ms t
      → Counts s (m ∷ ms) t
  unfolding count_stats
  Counts-cons m ms s t c = record {
    messages = omega (arith, c.messages);
    requests = ground (arith, c.requests);
    errors = ground (arith, c.errors);
    bytes = omega (arith, c.bytes);
    tokens = omega (arith, c.tokens);
  }

  pub count_stats-IsWide : (m : Message) (s : Stats fl) → IsWide s → IsWide (count_stats fl m s)
  unfolding count_stats
  count_stats-IsWide m s w = record {
    messages = omega arith;
    requests = ground (arith, w.requests);
    errors = ground (arith, w.errors);
    bytes = omega arith;
    tokens = omega arith;
  }

  pub Counts-with_average :
      (x : fl.F) (s t : Stats fl) (ms : List Message)
      → Counts s ms t
      → Counts s ms (with_average fl x t)
  unfolding with_average
  Counts-with_average x s t ms c = record {
    messages = ground (arith, c.messages);
    requests = ground (arith, c.requests);
    errors = ground (arith, c.errors);
    bytes = ground (arith, c.bytes);
    tokens = ground (arith, c.tokens);
  }
