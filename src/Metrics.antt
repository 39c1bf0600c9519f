-- ===== src/Metrics.antt =====
-- internal/metrics/metrics.go: the updates of the Prometheus vectors for a message, in the order in
-- which the program makes them.
pub mod Responses
use mcpwatch.Base.{
  ℕ, ◌&&◌, not, Bool, Option, none, some, List, [], ◌∷◌, ◌++◌, Bytes, codes, ltb, if◌then◌else◌,
}
use mcpwatch.Base.Int.{ℤ, pos, negsuc, is_positive, pos_part}
use mcpwatch.Base.Float.{Float64}
use mcpwatch.Engine.Message.{Message, MsgType, is_response, is_error, type_name}

-- The five vectors.
pub data Vector : Type 0 where
  messages_total requests_total request_duration bytes_total tokens_total : Vector

module _ (fl : Float64) where
  open fl use {F, of_int, over}

  -- `Inc`, `Add` and `Observe` on the member of a vector with these labels.
  pub data Update : Type 0 where
    inc : Vector → List Bytes → Update
    add observe : Vector → List Bytes → F → Update

  abbrev pub when : Bool → Update → List Update
  when b u = if b then u ∷ [] else []

  abbrev pub status_of : Message → Bytes
  status_of m = if is_error m then codes "error" else codes "success"

  -- What a response adds.
  unfoldable pub response_updates : Message → List Update
  response_updates m =
      inc requests_total (m.method ∷ status_of m ∷ [])
      ∷ when (is_positive m.latency_ms) (
          observe request_duration (m.method ∷ [])
            (over (of_int (pos_part m.latency_ms)) (of_int 1000)))

  -- `RecordMetrics`.
  unfoldable pub record_metrics : Option Message → List Update
  unfolding response_updates
  record_metrics none = []
  record_metrics (some m) =
      inc messages_total (m.transport ∷ m.direction ∷ type_name m.msg_type ∷ [])
      ∷ add bytes_total (m.transport ∷ m.direction ∷ []) (of_int m.size_bytes)
      ∷ (when (ltb 0 m.token_estimate)
            (add tokens_total (m.transport ∷ []) (of_int m.token_estimate))
          ++ (if is_response m.msg_type then response_updates m else []))

  -- The updates for one message after another.
  unfoldable pub recorded : List Message → List Update
  recorded [] = []
  recorded (m ∷ ms) = record_metrics (some m) ++ recorded ms
