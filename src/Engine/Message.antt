-- ===== src/Engine/Message.antt =====
-- internal/engine/message.go.
use mcpwatch.Base.{[], ℕ, Bool, not, ◌&&◌, ◌||◌, Bytes, codes, eq_bytes, is_empty}
use mcpwatch.Base.Int.{ℤ}

-- The four constants, and the value that a message has before its type is set.
pub data MsgType : Type 0 where
  request response notification stderr unset : MsgType

-- Instants are nanoseconds; the two sizes are lengths of Go strings, or quarters of such, and so
-- never negative.
pub record Message : Type 0 where
  pub id : ℕ
  pub timestamp : ℕ
  pub transport : Bytes
  pub direction : Bytes
  pub msg_type : MsgType
  pub method : Bytes
  pub jsonrpc_id : Bytes
  pub params : Bytes
  pub result : Bytes
  pub error_data : Bytes
  pub latency_ms : ℤ
  pub size_bytes : ℕ
  pub token_estimate : ℕ
  pub error_code : Bytes
  pub raw : Bytes

-- `msg.MsgType == MsgTypeRequest`, and so on.
abbrev pub is_request : MsgType → Bool
is_request MsgType.request = Bool.true
is_request _ = Bool.false

abbrev pub is_response : MsgType → Bool
is_response MsgType.response = Bool.true
is_response _ = Bool.false

abbrev pub null_text : Bytes
null_text = codes "null"

-- `d != "" && d != "null"`.
abbrev pub has_error_data : Bytes → Bool
has_error_data d = not (is_empty d) && not (eq_bytes d null_text)

-- The test that the correlator, the metrics and the alerts share.
abbrev pub is_error : Message → Bool
is_error m = not (is_empty m.error_code) || has_error_data m.error_data

-- `string(msg.MsgType)`.
abbrev pub type_name : MsgType → Bytes
type_name MsgType.request = codes "request"
type_name MsgType.response = codes "response"
type_name MsgType.notification = codes "notification"
type_name MsgType.stderr = codes "stderr"
type_name MsgType.unset = []
