-- ===== src/Engine/Parser.antt =====
-- internal/engine/parser.go.
pub mod Laws
use mcpwatch.Base.{ℕ, ◌/◌, Option, none, some, Bytes, codes, length, [], is_empty, if◌then◌else◌}
use mcpwatch.Base.Int.{pos}
use mcpwatch.Base.Time.{Clock, now, tick}
use mcpwatch.Engine.Message.{MsgType, Message}
use mcpwatch.Engine.Json.{Value, str, obj, null, Fields, Codec, get}

-- `engine.Parser`: an implementation may read the clock.
pub record Parser : Type 0 where
  pub parse : Clock → Bytes → Bytes → Bytes → Option Message × Clock

-- The `switch` on method and id.
unfoldable pub classify : Bytes → Bytes → MsgType
classify method id =
    if is_empty method
    then (if is_empty id then MsgType.unset else MsgType.response)
    else (if is_empty id then MsgType.notification else MsgType.request)

module _ {F : Type 0} where
  -- `obj["method"].(string)`, or the empty string.
  unfoldable pub text_of : Option (Value F) → Bytes
  text_of (some (str s)) = s
  text_of _ = []

  module _ (codec : Codec F) where
    open codec use {unmarshal, marshal, print}

    -- The id is printed unless it is absent or `null`.
    unfoldable pub id_of : Option (Value F) → Bytes
    id_of none = []
    id_of (some null) = []
    id_of (some v) = print v

    -- A present field is encoded again.
    unfoldable pub encoded : Option (Value F) → Bytes
    encoded none = []
    encoded (some v) = marshal v

    unfoldable pub code_in : Option (Value F) → Bytes
    code_in none = []
    code_in (some v) = print v

    -- `code` of an error that is an object.
    unfoldable pub code_of : Option (Value F) → Bytes
    unfolding code_in
    code_of (some (obj e)) = code_in (get (codes "code") e)
    code_of _ = []

    -- The message of a decoded object, stamped with the time `t`.
    unfoldable pub message_of : ℕ → Bytes → Bytes → Bytes → Fields F → Message
    unfolding text_of id_of encoded code_of classify
    message_of t raw direction transport o =
        let method = text_of (get (codes "method") o) in
        let id = id_of (get (codes "id") o) in
        record {
          id = 0;
          timestamp = t;
          transport = transport;
          direction = direction;
          msg_type = classify method id;
          method = method;
          jsonrpc_id = id;
          params = encoded (get (codes "params") o);
          result = encoded (get (codes "result") o);
          error_data = encoded (get (codes "error") o);
          latency_ms = pos 0;
          size_bytes = length raw;
          token_estimate = length raw / 4;
          error_code = code_of (get (codes "error") o);
          raw = raw;
        }

    unfoldable pub parse_jsonrpc : Clock → Bytes → Bytes → Bytes → Option Message × Clock
    unfolding message_of
    parse_jsonrpc clock raw direction transport = elim (unmarshal raw) [
      | none ↦ (none, clock)
      | some o ↦ (some (message_of (now clock) raw direction transport o), tick clock)
    ]

    -- `NewJSONRPCParser`.
    abbrev pub jsonrpc_parser : Parser
    jsonrpc_parser = record { parse = parse_jsonrpc }
