-- ===== src/Transport/Wire.antt =====
-- What the interceptors share: the channel of messages, the clock that the parser reads, and the
-- hand-over of one text to the parser.
use mcpwatch.Base.{ℕ, ◌/◌, Option, none, some, [], Bytes, codes, length}
use mcpwatch.Base.Int.{pos}
use mcpwatch.Base.Time.{Clock, now, tick}
use mcpwatch.Base.Channel.{Channel, try_send}
use mcpwatch.Engine.Message.{stderr, Message}
use mcpwatch.Engine.Parser.{Parser}

-- `io.EOF`, another error of the connection, and the interceptor's own.
pub data IoError : Type 0 where
  eof limit_exceeded : IoError
  failed : ℕ → IoError

pub record Wire : Type 0 where
  pub messages : Channel Message
  pub clock : Clock

-- `messages <- msg` unless the channel is full.
abbrev pub send : Message → Wire → Wire
send m w = record w { messages = try_send m w.messages }

abbrev hand_over : Option Message × Clock → Wire → Wire
hand_over (none, c) w = record w { clock = c }
hand_over (some m, c) w = send m (record w { clock = c })

-- `if msg := parser.Parse(raw, direction, transport); msg != nil { … }`.
unfoldable pub deliver : Parser → Bytes → Bytes → Bytes → Wire → Wire
deliver p direction transport raw w = hand_over (p.parse w.clock raw direction transport) w

-- A line of standard error, which is not parsed.
unfoldable pub send_stderr : Bytes → Bytes → Wire → Wire
send_stderr transport line w =
    send
      (record {
        id = 0;
        timestamp = now w.clock;
        transport = transport;
        direction = codes "ERR";
        msg_type = stderr;
        method = [];
        jsonrpc_id = [];
        params = [];
        result = [];
        error_data = [];
        latency_ms = pos 0;
        size_bytes = length line;
        token_estimate = length line / 4;
        error_code = [];
        raw = line;
      })
      (record w { clock = tick w.clock })
