-- ===== src/Alert/Webhook.antt =====
-- internal/alert/alert.go: `fireAlert`, with the text of the alert as it is formatted. What
-- encoding/json and net/http answer is given.
use mcpwatch.Base.{ℕ, ◌*◌, Bool, Option, none, some, Bytes, codes, leb, if◌then◌else◌}

pub record Post : Type 0 where
  pub url : Bytes
  pub content_type : Bytes
  pub body : Bytes
  pub timeout_ms : ℕ

-- Why no request was sent, or how it was answered.
pub data Dispatch : Type 0 where
  not_encoded not_made not_sent : Dispatch
  refused dispatched : ℕ → Dispatch

abbrev pub webhook_post : Bytes → Bytes → Post
webhook_post url body = record {
  url = url;
  content_type = codes "application/json";
  body = body;
  timeout_ms = 5 * 1000;
}

abbrev pub answered : Option ℕ → Dispatch
answered none = not_sent
answered (some status) = if leb 400 status then refused status else dispatched status

-- `text` is the payload's one field.
unfoldable pub fire_alert :
    (Bytes → Option Bytes) → (Bytes → Bool) → (Post → Option ℕ) → Bytes → Bytes → Dispatch
fire_alert encode makes_request send url text = elim (encode text) [
  | none ↦ not_encoded
  | some body ↦ if makes_request url then answered (send (webhook_post url body)) else not_made
]
