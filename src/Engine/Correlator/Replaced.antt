-- ===== src/Engine/Correlator/Replaced.antt =====
-- A pending request whose slot another request takes.
use mcpwatch.Base.{ℕ, ◌≡◌, ◌≢◌, Bool, [], List, some, Bytes, All}
use mcpwatch.Engine.Message.{request, response, Message}
use mcpwatch.Engine.Json.{Codec}
use mcpwatch.Engine.Correlator.{Correlator, Env, slot_index, process, process_all}
use mcpwatch.Engine.Correlator.Answers.{NotAsked, process-overwritten}
use mcpwatch.Engine.Correlator.Spans.{ended, SpansInv}
use mcpwatch.Engine.Correlator.Leaks.{process-leaks}

module _ {F : Type 0} (codec : Codec F) (tracing : Bool) where
  -- Where the spans are in order, a request that hashes to the slot of another id takes it over.
  -- Unless that id is asked again, its response is passed on as it came, with no latency and no
  -- method, and the span that stood in the slot is never ended, whatever messages follow.
  pub process-replaced :
      (id : Bytes) (s : ℕ) (m r : Message) (ms : List Message) (c : Correlator) (e : Env)
      → SpansInv c e
      → id ≢ []
      → m.msg_type ≡ request
      → m.jsonrpc_id ≢ []
      → m.jsonrpc_id ≢ id
      → slot_index m.jsonrpc_id ≡ slot_index id
      → (c.slots (slot_index m.jsonrpc_id)).span ≡ some s
      → All (NotAsked id) ms
      → r.msg_type ≡ response
      → r.jsonrpc_id ≡ id
      → let after = process codec tracing m c e in
        let later = process_all codec tracing ms after.0 after.1 in
        (process codec tracing r later.0 later.1 ≡ (later.0, later.1, r))
        × (ended s later.1.calls ≡ 0)
  process-replaced id s m r ms c e v ne tm nm diff hit held l tr same = (
    process-overwritten codec tracing id m r ms c e ne tm nm diff hit l tr same,
    process-leaks codec tracing s m ms c e v tm nm held,
  )
