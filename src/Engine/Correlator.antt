-- ===== src/Engine/Correlator.antt =====
-- internal/engine/correlator.go. The tracer is a library: the calls that the code makes to it are
-- recorded in order, the latest first, and a span is named by the number of spans started before
-- it. `mu` is held for the whole of a call of `Process`, so calls do not interleave.
pub mod Hash
pub mod Slots
pub mod Answers
pub mod Spans
pub mod Leaks
pub mod Replaced
use mcpwatch.Base.{
  ℕ, suc, ◌+◌, ◌*◌, ◌%◌, ◌^◌, Bool, true, false, Option, none, some, List, [], ◌∷◌, ◌++◌, Bytes,
  codes, is_empty, eq_bytes, ◌==◌, if◌then◌else◌,
}
use mcpwatch.Base.Int.{ℤ, pos}
use mcpwatch.Base.Time.{Clock, now, tick, since, milliseconds}
use mcpwatch.Engine.Message.{MsgType, request, response, Message, is_error}
use mcpwatch.Engine.Json.{Codec}

abbrev pub num_slots : ℕ
num_slots = 4096

pub record PendingSlot : Type 0 where
  pub jsonrpc_id : Bytes
  pub sent_at : ℕ
  pub method : Bytes
  pub span : Option ℕ

abbrev pub empty_slot : PendingSlot
empty_slot = record { jsonrpc_id = []; sent_at = 0; method = []; span = none }

-- The array of slots.
pub record Correlator : Type 0 where
  pub slots : ℕ → PendingSlot

-- `NewCorrelator`.
abbrev pub new_correlator : Correlator
new_correlator = record { slots = λ _. empty_slot }

-- `c.slots[i] = s`.
unfoldable pub write_slot : ℕ → PendingSlot → Correlator → Correlator
write_slot i s c = record c { slots = λ j. if j == i then s else c.slots j }

hash_from : ℕ → Bytes → ℕ
hash_from h [] = h
hash_from h (b ∷ s) = hash_from ((h * 31 + b) % 2 ^ 32) s

unfoldable pub hash_string : Bytes → ℕ
unfolding hash_from
hash_string s = hash_from 0 s

unfoldable pub slot_index : Bytes → ℕ
slot_index id = hash_string id % num_slots

pub data Attribute : Type 0 where
  text : Bytes → Bytes → Attribute
  int64 : Bytes → ℤ → Attribute

pub data SpanCall : Type 0 where
  -- The parent's traceparent, if there is one, the name and the attributes.
  start : ℕ → Option Bytes → Bytes → List Attribute → SpanCall
  set_error : ℕ → Bytes → SpanCall
  set_ok : ℕ → SpanCall
  set_attributes : ℕ → List Attribute → SpanCall
  finish : ℕ → SpanCall

-- What a call of `Process` reads and writes beside the slots.
pub record Env : Type 0 where
  pub clock : Clock
  pub started : ℕ
  pub calls : List SpanCall

abbrev pub call : SpanCall → Env → Env
call s e = record e { calls = s ∷ e.calls }

-- The traceparent that `meta`, or else `_meta`, gives.
unfoldable pub traceparent_in : Option (Bytes × Bytes) → Option Bytes
traceparent_in none = none
traceparent_in (some (meta, meta_alt)) =
    let tp = if is_empty meta then meta_alt else meta in if is_empty tp then none else some tp

-- The attributes that a response sets on its span.
abbrev response_attributes : Message → List Attribute
response_attributes m =
    int64 (codes "mcp.response_bytes") (pos m.size_bytes)
    ∷ int64 (codes "mcp.latency_ms") m.latency_ms
    ∷ []

abbrev request_attributes : Message → List Attribute
request_attributes m =
    text (codes "mcp.method") m.method
    ∷ text (codes "mcp.transport") m.transport
    ∷ text (codes "mcp.direction") m.direction
    ∷ text (codes "mcp.jsonrpc_id") m.jsonrpc_id
    ∷ int64 (codes "mcp.request_bytes") (pos m.size_bytes)
    ∷ []

abbrev error_attributes : Message → List Attribute
error_attributes m =
    text (codes "mcp.error_code") m.error_code ∷ text (codes "mcp.error_data") m.error_data ∷ []

-- The status that a response gives its span.
unfoldable pub set_status : ℕ → Message → Env → Env
set_status s m e =
    if is_error m
    then call (set_attributes s (error_attributes m))
        (call (set_error s (codes "Error Code: " ++ m.error_code)) e)
    else call (set_ok s) e

unfoldable pub end_span : Option ℕ → Message → Env → Env
unfolding set_status
end_span none m e = e
end_span (some s) m e =
    call (finish s) (call (set_attributes s (response_attributes m)) (set_status s m e))

module _ {F : Type 0} (codec : Codec F) where
  unfoldable pub extract_parent_context : Message → Option Bytes
  unfolding traceparent_in
  extract_parent_context m =
      if is_empty m.params then none else traceparent_in (codec.unmarshal_meta m.params)

  -- The tracer is there, or `otel.Tracer` gave nil.
  unfoldable pub start_span : Bool → Message → Env → Option ℕ × Env
  start_span false m e = (none, e)
  start_span true m e = (
    some e.started,
    record e {
      started = suc e.started;
      calls =
          start e.started (extract_parent_context m) (codes "mcp.request." ++ m.method)
            (request_attributes m)
          ∷ e.calls;
    },
  )

  unfoldable pub process_request : Bool → Message → Correlator → Env → Correlator × Env × Message
  process_request tracing m c e =
      let (span, e') = start_span tracing m e in
      (
        write_slot (slot_index m.jsonrpc_id)
            (record {
              jsonrpc_id = m.jsonrpc_id;
              sent_at = m.timestamp;
              method = m.method;
              span = span;
            })
            c,
        e',
        m,
      )

-- The response with its latency, and with the request's method if it names none.
unfoldable pub answered : PendingSlot → Clock → Message → Message
answered slot clock m = record m {
  latency_ms = milliseconds (since (now clock) slot.sent_at);
  method = if is_empty m.method then slot.method else m.method;
}

-- A response whose id is not the one in its slot changes nothing.
unfoldable pub process_response : Message → Correlator → Env → Correlator × Env × Message
process_response m c e =
    let slot = c.slots (slot_index m.jsonrpc_id) in
    let m' = answered slot e.clock m in
    if eq_bytes slot.jsonrpc_id m.jsonrpc_id
    then (
      write_slot (slot_index m.jsonrpc_id) empty_slot c,
      end_span slot.span m' (record e { clock = tick e.clock }),
      m',
    )
    else (c, e, m)

module _ {F : Type 0} (codec : Codec F) (tracing : Bool) where
  unfoldable pub dispatch : MsgType → Message → Correlator → Env → Correlator × Env × Message
  dispatch request m c e = process_request codec tracing m c e
  dispatch response m c e = process_response m c e
  dispatch _ m c e = (c, e, m)

  -- `Process`; the message that it changes is returned.
  unfoldable pub process : Message → Correlator → Env → Correlator × Env × Message
  process m c e = if is_empty m.jsonrpc_id then (c, e, m) else dispatch m.msg_type m c e

  -- A history of calls.
  unfoldable pub process_all : List Message → Correlator → Env → Correlator × Env
  process_all [] c e = (c, e)
  process_all (m ∷ ms) c e = let (c', e', m') = process m c e in process_all ms c' e'

  -- The messages as the calls leave them.
  unfoldable pub outputs : List Message → Correlator → Env → List Message
  outputs [] c e = []
  outputs (m ∷ ms) c e = let (c', e', m') = process m c e in m' ∷ outputs ms c' e'
