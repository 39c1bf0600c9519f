-- ===== src/Engine/Correlator/Leaks.antt =====
-- A span whose request lost its slot before the response came.
use mcpwatch.Base.{
  ℕ, ◌<◌, ◌≡◌, ◌≢◌, refl, Bool, true, false, List, [], ◌∷◌, Option, none, some, arith,
}
use mcpwatch.Engine.Message.{request, Message}
use mcpwatch.Engine.Json.{Codec}
use mcpwatch.Engine.Correlator.{
  Correlator, Env, empty_slot, write_slot, slot_index, start_span, end_span, process_request,
  process, process_all,
}
use mcpwatch.Engine.Correlator.Slots.{process_cases, process-request}
use mcpwatch.Engine.Correlator.Spans.{ended, ended-end_span, SpansInv}

-- Span `s` was started, no slot holds it, and it was not ended.
record Orphan (s : ℕ) (c : Correlator) (e : Env) : Type 0 where
  known : s < e.started
  unheld : (i : ℕ) → (c.slots i).span ≢ some s
  unended : ended s e.calls ≡ 0

answer-Orphan :
    (s k : ℕ) (held : Option ℕ) (m : Message) (c : Correlator) (e : Env)
    → (c.slots k).span ≡ held
    → Orphan s c e
    → Orphan s (write_slot k empty_slot c) (end_span held m e)
unfolding write_slot
answer-Orphan s k none m c e h o = record {
  known = unfold end_span in o.known;
  unheld = λ i p. ground (arith, o.unheld i);
  unended = unfold end_span in o.unended;
}
answer-Orphan s k (some t) m c e h o = record {
  known = ground (arith, ended-end_span s t m e, o.known);
  unheld = λ i p. ground (arith, o.unheld i);
  unended = ground (arith, ended-end_span s t m e, o.unended, o.unheld k);
}

module _ {F : Type 0} (codec : Codec F) where
  request-Orphan :
      (tracing : Bool) (s : ℕ) (m : Message) (c : Correlator) (e : Env)
      → Orphan s c e
      → let r = process_request codec tracing m c e in Orphan s r.0 r.1
  unfolding process_request write_slot start_span
  request-Orphan true s m c e o = record {
    known = omega (arith, o.known);
    unheld = λ i p. ground (arith, o.unheld i, o.known);
    unended = o.unended;
  }
  request-Orphan false s m c e o = record {
    known = o.known;
    unheld = λ i p. ground (arith, o.unheld i);
    unended = o.unended;
  }

  -- The request that takes a slot over leaves the span behind.
  evict-Orphan :
      (tracing : Bool) (s : ℕ) (m : Message) (c : Correlator) (e : Env)
      → SpansInv c e
      → (c.slots (slot_index m.jsonrpc_id)).span ≡ some s
      → let r = process_request codec tracing m c e in Orphan s r.0 r.1
  unfolding process_request write_slot start_span
  evict-Orphan true s m c e v h = record {
    known = omega (arith, v.open_spans _ s h);
    unheld = λ i p. ground (arith, v.open_spans _ s h, v.distinct i (slot_index m.jsonrpc_id) s);
    unended = (v.open_spans _ s h).1;
  }
  evict-Orphan false s m c e v h = record {
    known = (v.open_spans _ s h).0;
    unheld = λ i p. ground (arith, v.distinct i (slot_index m.jsonrpc_id) s);
    unended = (v.open_spans _ s h).1;
  }

module _ {F : Type 0} (codec : Codec F) (tracing : Bool) where
  process-Orphan :
      (s : ℕ) (m : Message) (c : Correlator) (e : Env)
      → Orphan s c e
      → let r = process codec tracing m c e in Orphan s r.0 r.1
  process-Orphan s m c e o =
      process_cases codec tracing (λ r. Orphan s r.0 r.1) m c e o
        (λ _. request-Orphan codec tracing s m c e o)
        (λ _ _ _.
          answer-Orphan s (slot_index m.jsonrpc_id) _ _ c _ refl
            (record { known = o.known; unheld = o.unheld; unended = o.unended }))

  process_all-Orphan :
      (s : ℕ) (ms : List Message) (c : Correlator) (e : Env)
      → Orphan s c e
      → let r = process_all codec tracing ms c e in Orphan s r.0 r.1
  unfolding process_all
  process_all-Orphan s [] c e o = o
  process_all-Orphan s (m ∷ ms) c e o = process_all-Orphan s ms _ _ (process-Orphan s m c e o)

  -- A request that takes a slot over drops the span of the request that stood there: whatever
  -- messages follow, that span is never ended.
  pub process-leaks :
      (s : ℕ) (m : Message) (ms : List Message) (c : Correlator) (e : Env)
      → SpansInv c e
      → m.msg_type ≡ request
      → m.jsonrpc_id ≢ []
      → (c.slots (slot_index m.jsonrpc_id)).span ≡ some s
      → let after = process codec tracing m c e in
        ended s (process_all codec tracing ms after.0 after.1).1.calls ≡ 0
  process-leaks s m ms c e v t ne h =
      rw (process-request codec tracing m c e t ne)
        (process_all-Orphan s ms _ _ (evict-Orphan codec tracing s m c e v h)).unended
