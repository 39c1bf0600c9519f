-- ===== src/Engine/Correlator/Answers.antt =====
-- What a history of calls does to a pending request: its response is matched, once, unless another
-- request takes the slot over.
use mcpwatch.Base.{
  ℕ, ◌≡◌, ◌≢◌, refl, sym, ap, ◌∙◌, inl, inr, Bool, List, [], ◌∷◌, Bytes, All, is_empty,
  eq_bytes-eq_false, ◌==◌, Bool-cases, if◌then◌else◌,
}
use mcpwatch.Base.Time.{now, since, milliseconds}
use mcpwatch.Engine.Message.{request, response, Message}
use mcpwatch.Engine.Json.{Codec}
use mcpwatch.Engine.Correlator.{
  Correlator, Env, PendingSlot, empty_slot, write_slot, slot_index, process_request,
  process_response, answered, dispatch, process, process_all,
}
use mcpwatch.Engine.Correlator.Slots.{
  slots-write_slot, slots-write_slot_self, Leaves, process_cases, process_all-slot_kept,
  process-request, process-response, pending, slots-process_request,
}

-- No call of the history is a request with this id.
abbrev pub NotAsked : Bytes → Message → Type 0
NotAsked id m = m.msg_type ≡ request → m.jsonrpc_id ≢ id

abbrev Forgotten : Bytes → Correlator → Type 0
Forgotten id c = (c.slots (slot_index id)).jsonrpc_id ≢ id

write_slot-Forgotten :
    (id : Bytes) (i : ℕ) (s : PendingSlot) (c : Correlator)
    → s.jsonrpc_id ≢ id
    → Forgotten id c
    → Forgotten id (write_slot i s c)
write_slot-Forgotten id i s c ne f = elim (Bool-cases (slot_index id == i)) [
  | inl q ↦ rw (slots-write_slot, q) ne
  | inr q ↦ rw (slots-write_slot, q) f
]

module _ {F : Type 0} (codec : Codec F) (tracing : Bool) where
  -- A response is answered from the request with its id, whatever other calls of `Process` come in
  -- between, as long as they leave that request's slot alone.
  pub process-answers :
      (m r : Message) (ms : List Message) (c : Correlator) (e : Env)
      → m.msg_type ≡ request
      → m.jsonrpc_id ≢ []
      → All (Leaves m.jsonrpc_id) ms
      → r.msg_type ≡ response
      → r.jsonrpc_id ≡ m.jsonrpc_id
      → let after = process codec tracing m c e in
        let later = process_all codec tracing ms after.0 after.1 in
        let last = process codec tracing r later.0 later.1 in
        (last.2.latency_ms ≡ milliseconds (since (now later.1.clock) m.timestamp))
        × (last.2.method ≡ (if is_empty r.method then m.method else r.method))
        × (last.0.slots (slot_index m.jsonrpc_id) ≡ empty_slot)
  process-answers m r ms c e tm ne l tr same =
      let after = process codec tracing m c e in
      let later = process_all codec tracing ms after.0 after.1 in
      let held : after.0.slots (slot_index m.jsonrpc_id) ≡ pending codec tracing m e =
        rw (process-request codec tracing m c e tm ne)
          (slots-process_request codec tracing m c e) in
      let kept : later.0.slots (slot_index m.jsonrpc_id) ≡ pending codec tracing m e =
        process_all-slot_kept codec tracing m.jsonrpc_id (pending codec tracing m e) ms after.0
          after.1 l refl held in
      let found : later.0.slots (slot_index r.jsonrpc_id) ≡ pending codec tracing m e =
        rw same kept in
      let step =
        process-response codec tracing r later.0 later.1 tr (λ z. ne (sym same ∙ z))
          (ap (λ x. x.jsonrpc_id) found ∙ sym same) in
      (
        ap (λ x. x.2.latency_ms) step
            ∙ unfold answered in ap (λ x. milliseconds (since (now later.1.clock) x.sent_at)) found,
        ap (λ x. x.2.method) step
            ∙ unfold answered in ap (λ x. if is_empty r.method then x.method else r.method) found,
        ap (λ x. x.0.slots (slot_index m.jsonrpc_id)) step
            ∙ ap (λ x. (write_slot x empty_slot later.0).slots (slot_index m.jsonrpc_id))
                (ap slot_index same)
            ∙ slots-write_slot_self (slot_index m.jsonrpc_id) empty_slot later.0,
      )

  process-Forgotten :
      (id : Bytes) (m : Message) (c : Correlator) (e : Env)
      → id ≢ []
      → NotAsked id m
      → Forgotten id c
      → Forgotten id (process codec tracing m c e).0
  process-Forgotten id m c e ne l f =
      process_cases codec tracing (λ r. Forgotten id r.0) m c e f
        (λ t. unfold process_request in write_slot-Forgotten id _ _ c (l t) f)
        (λ _ _ _. write_slot-Forgotten id _ empty_slot c (λ z. ne (sym z)) f)

  process_all-Forgotten :
      (id : Bytes) (ms : List Message) (c : Correlator) (e : Env)
      → id ≢ []
      → All (NotAsked id) ms
      → Forgotten id c
      → Forgotten id (process_all codec tracing ms c e).0
  unfolding process_all
  process_all-Forgotten id [] c e ne l f = f
  process_all-Forgotten id (m ∷ ms) c e ne l f =
      process_all-Forgotten id ms _ _ ne l.1 (process-Forgotten id m c e ne l.0 f)

  process-unmatched :
      (r : Message) (c : Correlator) (e : Env)
      → r.msg_type ≡ response
      → Forgotten r.jsonrpc_id c
      → process codec tracing r c e ≡ (c, e, r)
  unfolding process dispatch process_response
  process-unmatched r c e t f = elim (Bool-cases (is_empty r.jsonrpc_id)) [
    | inl h ↦ rw h
    | inr h ↦ rw (h, t, eq_bytes-eq_false _ _ f)
  ]

  -- A request that hashes to an occupied slot takes it over: unless its id is asked again, the
  -- response to the request that stood there is passed on with no latency and no method.
  pub process-overwritten :
      (id : Bytes) (m r : Message) (ms : List Message) (c : Correlator) (e : Env)
      → id ≢ []
      → m.msg_type ≡ request
      → m.jsonrpc_id ≢ []
      → m.jsonrpc_id ≢ id
      → slot_index m.jsonrpc_id ≡ slot_index id
      → All (NotAsked id) ms
      → r.msg_type ≡ response
      → r.jsonrpc_id ≡ id
      → let after = process codec tracing m c e in
        let later = process_all codec tracing ms after.0 after.1 in
        process codec tracing r later.0 later.1 ≡ (later.0, later.1, r)
  process-overwritten id m r ms c e ne tm nm diff hit l tr same =
      let after = process codec tracing m c e in
      let later = process_all codec tracing ms after.0 after.1 in
      let held : after.0.slots (slot_index m.jsonrpc_id) ≡ pending codec tracing m e =
        rw (process-request codec tracing m c e tm nm)
          (slots-process_request codec tracing m c e) in
      let lost : Forgotten id after.0 = λ z.
        diff (sym (ap (λ x. x.jsonrpc_id) held) ∙ ap (λ i. (after.0.slots i).jsonrpc_id) hit ∙ z) in
      process-unmatched r later.0 later.1 tr
        (rw same (process_all-Forgotten id ms after.0 after.1 ne l lost))

  -- A second response with the same id is not answered again.
  process-answers_once :
      (r s : Message) (ms : List Message) (c : Correlator) (e : Env)
      → r.msg_type ≡ response
      → r.jsonrpc_id ≢ []
      → (c.slots (slot_index r.jsonrpc_id)).jsonrpc_id ≡ r.jsonrpc_id
      → All (NotAsked r.jsonrpc_id) ms
      → s.msg_type ≡ response
      → s.jsonrpc_id ≡ r.jsonrpc_id
      → let after = process codec tracing r c e in
        let later = process_all codec tracing ms after.0 after.1 in
        process codec tracing s later.0 later.1 ≡ (later.0, later.1, s)
  process-answers_once r s ms c e tr ne held l ts same =
      let after = process codec tracing r c e in
      let later = process_all codec tracing ms after.0 after.1 in
      let cleared : Forgotten r.jsonrpc_id after.0 = λ z. ne (
        sym z
        ∙ ap (λ x. (x.0.slots (slot_index r.jsonrpc_id)).jsonrpc_id)
            (process-response codec tracing r c e tr ne held)
        ∙ ap (λ x. x.jsonrpc_id) (slots-write_slot_self (slot_index r.jsonrpc_id) empty_slot c)) in
      process-unmatched s later.0 later.1 ts
        (rw same (process_all-Forgotten r.jsonrpc_id ms after.0 after.1 ne l cleared))
