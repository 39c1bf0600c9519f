-- ===== src/Engine/Correlator/Slots.antt =====
-- Which slot a message touches, and what a history does to a pending request.
use mcpwatch.Base.{
  ℕ, ◌≡◌, ◌≢◌, refl, sym, ap, ◌∙◌, inl, inr, Bool, List, [], ◌∷◌, Bytes, All, is_empty,
  is_empty_iff, is_empty-eq_false, eq_bytes, eq_bytes_iff, ◌==◌, ==_iff, Bool-cases, if◌then◌else◌,
  arith,
}
use mcpwatch.Base.Time.{tick}
use mcpwatch.Engine.Message.{MsgType, request, response, notification, stderr, unset, Message}
use mcpwatch.Engine.Json.{Codec}
use mcpwatch.Engine.Correlator.{
  Correlator, Env, PendingSlot, empty_slot, write_slot, slot_index, start_span, end_span,
  process_request, process_response, answered, dispatch, process, process_all,
}

pub slots-write_slot :
    (i j : ℕ) (s : PendingSlot) (c : Correlator)
    → (write_slot i s c).slots j ≡ (if j == i then s else c.slots j)
unfolding write_slot
slots-write_slot i j s c = refl

slots-write_slot_ne :
    (i j : ℕ) (s : PendingSlot) (c : Correlator) → i ≢ j → (write_slot i s c).slots j ≡ c.slots j
slots-write_slot_ne i j s c h = rw slots-write_slot (ground arith)

pub slots-write_slot_self :
    (i : ℕ) (s : PendingSlot) (c : Correlator) → (write_slot i s c).slots i ≡ s
slots-write_slot_self i s c = rw slots-write_slot (ground arith)

-- What the response branch returns where the ids agree.
abbrev pub matched : Message → Correlator → Env → Correlator × Env × Message
matched m c e =
    let slot = c.slots (slot_index m.jsonrpc_id) in
    let m' = answered slot e.clock m in
    (
      write_slot (slot_index m.jsonrpc_id) empty_slot c,
      end_span slot.span m' (record e { clock = tick e.clock }),
      m',
    )

-- An occupied slot stands where its id hashes to.
abbrev pub IsPlaced : Correlator → Type 0
IsPlaced c = (i : ℕ) → (c.slots i).jsonrpc_id ≢ [] → slot_index (c.slots i).jsonrpc_id ≡ i

write_slot-IsPlaced :
    (i : ℕ) (s : PendingSlot) (c : Correlator)
    → IsPlaced c
    → (s.jsonrpc_id ≢ [] → slot_index s.jsonrpc_id ≡ i)
    → IsPlaced (write_slot i s c)
write_slot-IsPlaced i s c p h j = elim (Bool-cases (j == i)) [
  | inl q ↦ rw (slots-write_slot, q) (λ n. h n ∙ sym ((==_iff j i).0 q))
  | inr q ↦ rw (slots-write_slot, q) (p j)
]

-- `m` neither takes the slot of `id` nor answers `id`.
abbrev pub Leaves : Bytes → Message → Type 0
Leaves id m =
    (m.msg_type ≡ request → slot_index m.jsonrpc_id ≢ slot_index id)
    × (m.msg_type ≡ response → m.jsonrpc_id ≢ id)

module _ {F : Type 0} (codec : Codec F) (tracing : Bool) where
  dispatch_cases {ℓ} :
      (P : Correlator × Env × Message → Type ℓ) (t : MsgType) (m : Message) (c : Correlator)
      (e : Env)
      → P (c, e, m)
      → (t ≡ request → P (process_request codec tracing m c e))
      → (t ≡ response
          → (c.slots (slot_index m.jsonrpc_id)).jsonrpc_id ≡ m.jsonrpc_id
          → P (matched m c e))
      → P (dispatch codec tracing t m c e)
  unfolding dispatch process_response
  dispatch_cases P request m c e keep req res = req refl
  dispatch_cases P response m c e keep req res =
      elim (Bool-cases (eq_bytes (c.slots (slot_index m.jsonrpc_id)).jsonrpc_id m.jsonrpc_id)) [
        | inl h ↦ rw h (res refl ((eq_bytes_iff _ _).0 h))
        | inr h ↦ rw h keep
      ]
  dispatch_cases P notification m c e keep req res = keep
  dispatch_cases P stderr m c e keep req res = keep
  dispatch_cases P unset m c e keep req res = keep

  -- A call keeps everything, records a request, or answers from the slot.
  pub process_cases {ℓ} :
      (P : Correlator × Env × Message → Type ℓ) (m : Message) (c : Correlator) (e : Env)
      → P (c, e, m)
      → (m.msg_type ≡ request → P (process_request codec tracing m c e))
      → (m.msg_type ≡ response
          → m.jsonrpc_id ≢ []
          → (c.slots (slot_index m.jsonrpc_id)).jsonrpc_id ≡ m.jsonrpc_id
          → P (matched m c e))
      → P (process codec tracing m c e)
  unfolding process
  process_cases P m c e keep req res = elim (Bool-cases (is_empty m.jsonrpc_id)) [
    | inl h ↦ rw h keep
    | inr h ↦ rw h (
        dispatch_cases P m.msg_type m c e keep req
          (λ t. res t (λ z. cc ((is_empty_iff m.jsonrpc_id).1 z))))
  ]

  -- `Process` keeps every slot in its place: the id in it, if there is one, hashes to its index.
  process-IsPlaced :
      (m : Message) (c : Correlator) (e : Env)
      → IsPlaced c
      → IsPlaced (process codec tracing m c e).0
  process-IsPlaced m c e p =
      process_cases (λ r. IsPlaced r.0) m c e p
        (λ _.
          unfold process_request in write_slot-IsPlaced (slot_index m.jsonrpc_id) _ c p (λ _. refl))
        (λ _ _ _.
          write_slot-IsPlaced (slot_index m.jsonrpc_id) empty_slot c p (λ n. absurd (n refl)))

  process-slot_kept :
      (id : Bytes) (s : PendingSlot) (m : Message) (c : Correlator) (e : Env)
      → Leaves id m
      → s.jsonrpc_id ≡ id
      → c.slots (slot_index id) ≡ s
      → (process codec tracing m c e).0.slots (slot_index id) ≡ s
  process-slot_kept id s m c e l own h =
      process_cases (λ r. r.0.slots (slot_index id) ≡ s) m c e h
        (λ t. unfold process_request in slots-write_slot_ne _ _ _ c (l.0 t) ∙ h)
        (λ t ne eq.
          slots-write_slot_ne _ _ _ c (λ q.
            l.1 t (sym eq ∙ ap (λ i. (c.slots i).jsonrpc_id) q ∙ ap (λ x. x.jsonrpc_id) h ∙ own))
          ∙ h)

  pub process_all-slot_kept :
      (id : Bytes) (s : PendingSlot) (ms : List Message) (c : Correlator) (e : Env)
      → All (Leaves id) ms
      → s.jsonrpc_id ≡ id
      → c.slots (slot_index id) ≡ s
      → (process_all codec tracing ms c e).0.slots (slot_index id) ≡ s
  unfolding process_all
  process_all-slot_kept id s [] c e l own h = h
  process_all-slot_kept id s (m ∷ ms) c e l own h =
      process_all-slot_kept id s ms _ _ l.1 own (process-slot_kept id s m c e l.0 own h)

  pub process-request :
      (m : Message) (c : Correlator) (e : Env)
      → m.msg_type ≡ request
      → m.jsonrpc_id ≢ []
      → process codec tracing m c e ≡ process_request codec tracing m c e
  unfolding process dispatch
  process-request m c e t ne = rw (is_empty-eq_false m.jsonrpc_id ne, t)

  pub process-response :
      (m : Message) (c : Correlator) (e : Env)
      → m.msg_type ≡ response
      → m.jsonrpc_id ≢ []
      → (c.slots (slot_index m.jsonrpc_id)).jsonrpc_id ≡ m.jsonrpc_id
      → process codec tracing m c e ≡ matched m c e
  unfolding process dispatch process_response
  process-response m c e t ne eq =
      rw (is_empty-eq_false m.jsonrpc_id ne, t, (eq_bytes_iff _ _).1 eq)

  -- The slot that a request writes.
  abbrev pub pending : Message → Env → PendingSlot
  pending m e = record {
    jsonrpc_id = m.jsonrpc_id;
    sent_at = m.timestamp;
    method = m.method;
    span = (start_span codec tracing m e).0;
  }

  pub slots-process_request :
      (m : Message) (c : Correlator) (e : Env)
      → (process_request codec tracing m c e).0.slots (slot_index m.jsonrpc_id) ≡ pending m e
  unfolding process_request
  slots-process_request m c e = slots-write_slot_self (slot_index m.jsonrpc_id) (pending m e) c
