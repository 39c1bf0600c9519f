-- ===== src/Engine/Correlator/Spans.antt =====
-- The spans: which are open, and how often each is ended.
use mcpwatch.Base.{
  ℕ, ◌+◌, ◌≤◌, ◌<◌, ◌≡◌, refl, Bool, true, false, List, [], ◌∷◌, Option, none, some, ◌==◌,
  if◌then◌else◌, arith,
}
use mcpwatch.Base.Time.{Clock}
use mcpwatch.Engine.Message.{Message}
use mcpwatch.Engine.Json.{Codec}
use mcpwatch.Engine.Correlator.{
  Correlator, new_correlator, Env, SpanCall, finish, empty_slot, write_slot, slot_index, start_span,
  end_span, process_request, process, process_all,
}
use mcpwatch.Engine.Correlator.Slots.{process_cases}

-- How often span `s` was ended.
abbrev pub ended : ℕ → List SpanCall → ℕ
ended s [] = 0
ended s (finish t ∷ cs) = (if t == s then 1 else 0) + ended s cs
ended s (_ ∷ cs) = ended s cs

pub ended-end_span :
    (s t : ℕ) (m : Message) (e : Env)
    → (ended s (end_span (some t) m e).calls ≡ (if t == s then 1 else 0) + ended s e.calls)
      × ((end_span (some t) m e).started ≡ e.started)
unfolding end_span
ended-end_span s t m e = ground arith

-- A span that a slot holds was started and not ended, no two slots hold one span, and no span was
-- ended twice.
pub record SpansInv (c : Correlator) (e : Env) : Type 0 where
  pub fresh : (s : ℕ) → e.started ≤ s → ended s e.calls ≡ 0
  pub open_spans : (i s : ℕ) → (c.slots i).span ≡ some s → (s < e.started) × (ended s e.calls ≡ 0)
  pub distinct : (i j s : ℕ) → (c.slots i).span ≡ some s → (c.slots j).span ≡ some s → i ≡ j
  pub once : (s : ℕ) → ended s e.calls ≤ 1

module _ {F : Type 0} (codec : Codec F) where
  -- A request starts a fresh span for its slot, or puts none there.
  request-SpansInv :
      (tracing : Bool) (m : Message) (c : Correlator) (e : Env)
      → SpansInv c e
      → let r = process_request codec tracing m c e in SpansInv r.0 r.1
  unfolding process_request write_slot start_span
  request-SpansInv true m c e v = record {
    fresh = λ s h. ground (arith, v.fresh s);
    open_spans = λ i s h. ground (arith, v.open_spans i s, v.fresh s);
    distinct = λ i j s h k. ground (arith, v.distinct i j s, v.open_spans i s, v.open_spans j s);
    once = λ s. ground (arith, v.once s);
  }
  request-SpansInv false m c e v = record {
    fresh = λ s h. ground (arith, v.fresh s);
    open_spans = λ i s h. ground (arith, v.open_spans i s, v.fresh s);
    distinct = λ i j s h k. ground (arith, v.distinct i j s, v.open_spans i s, v.open_spans j s);
    once = λ s. ground (arith, v.once s);
  }

-- Emptying slot `k` and ending what it held.
answer-SpansInv :
    (k : ℕ) (held : Option ℕ) (m : Message) (c : Correlator) (e : Env)
    → (c.slots k).span ≡ held
    → SpansInv c e
    → SpansInv (write_slot k empty_slot c) (end_span held m e)
unfolding write_slot
answer-SpansInv k none m c e h v = record {
  fresh = unfold end_span in v.fresh;
  open_spans = unfold end_span in λ i s p. ground (arith, v.open_spans i s);
  distinct = λ i j s p q. ground (arith, v.distinct i j s);
  once = unfold end_span in v.once;
}
answer-SpansInv k (some t) m c e h v = record {
  fresh = λ s p. ground (arith, ended-end_span s t m e, v.fresh s, v.open_spans k t h);
  open_spans = λ i s p. ground (arith, ended-end_span s t m e, v.open_spans i s, v.distinct i k s);
  distinct = λ i j s p q. ground (arith, v.distinct i j s);
  once = λ s. ground (arith, ended-end_span s t m e, v.once s, v.open_spans k t h);
}

module _ {F : Type 0} (codec : Codec F) (tracing : Bool) where
  pub process-SpansInv :
      (m : Message) (c : Correlator) (e : Env)
      → SpansInv c e
      → let r = process codec tracing m c e in SpansInv r.0 r.1
  process-SpansInv m c e v =
      process_cases codec tracing (λ r. SpansInv r.0 r.1) m c e v
        (λ _. request-SpansInv codec tracing m c e v)
        (λ _ _ _. answer-SpansInv (slot_index m.jsonrpc_id) _ _ c _ refl (record {
          fresh = v.fresh;
          open_spans = v.open_spans;
          distinct = v.distinct;
          once = v.once;
        }))

  process_all-SpansInv :
      (ms : List Message) (c : Correlator) (e : Env)
      → SpansInv c e
      → let r = process_all codec tracing ms c e in SpansInv r.0 r.1
  unfolding process_all
  process_all-SpansInv [] c e v = v
  process_all-SpansInv (m ∷ ms) c e v = process_all-SpansInv ms _ _ (process-SpansInv m c e v)

  abbrev pub fresh_env : Clock → Env
  fresh_env clock = record { clock = clock; started = 0; calls = [] }

  pub new_correlator-SpansInv : (clock : Clock) → SpansInv new_correlator (fresh_env clock)
  new_correlator-SpansInv clock = record {
    fresh = λ s h. refl;
    open_spans = λ i s h. cc;
    distinct = λ i j s h k. cc;
    once = λ s. omega arith;
  }

  -- From an empty correlator on, whatever messages come in, no span is ended twice, and the slots
  -- hold only spans that are still open, each in one slot.
  pub process_all_spans :
      (ms : List Message) (clock : Clock)
      → let r = process_all codec tracing ms new_correlator (fresh_env clock) in
        ((s : ℕ) → ended s r.1.calls ≤ 1)
        × ((i s : ℕ) → (r.0.slots i).span ≡ some s → ended s r.1.calls ≡ 0)
        × ((i j s : ℕ) → (r.0.slots i).span ≡ some s → (r.0.slots j).span ≡ some s → i ≡ j)
  process_all_spans ms clock =
      let v =
        process_all-SpansInv ms new_correlator (fresh_env clock) (new_correlator-SpansInv clock) in
      (v.once, λ i s h. (v.open_spans i s h).1, v.distinct)
