-- ===== src/Engine/Tests.antt =====
-- Runs of the parser and of the correlator, and the theorems at concrete inputs.
use mcpwatch.Base.{
  ℕ, ◌+◌, ◌*◌, ◌%◌, ◌<◌, ◌≡◌, ◌≤◌, ◌≢◌, refl, sym, ap, true, false, none, some, [], ◌∷◌, Bytes,
  codes, eq_bytes, if◌then◌else◌,
}
use mcpwatch.Base.Time.{Clock, now, tick}
use mcpwatch.Engine.Message.{request, response, notification, Message}
use mcpwatch.Engine.Json.{Value, null, number, str, obj, Fields, end, field, Codec, get}
use mcpwatch.Engine.Parser.{parse_jsonrpc, message_of}
use mcpwatch.Engine.Parser.Laws.{Reads, Describes, Writes, parse_jsonrpc-Describes}
use mcpwatch.Engine.Correlator.{
  Correlator, new_correlator, Env, num_slots, hash_string, slot_index, process, process_all,
  process_request, start_span, write_slot, dispatch,
}
use mcpwatch.Engine.Correlator.Hash.{slot_index-poly, poly}
use mcpwatch.Engine.Correlator.Spans.{
  ended, fresh_env, new_correlator-SpansInv, process-SpansInv, process_all_spans,
}
use mcpwatch.Engine.Correlator.Replaced.{process-replaced}

-- A codec that knows two texts, and writes numbers below ten.
abbrev call_text : Bytes
call_text = codes "{\"id\":1,\"method\":\"tools/list\"}"

abbrev error_text : Bytes
error_text = codes "{\"id\":1,\"error\":{\"code\":7}}"

abbrev call_fields : Fields ℕ
call_fields = field (codes "id") (number 1) (field (codes "method") (str (codes "tools/list")) end)

abbrev error_fields : Fields ℕ
error_fields =
    field (codes "id") (number 1)
      (field (codes "error") (obj (field (codes "code") (number 7) end)) end)

print_value : Value ℕ → Bytes
print_value (number n) = (48 + n) ∷ []
print_value (str s) = s
print_value null = codes "null"
print_value _ = codes "{}"

abbrev demo_codec : Codec ℕ
demo_codec = record {
  unmarshal = λ raw.
      if eq_bytes raw call_text
      then some call_fields
      else if eq_bytes raw error_text
      then some error_fields
      else none;
  marshal = λ v. b'!' ∷ print_value v;
  print = print_value;
  unmarshal_meta = λ _. none;
}

-- Readings a millisecond apart.
abbrev clock : Clock
clock = record { at = λ i. 100 + 1_000_000 * i; reads = 3 }

abbrev call_message : Message
call_message = message_of demo_codec (now clock) call_text (codes "IN") (codes "stdio") call_fields

abbrev error_message : Message
error_message =
    message_of demo_codec (now clock) error_text (codes "OUT") (codes "stdio") error_fields

call_parsed :
    parse_jsonrpc demo_codec clock call_text (codes "IN") (codes "stdio")
    ≡ (some call_message, tick clock)
unfolding parse_jsonrpc eq_bytes
call_parsed = refl

error_parsed :
    parse_jsonrpc demo_codec clock error_text (codes "OUT") (codes "stdio")
    ≡ (some error_message, tick clock)
unfolding parse_jsonrpc eq_bytes
error_parsed = refl

call_is_request : (call_message.msg_type ≡ request) × (error_message.msg_type ≡ response)
unfolding message_of get eq_bytes print_value
call_is_request = (refl, refl)

parse_jsonrpc-Describes_example :
    ((o : Fields ℕ) × (demo_codec.unmarshal call_text ≡ some o) × Reads demo_codec o call_message)
    × Describes call_message call_text (codes "IN") (codes "stdio")
    × (call_message.timestamp ≡ now clock)
    × (tick clock ≡ tick clock)
parse_jsonrpc-Describes_example =
    parse_jsonrpc-Describes demo_codec clock call_text (codes "IN") (codes "stdio") call_message
      (tick clock) call_parsed

demo-Writes : Writes demo_codec.marshal
demo-Writes = record { nonempty = λ v e. cc; obj-ne-null = λ o e. cc }

-- Messages of the correlator; the ids Aa and BB hash to one slot.
abbrev asks : Bytes → ℕ → Message
asks id t = record call_message {
  jsonrpc_id = id;
  msg_type = request;
  timestamp = t;
  method = codes "tools/list";
}

abbrev answers : Bytes → Message
answers id = record call_message { jsonrpc_id = id; msg_type = response; method = [] }

abbrev env : Env
env = fresh_env demo_codec true clock

slot_index-poly_example :
    (slot_index (codes "Aa") ≡ poly 0 (codes "Aa") % num_slots)
    × (slot_index (codes "Aa") < num_slots)
slot_index-poly_example = slot_index-poly (codes "Aa")

collision : slot_index (codes "Aa") ≡ slot_index (codes "BB")
unfolding slot_index hash_string
collision = refl

other_id : codes "BB" ≢ codes "Aa"
unfolding eq_bytes
other_id e = let differ : false ≡ true = ap (eq_bytes (codes "Aa")) e in cc

-- The response to request 2, and another one after a notification.
abbrev notice : Message
notice = record call_message { jsonrpc_id = []; msg_type = notification }

process_all_spans_example :
    let r =
      process_all demo_codec true
        (asks (codes "1") 100 ∷ answers (codes "1") ∷ [])
        new_correlator
        env in
    ((s : ℕ) → ended s r.1.calls ≤ 1)
    × ((i s : ℕ) → (r.0.slots i).span ≡ some s → ended s r.1.calls ≡ 0)
    × ((i j s : ℕ) → (r.0.slots i).span ≡ some s → (r.0.slots j).span ≡ some s → i ≡ j)
process_all_spans_example =
    process_all_spans demo_codec true (asks (codes "1") 100 ∷ answers (codes "1") ∷ []) clock

-- Span 0 of request Aa is lost to request BB.
abbrev after_one : Correlator × Env × Message
after_one = process demo_codec true (asks (codes "Aa") 100) new_correlator env

process-replaced_example :
    let after = process demo_codec true (asks (codes "BB") 200) after_one.0 after_one.1 in
    let later = process_all demo_codec true (asks (codes "3") 300 ∷ []) after.0 after.1 in
    (process demo_codec true (answers (codes "Aa")) later.0 later.1
      ≡ (later.0, later.1, answers (codes "Aa")))
    × (ended 0 later.1.calls ≡ 0)
unfolding process dispatch process_request start_span write_slot slot_index hash_string
process-replaced_example =
    process-replaced demo_codec true (codes "Aa") 0 (asks (codes "BB") 200) (answers (codes "Aa"))
      (asks (codes "3") 300 ∷ []) after_one.0 after_one.1
      (process-SpansInv demo_codec true (asks (codes "Aa") 100) new_correlator env
        (new_correlator-SpansInv demo_codec true clock))
      (λ e. cc) refl (λ e. cc) other_id (sym collision) refl (λ t e. cc, tt) refl refl
