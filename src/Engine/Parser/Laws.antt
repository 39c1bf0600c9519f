-- ===== src/Engine/Parser/Laws.antt =====
-- What a parsed message says of the text and of the decoded object.
use mcpwatch.Base.{
  ℕ, ◌+◌, ◌*◌, ◌≤◌, ◌<◌, ◌≡◌, ◌≢◌, ◌↔◌, refl, not, ◌||◌, Option, none, some, Bytes, codes, length,
  [], ◌∷◌, is_empty, is_empty-eq_false, eq_bytes-eq_false, inl, inr, Option-cases, arith,
}
use mcpwatch.Base.Time.{Clock, now, tick}
use mcpwatch.Engine.Message.{MsgType, Message, is_error, has_error_data, null_text}
use mcpwatch.Engine.Json.{Value, obj, null, bool, number, str, arr, Fields, Codec, get}
use mcpwatch.Engine.Parser.{
  classify, text_of, id_of, encoded, code_in, code_of, message_of, parse_jsonrpc,
}

-- The type that JSON-RPC gives to a message with this method and this id.
abbrev Typed : MsgType → Bytes → Bytes → Type 0
Typed MsgType.request method id = (method ≢ []) × (id ≢ [])
Typed MsgType.notification method id = (method ≢ []) × (id ≡ [])
Typed MsgType.response method id = (method ≡ []) × (id ≢ [])
Typed MsgType.unset method id = (method ≡ []) × (id ≡ [])
Typed MsgType.stderr method id = ⊥

classify-Typed : (method id : Bytes) → Typed (classify method id) method id
unfolding classify
classify-Typed [] [] = (refl, refl)
classify-Typed [] (y ∷ id) = (refl, λ e. cc)
classify-Typed (x ∷ method) [] = (λ e. cc, refl)
classify-Typed (x ∷ method) (y ∷ id) = (λ e. cc, λ e. cc)

-- How a message describes the text that it was parsed from.
pub record Describes (m : Message) (raw direction transport : Bytes) : Type 0 where
  pub text : m.raw ≡ raw
  pub direction_kept : m.direction ≡ direction
  pub transport_kept : m.transport ≡ transport
  pub size : m.size_bytes ≡ length raw
  pub tokens_low : 4 * m.token_estimate ≤ length raw
  pub tokens_high : length raw < 4 * m.token_estimate + 4
  pub typed : Typed m.msg_type m.method m.jsonrpc_id

-- What encoding/json says of the texts that it writes: none is empty, and that of an object is
-- not `null`.
pub record Writes {F : Type 0} (marshal : Value F → Bytes) : Type 0 where
  pub nonempty : (v : Value F) → marshal v ≢ []
  pub obj-ne-null : (o : Fields F) → marshal (obj o) ≢ null_text

module _ {F : Type 0} (codec : Codec F) where
  open codec use {unmarshal, marshal, print}

  -- What a field of the object gives: the method is its string, the id is printed unless it is
  -- `null`, and other fields are encoded again; the code is that of an error that is an object.
  pub data MethodOf : Option (Value F) → Bytes → Type 0 where
    is_string : (s : Bytes) → MethodOf (some (str s)) s
    no_string : (v : Option (Value F)) → ((s : Bytes) → v ≢ some (str s)) → MethodOf v []

  pub data IdOf : Option (Value F) → Bytes → Type 0 where
    printed : (v : Value F) → v ≢ null → IdOf (some v) (print v)
    is_null : IdOf (some null) []
    no_id : IdOf none []

  pub data FieldOf : Option (Value F) → Bytes → Type 0 where
    present : (v : Value F) → FieldOf (some v) (marshal v)
    missing : FieldOf none []

  pub data CodeOf : Option (Value F) → Bytes → Type 0 where
    coded :
        (e : Fields F) (v : Value F)
        → get (codes "code") e ≡ some v
        → CodeOf (some (obj e)) (print v)
    uncoded : (e : Fields F) → get (codes "code") e ≡ none → CodeOf (some (obj e)) []
    no_object : (v : Option (Value F)) → ((e : Fields F) → v ≢ some (obj e)) → CodeOf v []

  pub record Reads (o : Fields F) (m : Message) : Type 0 where
    pub method : MethodOf (get (codes "method") o) m.method
    pub id : IdOf (get (codes "id") o) m.jsonrpc_id
    pub params : FieldOf (get (codes "params") o) m.params
    pub result : FieldOf (get (codes "result") o) m.result
    pub error : FieldOf (get (codes "error") o) m.error_data
    pub code : CodeOf (get (codes "error") o) m.error_code

  text_of-MethodOf : (v : Option (Value F)) → MethodOf v (text_of v)
  unfolding text_of
  text_of-MethodOf none = no_string none (λ s e. cc)
  text_of-MethodOf (some (str s)) = is_string s
  text_of-MethodOf (some null) = no_string (some null) (λ s e. cc)
  text_of-MethodOf (some (bool x)) = no_string (some (bool x)) (λ s e. cc)
  text_of-MethodOf (some (number x)) = no_string (some (number x)) (λ s e. cc)
  text_of-MethodOf (some (arr x)) = no_string (some (arr x)) (λ s e. cc)
  text_of-MethodOf (some (obj x)) = no_string (some (obj x)) (λ s e. cc)

  id_of-IdOf : (v : Option (Value F)) → IdOf v (id_of codec v)
  unfolding id_of
  id_of-IdOf none = no_id
  id_of-IdOf (some null) = is_null
  id_of-IdOf (some (str x)) = printed (str x) (λ e. cc)
  id_of-IdOf (some (bool x)) = printed (bool x) (λ e. cc)
  id_of-IdOf (some (number x)) = printed (number x) (λ e. cc)
  id_of-IdOf (some (arr x)) = printed (arr x) (λ e. cc)
  id_of-IdOf (some (obj x)) = printed (obj x) (λ e. cc)

  encoded-FieldOf : (v : Option (Value F)) → FieldOf v (encoded codec v)
  unfolding encoded
  encoded-FieldOf none = missing
  encoded-FieldOf (some v) = present v

  code_of-CodeOf : (v : Option (Value F)) → CodeOf v (code_of codec v)
  unfolding code_of code_in
  code_of-CodeOf none = no_object none (λ s e. cc)
  code_of-CodeOf (some (obj e)) = elim (Option-cases (get (codes "code") e)) [
    | inl q ↦ rw (q) (uncoded e q)
    | inr (v, q) ↦ rw (q) (coded e v q)
  ]
  code_of-CodeOf (some null) = no_object (some null) (λ s e. cc)
  code_of-CodeOf (some (bool x)) = no_object (some (bool x)) (λ s e. cc)
  code_of-CodeOf (some (number x)) = no_object (some (number x)) (λ s e. cc)
  code_of-CodeOf (some (arr x)) = no_object (some (arr x)) (λ s e. cc)
  code_of-CodeOf (some (str x)) = no_object (some (str x)) (λ s e. cc)

  message_of-Reads :
      (t : ℕ) (raw direction transport : Bytes) (o : Fields F)
      → Reads o (message_of codec t raw direction transport o)
  unfolding message_of
  message_of-Reads t raw direction transport o = record {
    method = text_of-MethodOf (get (codes "method") o);
    id = id_of-IdOf (get (codes "id") o);
    params = encoded-FieldOf (get (codes "params") o);
    result = encoded-FieldOf (get (codes "result") o);
    error = encoded-FieldOf (get (codes "error") o);
    code = code_of-CodeOf (get (codes "error") o);
  }

  -- A text is refused exactly if it does not decode; the clock is then not read.
  parse_jsonrpc-none :
      (clock : Clock) (raw direction transport : Bytes)
      → (parse_jsonrpc codec clock raw direction transport ≡ (none, clock)) ↔ (unmarshal raw ≡ none)
  unfolding parse_jsonrpc
  parse_jsonrpc-none clock raw direction transport = ground arith

  pub parse_jsonrpc-some :
      (clock : Clock) (raw direction transport : Bytes) (m : Message) (c : Clock)
      → parse_jsonrpc codec clock raw direction transport ≡ (some m, c)
      → (o : Fields F) × (unmarshal raw ≡ some o)
        × (m ≡ message_of codec (now clock) raw direction transport o)
        × (c ≡ tick clock)
  unfolding parse_jsonrpc
  parse_jsonrpc-some clock raw direction transport m c e = elim (Option-cases (unmarshal raw)) [
    | inl u ↦ absurd (ground arith)
    | inr (o, u) ↦ (o, u, ground arith, ground arith)
  ]

  pub message_of-Describes :
      (t : ℕ) (raw direction transport : Bytes) (o : Fields F)
      → Describes (message_of codec t raw direction transport o) raw direction transport
  unfolding message_of
  message_of-Describes t raw direction transport o = record {
    text = refl;
    direction_kept = refl;
    transport_kept = refl;
    size = refl;
    tokens_low = omega arith;
    tokens_high = omega arith;
    typed = classify-Typed _ _;
  }

  -- An accepted text decodes to an object, and the message has that object's method, id, parameters,
  -- result, error and error code, and the type that JSON-RPC gives to its method and id; it has the
  -- text, direction and transport of the call, the text's size, a quarter of it as its estimate of
  -- tokens, and the instant of the one clock reading.
  pub parse_jsonrpc-Describes :
      (clock : Clock) (raw direction transport : Bytes) (m : Message) (c : Clock)
      → parse_jsonrpc codec clock raw direction transport ≡ (some m, c)
      → ((o : Fields F) × (unmarshal raw ≡ some o) × Reads o m)
        × Describes m raw direction transport
        × (m.timestamp ≡ now clock)
        × (c ≡ tick clock)
  parse_jsonrpc-Describes clock raw direction transport m c e =
      let (o, u, em, ec) = parse_jsonrpc-some clock raw direction transport m c e in
      (
        (o, u, rw em (message_of-Reads (now clock) raw direction transport o)),
        rw em (message_of-Describes (now clock) raw direction transport o),
        rw em (unfold message_of in refl),
        ec,
      )

  has_error_data-encoded :
      Writes marshal
      → (v : Option (Value F))
      → (not (is_empty (code_of codec v)) || has_error_data (encoded codec v))
        ≡ has_error_data (encoded codec v)
  unfolding code_of encoded
  has_error_data-encoded w (some (obj o)) =
      rw
        (
          is_empty-eq_false (marshal (obj o)) (w.nonempty (obj o)),
          eq_bytes-eq_false (marshal (obj o)) null_text (w.obj-ne-null o),
        )
        (ground arith)
  has_error_data-encoded w (some null) = refl
  has_error_data-encoded w _ = refl

  -- The two tests for an error in the program, with and without the code, agree on what the
  -- parser returns.
  is_error-parse_jsonrpc :
      (clock : Clock) (raw direction transport : Bytes) (m : Message) (c : Clock)
      → Writes marshal
      → parse_jsonrpc codec clock raw direction transport ≡ (some m, c)
      → is_error m ≡ has_error_data m.error_data
  is_error-parse_jsonrpc clock raw direction transport m c w e =
      let (o, u, em, ec) = parse_jsonrpc-some clock raw direction transport m c e in
      rw em (unfold message_of in has_error_data-encoded w (get (codes "error") o))
