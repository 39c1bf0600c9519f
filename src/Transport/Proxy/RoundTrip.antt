-- ===== src/Transport/Proxy/RoundTrip.antt =====
-- internal/transport/proxy.go: `RoundTrip` of the intercepting transport. What the server answers,
-- and in which slices the inner transport reads the request's body, are given; so are the readings
-- of encoding/json.
pub mod Body
use mcpwatch.Base.{
  ℕ, zero, suc, Bool, true, false, Option, none, some, List, [], ◌∷◌, ◌++◌, Bytes, codes, take,
  drop, is_empty, if◌then◌else◌,
}
use mcpwatch.Engine.Correlator.{traceparent_in}
use mcpwatch.Engine.Parser.{Parser}
use mcpwatch.Transport.Proxy.{proxy_type, Interceptor, ReadResult, read_with, is_stream}
use mcpwatch.Transport.Wire.{eof, Wire}

-- `json.Unmarshal` of the body into the struct with `params`, or an error; and what it leaves in
-- the struct with `meta.traceparent` and `_meta.traceparent`, also where it returns an error.
pub record BodyCodec : Type 0 where
  pub raw_params : Bytes → Option Bytes
  pub meta_of : Bytes → Bytes × Bytes

abbrev pub interceptor_of : Bytes → Interceptor
interceptor_of direction = record { trans_type = proxy_type; direction = direction; buf = [] }

-- What the response's body is read through.
pub data ResponseReader : Type 0 where
  streamed whole : Interceptor → ResponseReader

-- The inner transport's answer: an error, or a response with its content type and with or without a
-- body.
pub data Answer : Type 0 where
  transport_error : Answer
  response : Bytes → Bool → Answer

-- The calls of a round trip in their order. A span is started with the traceparent of the request,
-- if it has one; where it has none the parent is the request's own context.
pub data TripCall : Type 0 where
  starts_span : Option Bytes → TripCall
  injects_headers forwards ends_span : TripCall

pub record Trip : Type 0 where
  pub calls : List TripCall
  -- What the inner transport reads the request's body through.
  pub request_reader : Option Interceptor
  pub response_reader : Option ResponseReader
  pub failed : Bool

module _ (codec : BodyCodec) where
  open codec use {raw_params, meta_of}

  -- The fields of `paramsObj`.
  abbrev pub meta_in : Option Bytes → Bytes × Bytes
  meta_in none = ([], [])
  meta_in (some params) = if is_empty params then ([], []) else meta_of params

  -- `parentCtx`, as far as the body gives one.
  unfoldable pub parent_of : Option Bytes → Option Bytes
  unfolding traceparent_in
  parent_of none = none
  parent_of (some body) = traceparent_in (some (meta_in (raw_params body)))

  abbrev pub reader_of : Option Bytes → Option Interceptor
  reader_of none = none
  reader_of (some body) = some (interceptor_of (codes "IN"))

  abbrev pub wrap_body : Bytes → Bool → Option ResponseReader
  wrap_body content_type false = none
  wrap_body content_type true =
      if is_stream content_type
      then some (streamed (interceptor_of (codes "OUT")))
      else some (whole (interceptor_of (codes "OUT")))

  abbrev pub answer_reader : Answer → Option ResponseReader
  answer_reader transport_error = none
  answer_reader (response content_type body) = wrap_body content_type body

  abbrev pub answer_failed : Answer → Bool
  answer_failed transport_error = true
  answer_failed (response content_type body) = false

  abbrev pub when : Bool → TripCall → List TripCall
  when b c = if b then c ∷ [] else []

  -- `RoundTrip`; the span's end is deferred. The flags tell whether `otel.Tracer` and the
  -- propagator are there.
  unfoldable pub round_trip : Bool → Bool → Option Bytes → Answer → Trip
  unfolding parent_of
  round_trip tracing propagating body answer = record {
    calls =
        when tracing (starts_span (parent_of body))
        ++ (when propagating injects_headers ++ (forwards ∷ when tracing ends_span));
    request_reader = reader_of body;
    response_reader = answer_reader answer;
    failed = answer_failed answer;
  }

-- `Read` of the copy of the body, a `bytes.Buffer`, with slices of these sizes, up to its end.
unfoldable pub reads : List ℕ → Bytes → List ReadResult
reads [] body = []
reads (zero ∷ ns) body = record { bytes = []; err = none } ∷ reads ns body
reads (suc n ∷ ns) [] = record { bytes = []; err = some eof } ∷ []
reads (suc n ∷ ns) (b ∷ body) =
    record { bytes = b ∷ take n body; err = none } ∷ reads ns (drop n body)

module _ (line : Bytes → Bytes → Bytes → Wire → Wire) where
  -- What the reader of an interceptor gets.
  unfoldable pub results : List ReadResult → Interceptor → Wire → List ReadResult
  results [] s w = []
  results (r ∷ rs) s w = let (q, s', w') = read_with line r s w in q ∷ results rs s' w'
