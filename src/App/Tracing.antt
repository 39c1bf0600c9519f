-- ===== src/App/Tracing.antt =====
-- internal/tracing/tracing.go: `InitTracer`, as the calls on OpenTelemetry's globals and what it
-- returns.
use mcpwatch.Base.{Bool, Option, none, some, List, [], ◌∷◌, Bytes, is_empty, if◌then◌else◌}

-- A provider without an exporter, and one that samples everything and exports to an endpoint.
pub data Provider : Type 0 where
  plain : Provider
  exporting : Bytes → Provider

pub data OtelCall : Type 0 where
  sets_provider : Provider → OtelCall
  sets_propagator sets_tracer : OtelCall

pub record Tracing : Type 0 where
  pub calls : List OtelCall
  pub provider : Option Provider

abbrev pub no_tracing : Tracing
no_tracing = record { calls = []; provider = none }

-- The endpoint is that of the environment; the flags tell whether the exporter and the resource can
-- be made.
unfoldable pub init_tracer : Bytes → Bool → Bool → Tracing
init_tracer endpoint exporter resource =
    if is_empty endpoint
    then record { calls = sets_provider plain ∷ sets_tracer ∷ []; provider = some plain }
    else if exporter
    then (if resource
        then record {
          calls = sets_provider (exporting endpoint) ∷ sets_propagator ∷ sets_tracer ∷ [];
          provider = some (exporting endpoint);
        }
        else no_tracing)
    else no_tracing
