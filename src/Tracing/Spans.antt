-- ===== src/Tracing/Spans.antt =====
-- pkg/observability/tracing/tracing.go: the helpers on spans, as the calls of OpenTelemetry that they make.
use caddy_fs_gcs.Base.{String, Bool, List, [], ◌∷◌, ◌++◌, if◌then◌else◌}
use caddy_fs_gcs.Tracing.{Tracing, Build}

-- A value of `attribute.KeyValue`, with its value as text.
abbrev pub Attribute : Type 0
Attribute = String × String

pub data SpanCall : Type 0 where
  set_attributes : List Attribute → SpanCall
  record_error : (err : String) (attrs : List Attribute) → SpanCall
  set_error_status : (description : String) → SpanCall

-- The span of a context: whether it is recording, and the calls that it has got.
pub record Span : Type 0 where
  pub is_recording : Bool
  pub calls : List SpanCall

-- A call of `Tracer.Start`, with the tracer's name.
pub record Start : Type 0 where
  pub tracer : String
  pub name : String
  pub attrs : List Attribute

-- `GetTracer`, as whether there is one
abbrev pub get_tracer : Tracing → Bool
get_tracer t = t.tracer

-- `StartSpan`
abbrev pub start_span : Build → String → List Attribute → Start
start_span b name attrs = record { tracer = b.service_name; name = name; attrs = attrs }

-- `AddSpanAttributes`
unfoldable pub add_span_attributes : List Attribute → Span → Span
add_span_attributes attrs s =
    if s.is_recording then record s { calls = s.calls ++ set_attributes attrs ∷ [] } else s

-- `RecordSpanError`; `err` is the error's text.
unfoldable pub record_span_error : String → List Attribute → Span → Span
record_span_error err attrs s =
    if s.is_recording
    then record s { calls = s.calls ++ record_error err attrs ∷ set_error_status err ∷ [] }
    else s
