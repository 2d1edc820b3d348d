-- ===== src/Tracing.antt =====
-- pkg/observability/tracing/tracing.go: `Init`, `Shutdown` and the choice of the exporter. What
-- OpenTelemetry, net/url and the host answer is a parameter. The lock makes each call a step of its own.
-- Of an error the place is kept, not its text nor the error that it wraps. The floating-point rate is
-- compared with 0 and 1 by the caller of the model.
pub mod Lifecycle
pub mod Spans
mod Examples
use Prim.Native.String
use text.Mathlib.Text.{◌==◌ as text_eq}
use caddy_fs_gcs.Base.{
  String, Bool, true, false, not, ◌&&◌, ◌||◌, Option, none, some, List, [], ◌∷◌, ◌++◌,
  if◌then◌else◌,
}

pub data TracingError : Type 0 where
  resource_error : TracingError
  endpoint_required : TracingError
  unsupported_protocol : String → TracingError
  otlp_exporter_error : TracingError
  stdout_exporter_error : TracingError
  unknown_exporter : String → TracingError
  provider_shutdown : TracingError

pub data Sampler : Type 0 where
  always_sample : Sampler
  never_sample : Sampler
  ratio_based : Sampler

pub data Protocol : Type 0 where
  grpc : Protocol
  http : Protocol

-- A client of OTLP: its protocol, its endpoint, and whether it is insecure.
pub record OtlpClient : Type 0 where
  pub protocol : Protocol
  pub endpoint : String
  pub insecure : Bool

pub data Exporter : Type 0 where
  otlp : OtlpClient → Exporter
  stdout : Exporter

-- A `TracerProvider`: its exporter, sampler and the attributes of its resource.
pub record Provider : Type 0 where
  pub exporter : Exporter
  pub sampler : Sampler
  pub attributes : List (String × String)

-- The variables of the package. `shutdown_func` is kept as whether it is set: it is `tp.Shutdown`.
pub record Tracing : Type 0 where
  pub tracer : Bool
  pub tp : Option Provider
  pub shutdown_func : Bool
  pub initialized : Bool

pub record Build : Type 0 where
  pub service_name : String
  pub version : String
  pub commit : String

-- The arguments of `Init`.
pub record Settings : Type 0 where
  pub exporter : String
  pub service_env : String
  pub otlp_endpoint : String
  pub otlp_protocol : String
  -- `sampleRate >= 1.0` and `sampleRate <= 0.0`
  pub at_least_one : Bool
  pub at_most_zero : Bool

-- What the surroundings answer: the environment's POD_NAME, the host's name, `resource.New`,
-- `url.Parse` (scheme and host), and the constructors of the exporters; false is an error.
pub record Host : Type 0 where
  pub pod_name : String
  pub hostname : Option String
  pub new_resource : Bool
  pub parse_url : String → Option (String × String)
  pub new_otlp : OtlpClient → Bool
  pub new_stdout : Bool

unfoldable pub service_instance_id : Host → String
service_instance_id e =
    if not (text_eq e.pod_name "")
    then e.pod_name
    else elim e.hostname [ none ↦ "" | some name ↦ name ]

abbrev attribute_unless : String → String → String → List (String × String)
attribute_unless absent key value = if text_eq value absent then [] else (key, value) ∷ []

unfoldable pub resource_attributes : Build → Settings → Host → List (String × String)
resource_attributes b s e =
    ("service.name", b.service_name)
    ∷ ("service.version", b.version)
    ∷ (attribute_unless "unknown" "vcs.revision" b.commit
        ++ (attribute_unless "" "deployment.environment.name" s.service_env
            ++ attribute_unless "" "service.instance.id" (service_instance_id e)))

abbrev endpoint_of : String → Option (String × String) → String × Bool
endpoint_of endpoint none = (endpoint, true)
endpoint_of endpoint (some (scheme, host)) =
    if text_eq host "" then (endpoint, true) else (host, text_eq scheme "http")

-- `parseOTLPEndpoint`
unfoldable pub parse_otlp_endpoint : Host → String → String × Bool
parse_otlp_endpoint e endpoint = endpoint_of endpoint (e.parse_url endpoint)

pub data Made (A : Type 0) : Type 0 where
  made : A → Made A
  failed : TracingError → Made A

abbrev new_client : Host → Protocol → String × Bool → Made Exporter
new_client e protocol (host, insecure) =
    let client : OtlpClient = record {
      protocol = protocol;
      endpoint = host;
      insecure = insecure;
    } in
    if e.new_otlp client then made (otlp client) else failed otlp_exporter_error

unfoldable pub create_otlp_exporter : Host → String → String → Made Exporter
create_otlp_exporter e endpoint protocol =
    if text_eq endpoint ""
    then failed endpoint_required
    else if text_eq protocol "grpc"
    then new_client e grpc (parse_otlp_endpoint e endpoint)
    else if text_eq protocol "http"
    then new_client e http (parse_otlp_endpoint e endpoint)
    else failed (unsupported_protocol protocol)

-- The switch over the exporters; `none` is the exporter `none`.
unfoldable pub create_exporter : Settings → Host → Made (Option Exporter)
create_exporter s e =
    if text_eq s.exporter "otlp"
    then elim (create_otlp_exporter e s.otlp_endpoint s.otlp_protocol) [
      | made x ↦ made (some x)
      | failed error ↦ failed error
    ]
    else if text_eq s.exporter "stdout"
    then (if e.new_stdout then made (some stdout) else failed stdout_exporter_error)
    else if text_eq s.exporter "none" || text_eq s.exporter ""
    then made none
    else failed (unknown_exporter s.exporter)

abbrev sampler_of : Settings → Sampler
sampler_of s =
    if s.at_least_one then always_sample else if s.at_most_zero then never_sample else ratio_based

-- The end of `Init`, with the exporter
unfoldable pub start_tracing :
    Build → Settings → Host → Made (Option Exporter) → Tracing → Tracing × Option TracingError
start_tracing b s e (failed error) t = (t, some error)
start_tracing b s e (made none) t = (record t { tracer = true; initialized = true }, none)
start_tracing b s e (made (some x)) t = (
  record {
    tracer = true;
    tp =
        some
          (record { exporter = x; sampler = sampler_of s; attributes = resource_attributes b s e });
    shutdown_func = true;
    initialized = true;
  },
  none,
)

-- `Init`
unfoldable pub init : Build → Settings → Host → Tracing → Tracing × Option TracingError
init b s e t =
    if t.initialized
    then (t, none)
    else if not e.new_resource
    then (t, some resource_error)
    else start_tracing b s e (create_exporter s e) t

-- `Shutdown`, with the provider's answer, true for an error
unfoldable pub shutdown : Bool → Tracing → Tracing × Option TracingError
shutdown fails t = if not t.initialized || not t.shutdown_func then (t, none) else (
  record { tracer = true; tp = none; shutdown_func = false; initialized = false },
  if fails then some provider_shutdown else none,
)
