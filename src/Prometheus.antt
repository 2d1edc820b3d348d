-- ===== src/Prometheus.antt =====
-- pkg/observability/metrics/prometheus_endpoint.go: the handler of the Prometheus endpoints. What the
-- registry gathers, the uptime's text and the client's address stand in the request; times of day and errors of the encoder are left out. What the
-- handler of promhttp writes on the metrics path is not modelled.
pub mod Exposing
mod Examples
use Prim.Native.String
use text.Mathlib.Text.{◌==◌ as text_eq}
use caddy_fs_gcs.Base.{
  ℕ, String, Bool, true, false, not, ◌&&◌, ◌||◌, Option, none, some, List, [], ◌∷◌, ◌++◌, length,
  if◌then◌else◌, Dict, insert, ℤ, pos, ◌+ℤ◌,
}
use caddy_fs_gcs.Net.{Remote, is_loopback}
use caddy_fs_gcs.Dispenser.{Segment, Unmarshaler, next_arg, read_segments}
use caddy_fs_gcs.Endpoint.{BuildInfo, or_default, default_label}
use caddy_fs_gcs.Metrics.{Metrics, Otel, MetricsError, init}

pub record Handler : Type 0 where
  pub metrics_path : String
  pub enable_health : Bool
  pub enable_debug : Bool
  pub custom_labels : Dict String
  pub debug_local_only : Option Bool
  pub request_count : ℤ

abbrev with_defaults : BuildInfo → Handler → Handler
with_defaults info h = record h {
  metrics_path = or_default h.metrics_path "/metrics";
  custom_labels =
      default_label "version" info.version
        (default_label "service" info.service_name h.custom_labels);
}

-- `Provision`, with what `Init` returns
unfoldable pub provision :
    BuildInfo → Otel → Handler × Metrics → Option (Handler × (Metrics × Option MetricsError))
provision info otel (h, m) = elim (init otel m) [
  | none ↦ none
  | some answer ↦ some (with_defaults info h, answer)
]

-- A family of metrics: its name, help, type and number of metrics.
pub record Family : Type 0 where
  pub name : String
  pub help : String
  pub type_name : String
  pub count : ℕ

-- What `prometheus.DefaultGatherer.Gather` returns.
pub data Gathered : Type 0 where
  families : List Family → Gathered
  gather_failed : String → Gathered

pub record Request : Type 0 where
  pub path : String
  pub remote : Remote
  pub gathered : Gathered
  pub uptime : String

pub data Json : Type 0 where
  text_value : String → Json
  number : ℤ → Json

pub data Body : Type 0 where
  fields : Dict Json → Body
  debug :
      (uptime : String) (request_count : ℤ) (custom_labels : Dict String) (metrics : List Family)
      → Body

-- The first headers are the calls of `w.Header().Set`, in order.
pub record Response : Type 0 where
  pub code : ℕ
  pub headers : List (String × String)
  pub body : Body

pub data Outcome : Type 0 where
  responds : Response → Outcome
  -- `promhttp.HandlerFor` answers to any client with what it gathers, or with the text of the error;
  -- with what the handler has set.
  delegates :
      (headers : List (String × String)) (gathered : Gathered) (max_in_flight timeout_seconds : ℕ)
      → Outcome
  -- The handler returns an error.
  errs : String → Outcome
  passes : Outcome

abbrev json_headers : List (String × String)
json_headers = ("Content-Type", "application/json") ∷ []

unfoldable pub is_debug_allowed : Handler → Request → Bool
is_debug_allowed h r = elim h.debug_local_only [
  | none ↦ is_loopback r.remote
  | some only ↦ not only || is_loopback r.remote
]

unfoldable pub serve_metrics : Request → Outcome
serve_metrics r =
    delegates (("Cache-Control", "no-cache, no-store, must-revalidate") ∷ []) r.gathered 10 30

-- `health[key] = value` for each label
unfoldable pub add_labels : Dict String → Dict Json → Dict Json
add_labels [] m = m
add_labels ((key, value) ∷ labels) m = add_labels labels (insert key (text_value value) m)

abbrev pub health_fields : Handler → Request → String → Dict Json
health_fields h r service_name =
    ("status", text_value "healthy")
    ∷ ("uptime", text_value r.uptime)
    ∷ ("requests", number h.request_count)
    ∷ ("service", text_value service_name)
    ∷ []

unfoldable pub serve_health : BuildInfo → Handler → Request → Outcome
serve_health info h r = responds (record {
  code = 200;
  headers = json_headers;
  body = fields (
      if is_debug_allowed h r
      then add_labels h.custom_labels (health_fields h r info.service_name)
      else health_fields h r info.service_name);
})

unfoldable pub serve_debug_metrics : Handler → Request → Outcome
serve_debug_metrics h r = elim r.gathered [
  | families fs ↦ responds (record {
    code = 200;
    headers = json_headers;
    body = debug r.uptime h.request_count h.custom_labels fs;
  })
  | gather_failed e ↦ errs e
]

abbrev error_field : String → Dict Json
error_field s = if text_eq s "" then [] else ("error", text_value s) ∷ []

abbrev metrics_health : ℕ → String → String → Outcome
metrics_health code status error = responds (record {
  code = code;
  headers = json_headers;
  body = fields (
      ("status", text_value status)
      ∷ ("service", text_value "prometheus-metrics")
      ∷ error_field error);
})

unfoldable pub metrics_health_answer : Bool → Gathered → Outcome
metrics_health_answer allowed (families fs) = metrics_health 200 "healthy" ""
metrics_health_answer allowed (gather_failed e) =
    metrics_health 503 "unhealthy" (if allowed then e else "internal error (details redacted)")

unfoldable pub serve_metrics_health : Handler → Request → Outcome
serve_metrics_health h r = metrics_health_answer (is_debug_allowed h r) r.gathered

-- `ServeHTTP` after the request has been counted; `passes` calls the next handler.
unfoldable pub route : BuildInfo → Handler → Request → Outcome
route info h r =
    if text_eq r.path h.metrics_path
    then serve_metrics r
    else if text_eq r.path "/health"
    then (if h.enable_health then serve_health info h r else passes)
    else if text_eq r.path "/debug/metrics"
    then (if h.enable_debug && is_debug_allowed h r then serve_debug_metrics h r else passes)
    else if text_eq r.path "/metrics/health"
    then serve_metrics_health h r
    else passes

unfoldable pub serve_http : BuildInfo → Handler → Request → Handler × Outcome
serve_http info h r =
    let counted : Handler = record h { request_count = h.request_count +ℤ pos 1 } in
    (counted, route info counted r)

abbrev set_debug_local_only : Handler → List String → String → Option (List String × Handler)
set_debug_local_only h rest v =
    if text_eq v "true"
    then some (rest, record h { debug_local_only = some true })
    else if text_eq v "false"
    then some (rest, record h { debug_local_only = some false })
    else none

unfoldable pub directive : String → List String → Handler → Option (List String × Handler)
directive name args h =
    if text_eq name "path"
    then next_arg args (λ v rest. some (rest, record h { metrics_path = v }))
    else if text_eq name "enable_health"
    then some (args, record h { enable_health = true })
    else if text_eq name "enable_debug"
    then some (args, record h { enable_debug = true })
    else if text_eq name "debug_local_only"
    then next_arg args (λ v rest. set_debug_local_only h rest v)
    else if text_eq name "label"
    then next_arg args (λ key rest.
      next_arg rest (λ value rest'.
        some (rest', record h { custom_labels = insert key value h.custom_labels })))
    else none

unfoldable pub unmarshal_caddyfile : List Segment → Handler → Option Handler
unmarshal_caddyfile = read_segments (record {
  start = λ h. h;
  argument = λ v h. record h { metrics_path = v };
  directive = directive;
})
