-- ===== src/Tracing/Examples.antt =====
-- pkg/observability/tracing/tracing.go: runs.
use caddy_fs_gcs.Base.{◌≡◌, refl, String, true, false, some, List, [], ◌∷◌}
use caddy_fs_gcs.Tracing.{Build, Settings, Host, parse_otlp_endpoint}
use caddy_fs_gcs.Tracing.Spans.{
  set_attributes, record_error, set_error_status, add_span_attributes, record_span_error,
}
use caddy_fs_gcs.Tracing.Lifecycle.{Call, call_init, call_shutdown}

abbrev build : Build
build = record { service_name = "caddy-fs-gcs"; version = "dev"; commit = "unknown" }

abbrev with_exporter : String → Settings
with_exporter name = record {
  exporter = name;
  service_env = "";
  otlp_endpoint = "";
  otlp_protocol = "";
  at_least_one = true;
  at_most_zero = false;
}

abbrev host : Host
host = record {
  pod_name = "";
  hostname = some "node-1";
  new_resource = true;
  parse_url = λ s. some ("http", "collector:4318");
  new_otlp = λ c. true;
  new_stdout = true;
}

plain_endpoint : parse_otlp_endpoint host "http://collector:4318" ≡ ("collector:4318", true)
unfolding parse_otlp_endpoint
plain_endpoint = refl

abbrev traced_once : List Call
traced_once = call_init (with_exporter "stdout") host ∷ call_shutdown false ∷ []

abbrev again : List Call
again = call_shutdown false ∷ call_init (with_exporter "stdout") host ∷ []

-- An error on a span that is recording gets two calls, and one on another span none.
failing_span :
    (record_span_error "lost" [] (
      add_span_attributes
        (("bucket", "site") ∷ [])
        (record { is_recording = true; calls = [] }))).calls
    ≡ set_attributes (("bucket", "site") ∷ [])
      ∷ record_error "lost" []
      ∷ set_error_status "lost"
      ∷ []
unfolding add_span_attributes record_span_error
failing_span = refl

dropped_span :
    (record_span_error "lost" [] (record { is_recording = false; calls = [] })).calls ≡ []
unfolding record_span_error
dropped_span = refl
