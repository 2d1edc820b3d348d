-- ===== src/Prometheus/Examples.antt =====
-- pkg/observability/metrics/prometheus_endpoint.go: runs of the handler.
use text.Mathlib.TextEquality.{eq_iff}
use caddy_fs_gcs.Base.{arith, ◌≡◌, ◌≢◌, refl, true, false, none, some, [], ◌∷◌, pos}
use caddy_fs_gcs.Net.{host, is_loopback}
use caddy_fs_gcs.Net.Clients.{client_if, client_if-is_loopback, parse, split, starts_127}
use caddy_fs_gcs.Endpoint.{BuildInfo}
use caddy_fs_gcs.Prometheus.{
  Handler, Request, gather_failed, serve_http, route, serve_metrics_health, metrics_health_answer,
  is_debug_allowed, responds, delegates, serve_metrics, fields, text_value, unmarshal_caddyfile,
  directive,
}
use caddy_fs_gcs.Dispenser.{read_segments, read_segment, read_block, read_line}
use caddy_fs_gcs.Prometheus.Exposing.{quiet, serve_http-hides_labels}

abbrev build : BuildInfo
build = record { service_name = "caddy-fs-gcs"; version = "dev" }

abbrev configured : Handler
configured = record {
  metrics_path = "/metrics";
  enable_health = true;
  enable_debug = true;
  custom_labels = ("region", "eu") ∷ [];
  debug_local_only = none;
  request_count = pos 0;
}

abbrev failing : Request
failing = record {
  path = "/metrics/health";
  remote = client_if false;
  gathered = gather_failed "collector gcs";
  uptime = "1s";
}

redacted_error :
    (serve_http build configured failing).1
    ≡ responds (record {
      code = 503;
      headers = ("Content-Type", "application/json") ∷ [];
      body = fields (
          ("status", text_value "unhealthy")
          ∷ ("service", text_value "prometheus-metrics")
          ∷ ("error", text_value "internal error (details redacted)")
          ∷ []);
    })
unfolding serve_http route serve_metrics_health metrics_health_answer is_debug_allowed is_loopback
    host parse split starts_127
redacted_error = refl

-- A label without a value is an error.
half_label :
    unmarshal_caddyfile
      (record { args = []; block = ("enable_debug" ∷ "label" ∷ "region" ∷ []) ∷ [] } ∷ [])
      configured
    ≡ none
unfolding unmarshal_caddyfile read_segments read_segment read_block read_line directive
half_label = refl

not_disabled : none ≢ some false
not_disabled e = cc

elsewhere : failing.path ≢ configured.metrics_path
elsewhere e = absurd (ground (arith, (eq_iff failing.path configured.metrics_path).1 e))

serve_http-hides_labels_example :
    (serve_http build configured failing).1
    ≡ (serve_http build (record configured { custom_labels = [] }) (quiet failing)).1
serve_http-hides_labels_example =
    serve_http-hides_labels build configured failing [] (client_if-is_loopback false) not_disabled
      elsewhere

-- On the path of the metrics, promhttp gets the error of the registry whoever asks.
handed_on :
    (serve_http build configured (record failing { path = "/metrics" })).1
    ≡ delegates
        (("Cache-Control", "no-cache, no-store, must-revalidate") ∷ [])
        (gather_failed "collector gcs")
        10
        30
unfolding serve_http route serve_metrics
handed_on = refl
