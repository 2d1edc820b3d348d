-- ===== src/Endpoint/Examples.antt =====
-- pkg/observability/health/health_endpoint.go: runs of the handler with one checker.
use caddy_fs_gcs.Base.{
  ℕ, ◌≡◌, ◌≢◌, refl, String, true, false, ◌&&◌, ◌||◌, none, some, List, [], ◌∷◌, lookup, insert,
  text_dec, Bool-cases,
}
use caddy_fs_gcs.Net.Clients.{client_if, client_if-is_loopback}
use caddy_fs_gcs.Health.{HealthStatus}
use caddy_fs_gcs.Endpoint.{
  Handler, BuildInfo, Request, composite_checker, provision, labels_valid, validate_header_value,
}
use caddy_fs_gcs.Dispenser.{read_segments, read_segment, read_block, read_line}
use caddy_fs_gcs.Endpoint.Configuring.{directive, set_path, unmarshal_caddyfile}
use caddy_fs_gcs.Endpoint.Serving.{
  serve_readiness, status_code, storage_healthy, composite_storage, serve_http,
}
use caddy_fs_gcs.Endpoint.Labels.{outcome_safe, provision-safe}
use caddy_fs_gcs.Endpoint.Startup.{serve_all, any_probes, serve_all-readiness}
use caddy_fs_gcs.Endpoint.Exposure.{discloses, serve_http-hides}

abbrev configured : Handler ℕ
configured = record {
  health_path = "";
  readiness_path = "";
  liveness_path = "";
  startup_path = "";
  custom_labels = ("region", "eu") ∷ [];
  enable_detailed = true;
  enable_metrics = true;
  detailed_local_only = none;
  checkers = 1 ∷ [];
  composite = some (composite_checker (1 ∷ []));
  startup_complete = false;
}

abbrev build : BuildInfo
build = record { service_name = "caddy-fs-gcs"; version = "dev" }

abbrev down : ℕ → HealthStatus
down n = record { status = "unhealthy"; message = "down"; details = []; error = "timeout" }

abbrev up : ℕ → HealthStatus
up n = record { status = "healthy"; message = "fine"; details = []; error = "" }

abbrev request : String → (ℕ → HealthStatus) → Request ℕ
request path answer = record {
  path = path;
  remote = client_if false;
  check = answer;
  check_storage = answer;
  uptime = "1s";
}

abbrev probed : List (Request ℕ)
probed = request "/startup" down ∷ request "/startup" up ∷ []

abbrev provisioned : Handler ℕ
provisioned = record configured {
  health_path = "/health";
  readiness_path = "/ready";
  liveness_path = "/live";
  startup_path = "/startup";
  detailed_local_only = some true;
}

accepted : (provision build configured).1 ≡ true
unfolding provision labels_valid validate_header_value insert lookup text_dec Bool-cases
accepted = refl

labels_kept :
    outcome_safe
      (serve_http (serve_all (provision build configured).0 probed).0 (request "/health" down)).1
    ≡ true
labels_kept = provision-safe build configured probed (request "/health" down) accepted

serve_all-readiness_example :
    ((serve_all provisioned probed).0.startup_complete ≡ (false || any_probes provisioned probed))
    × ((serve_readiness (serve_all provisioned probed).0 (request "/ready" up)).code
        ≡ status_code (
            (false || any_probes provisioned probed)
            && storage_healthy
                (composite_storage (request "/ready" up) (some (composite_checker (1 ∷ []))))))
serve_all-readiness_example = serve_all-readiness probed provisioned (request "/ready" up)

local_only : some true ≢ some false
local_only e = cc

serve_http-hides_example :
    discloses (serve_http provisioned (request "/health/detailed" down)).1 ≡ false
serve_http-hides_example =
    serve_http-hides provisioned (request "/health/detailed" down) (client_if-is_loopback false)
      local_only

-- A block with two directives and a label; the argument behind the name is the path.
configured_block :
    unmarshal_caddyfile
      (record {
        args = "/healthz" ∷ [];
        block =
            ("enable_detailed" ∷ [])
            ∷ ("readiness_path" ∷ "/readyz" ∷ [])
            ∷ ("label" ∷ "zone" ∷ "b" ∷ [])
            ∷ [];
      }
        ∷ [])
      configured
    ≡ some (record configured {
      health_path = "/healthz";
      readiness_path = "/readyz";
      custom_labels = ("region", "eu") ∷ ("zone", "b") ∷ [];
    })
unfolding unmarshal_caddyfile read_segments read_segment read_block read_line directive set_path
    insert text_dec Bool-cases
configured_block = refl

-- `detailed_local_only` takes only `true` and `false`.
wrong_flag :
    unmarshal_caddyfile
      (record { args = []; block = ("detailed_local_only" ∷ "yes" ∷ []) ∷ [] } ∷ [])
      configured
    ≡ none
unfolding unmarshal_caddyfile read_segments read_segment read_block read_line directive
wrong_flag = refl
