-- ===== src/Endpoint/Serving.antt =====
-- pkg/observability/health/health_endpoint.go: `ServeHTTP` and the endpoints.
use Prim.Native.String
use text.Mathlib.Text.{◌==◌ as text_eq}
use caddy_fs_gcs.Base.{
  ℕ, String, Bool, true, false, not, ◌&&◌, ◌||◌, Option, none, some, List, [], ◌∷◌, ◌++◌,
  if◌then◌else◌, Dict,
}
use caddy_fs_gcs.Net.{is_loopback}
use caddy_fs_gcs.Health.{
  CompositeHealthChecker, HealthStatus, is_healthy, composite_check, composite_check_storage,
}
use caddy_fs_gcs.Endpoint.{
  Handler, Request, health, detailed, metrics, Response, Outcome, responds, passes,
}

abbrev pub status_code : Bool → ℕ
status_code true = 200
status_code false = 503

abbrev pub simple_status : String → String → Dict String → HealthStatus
simple_status status message details = record {
  status = status;
  message = message;
  details = details;
  error = "";
}

unfoldable pub label_headers : Dict String → List (String × String)
label_headers [] = []
label_headers ((key, value) ∷ labels) = (String.◌++◌ "X-Health-" key, value) ∷ label_headers labels

abbrev pub redacted : HealthStatus → HealthStatus
redacted s = record s { error = "internal error (details redacted)" }

abbrev pub storage_healthy : Option HealthStatus → Bool
storage_healthy none = true
storage_healthy (some s) = is_healthy s

module _ {C : Type 0} where
  -- `isDetailedAllowed`
  unfoldable pub is_detailed_allowed : Handler C → Request C → Bool
  is_detailed_allowed h r = elim h.detailed_local_only [
    | none ↦ is_loopback r.remote
    | some only ↦ not only || is_loopback r.remote
  ]

  unfoldable pub write_health_response : Handler C → Request C → HealthStatus → Response
  write_health_response h r s = record {
    code = status_code (is_healthy s);
    headers =
        ("Content-Type", "application/json")
          ∷ ("Cache-Control", "no-cache, no-store, must-revalidate")
          ∷ label_headers h.custom_labels
        ++ ("X-Health-Status", s.status) ∷ [];
    body =
        health (if not (text_eq s.error "") && not (is_loopback r.remote) then redacted s else s);
  }

  abbrev pub composite_storage : Request C → Option (CompositeHealthChecker C) → Option HealthStatus
  composite_storage r none = none
  composite_storage r (some c) = some (composite_check_storage r.check_storage c.checkers)

  abbrev pub composite_status : Request C → Option (CompositeHealthChecker C) → HealthStatus
  composite_status r none =
      simple_status "healthy" "Health endpoint is working"
        (("service", "caddy-fs-gcs") ∷ ("uptime", r.uptime) ∷ [])
  composite_status r (some c) = composite_check r.check c.checkers

  unfoldable pub serve_health : Handler C → Request C → Response
  serve_health h r = write_health_response h r (composite_status r h.composite)

  abbrev pub ready_status : Request C → Option HealthStatus → HealthStatus
  ready_status r none =
      simple_status "healthy" "Service is ready"
        (("readiness", "ready") ∷ ("uptime", r.uptime) ∷ [])
  ready_status r (some s) = s

  unfoldable pub readiness_status : Handler C → Request C → HealthStatus
  readiness_status h r =
      if not h.startup_complete
      then simple_status "unhealthy" "Service is still starting up"
          (("startup", "in_progress") ∷ ("uptime", r.uptime) ∷ [])
      else ready_status r (composite_storage r h.composite)

  unfoldable pub serve_readiness : Handler C → Request C → Response
  serve_readiness h r = write_health_response h r (readiness_status h r)

  abbrev pub liveness_status : Request C → HealthStatus
  liveness_status r =
      simple_status "healthy" "Service is alive" (("liveness", "alive") ∷ ("uptime", r.uptime) ∷ [])

  unfoldable pub serve_liveness : Handler C → Request C → Response
  serve_liveness h r = write_health_response h r (liveness_status r)

  -- `tryCompleteStartup`
  unfoldable pub try_complete_startup : Handler C → Request C → Handler C × Bool
  try_complete_startup h r =
      if storage_healthy (composite_storage r h.composite)
      then (record h { startup_complete = true }, true)
      else (h, false)

  abbrev pub startup_status : Request C → Bool → HealthStatus
  startup_status r true =
      simple_status "healthy" "Startup check"
        (("startup_complete", "true") ∷ ("uptime", r.uptime) ∷ [])
  startup_status r false =
      simple_status "unhealthy" "Service is still starting up"
        (("startup_complete", "false") ∷ ("uptime", r.uptime) ∷ [])

  abbrev pub after_startup : Request C → Handler C × Bool → Handler C × Response
  after_startup r (h, complete) = (h, write_health_response h r (startup_status r complete))

  unfoldable pub serve_startup : Handler C → Request C → Handler C × Response
  serve_startup h r =
      after_startup r (if h.startup_complete then (h, true) else try_complete_startup h r)

  unfoldable pub serve_detailed_health : Handler C → Request C → Response
  serve_detailed_health h r =
      let storage = composite_storage r h.composite in
      record {
        code = status_code (storage_healthy storage);
        headers = ("Content-Type", "application/json") ∷ [];
        body = detailed h.custom_labels storage h.startup_complete;
      }

  unfoldable pub serve_health_metrics : Handler C → Request C → Response
  serve_health_metrics h r = record {
    code = 200;
    headers = ("Content-Type", "application/json") ∷ [];
    body = metrics (composite_storage r h.composite) h.startup_complete;
  }

  abbrev pub respond_to_startup : Handler C × Response → Handler C × Outcome
  respond_to_startup (h, response) = (h, responds response)

  -- The cases of `ServeHTTP` that may fall through to the next handler.
  unfoldable pub serve_gated : Handler C → Request C → Outcome
  serve_gated h r =
      if text_eq r.path (String.◌++◌ h.health_path "/detailed")
      then (if h.enable_detailed && is_detailed_allowed h r
          then responds (serve_detailed_health h r)
          else passes)
      else if text_eq r.path (String.◌++◌ h.health_path "/metrics")
      then (if h.enable_metrics && is_detailed_allowed h r
          then responds (serve_health_metrics h r)
          else passes)
      else passes

  -- `ServeHTTP`; `passes` calls the next handler.
  unfoldable pub serve_http : Handler C → Request C → Handler C × Outcome
  serve_http h r =
      if text_eq r.path h.health_path
      then (h, responds (serve_health h r))
      else if text_eq r.path h.readiness_path
      then (h, responds (serve_readiness h r))
      else if text_eq r.path h.liveness_path
      then (h, responds (serve_liveness h r))
      else if text_eq r.path h.startup_path
      then respond_to_startup (serve_startup h r)
      else (h, serve_gated h r)
