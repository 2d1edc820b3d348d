-- ===== src/Health/Examples.antt =====
-- pkg/observability/health/health.go: runs of the checkers.
use caddy_fs_gcs.Base.{
  ℕ, zero, suc, ◌≡◌, refl, true, none, some, [], ◌∷◌, lookup, insert, text_dec, Bool-cases,
}
use caddy_fs_gcs.Health.{
  GcsHealthChecker, HealthStatus, Service, next_object, granted, check, is_healthy, composite_check,
  composite_check_storage, combine, add_details, checker_key, digits,
}
use caddy_fs_gcs.Health.Checking.{cause_of, calls_of, is_none, check-cause_of}
use caddy_fs_gcs.Health.Combining.{first_failing, Tells, composite_checks-Tells}

abbrev checker : GcsHealthChecker
checker = record {
  client = true;
  bucket = "pages";
  config = record {
    timeout = 30;
    retry_attempts = 3;
    retry_delay = 5;
    check_permissions = true;
    check_connectivity = true;
  };
}

abbrev service : Service
service = record { attrs_error = none; first = next_object; permissions = granted [] }

check-cause_of_example :
    (is_healthy (check checker service "now").1 ≡ is_none (cause_of checker service))
    × (lookup "error_type" (check checker service "now").1.details ≡ cause_of checker service)
    × (lookup "bucket" (check checker service "now").1.details ≡ some "pages")
    × ((check checker service "now").0 ≡ calls_of checker service)
check-cause_of_example = check-cause_of checker service "now"

abbrev answer : ℕ → HealthStatus
answer zero = record {
  status = "healthy";
  message = "fine";
  details = ("bucket", "a") ∷ [];
  error = "";
}
answer (suc n) = record {
  status = "unhealthy";
  message = "down";
  details = ("bucket", "b") ∷ [];
  error = "timeout";
}

combined : composite_check answer (0 ∷ 7 ∷ 0 ∷ []) ≡ record {
  status = "unhealthy";
  message = "Health check 1 failed: down";
  details = ("checker_0_bucket", "a") ∷ ("checker_1_bucket", "b") ∷ [];
  error = "timeout";
}
unfolding composite_check combine add_details checker_key digits insert text_dec Bool-cases
combined = refl

composite_checks-Tells_example :
    Tells answer "Health check " "All health checks passed"
      (first_failing answer 0 (0 ∷ 7 ∷ 0 ∷ []))
      (composite_check answer (0 ∷ 7 ∷ 0 ∷ []))
    × Tells answer "Storage check " "All storage checks passed"
        (first_failing answer 0 (0 ∷ 7 ∷ 0 ∷ []))
        (composite_check_storage answer (0 ∷ 7 ∷ 0 ∷ []))
composite_checks-Tells_example = composite_checks-Tells answer (0 ∷ 7 ∷ 0 ∷ [])
