-- ===== src/Health.antt =====
-- pkg/observability/health/health.go: the checker of a bucket and the checker that combines others.
-- What the service answers is a parameter; the timestamps of the statuses are left out.
pub mod Checking
pub mod Combining
mod Examples
use Prim.Native.String
use text.Mathlib.Text.{◌==◌ as text_eq}
use caddy_fs_gcs.Base.{
  ℕ, zero, suc, ◌+◌, ◌/◌, ◌%◌, ◌^◌, ◌*◌, String, Bool, true, false, not, Option, none, some, List,
  [], ◌∷◌, ◌++◌, ltb, if◌then◌else◌, Dict, insert, get_elem?,
}

pub record HealthStatus : Type 0 where
  pub status : String
  pub message : String
  pub details : Dict String
  pub error : String

pub record HealthConfig : Type 0 where
  pub timeout : ℕ
  pub retry_attempts : ℕ
  pub retry_delay : ℕ
  pub check_permissions : Bool
  pub check_connectivity : Bool

-- `client` says whether the checker has one.
pub record GcsHealthChecker : Type 0 where
  pub client : Bool
  pub bucket : String
  pub config : HealthConfig

abbrev nanoseconds : ℕ
nanoseconds = 10 ^ 9

abbrev pub default_config : HealthConfig
default_config = record {
  timeout = 30 * nanoseconds;
  retry_attempts = 3;
  retry_delay = 5 * nanoseconds;
  check_permissions = true;
  check_connectivity = true;
}

abbrev config_or : Option HealthConfig → HealthConfig
config_or none = default_config
config_or (some config) = config

unfoldable pub new_gcs_health_checker : Bool → String → Option HealthConfig → GcsHealthChecker
new_gcs_health_checker client bucket config = record {
  client = client;
  bucket = bucket;
  config = config_or config;
}

-- The answer of `Next` on a listing, and of `TestPermissions`; an error is its text.
pub data Next : Type 0 where
  next_object iterator_done : Next
  next_error : String → Next

pub data Permissions : Type 0 where
  granted : List String → Permissions
  permissions_error : String → Permissions

-- The answers of Cloud Storage during a check.
pub record Service : Type 0 where
  pub attrs_error : Option String
  pub first : Next
  pub permissions : Permissions

-- The calls that a check makes.
pub data Call : Type 0 where
  bucket_attrs list_objects test_permissions : Call

abbrev pub is_healthy : HealthStatus → Bool
is_healthy s = text_eq s.status "healthy"

abbrev no_client : GcsHealthChecker → List Call × HealthStatus
no_client h = (
  [],
  record {
    status = "unhealthy";
    message = "GCS client is not configured";
    details = ("bucket", h.bucket) ∷ ("error_type", "no_client") ∷ [];
    error = "nil GCS client";
  },
)

abbrev failed : GcsHealthChecker → String → String → String → HealthStatus
failed h message error_type error = record {
  status = "unhealthy";
  message = message;
  details = ("bucket", h.bucket) ∷ ("error_type", error_type) ∷ [];
  error = error;
}

abbrev passed : GcsHealthChecker → String → String → HealthStatus
passed h message status = record {
  status = "healthy";
  message = message;
  details = ("bucket", h.bucket) ∷ ("status", status) ∷ [];
  error = "";
}

abbrev listing_status : GcsHealthChecker → Next → HealthStatus
listing_status h (next_error e) =
    failed h "Storage access failed" "storage_access" (String.◌++◌ "failed to access storage: " e)
listing_status h next_object = passed h "Storage access is working" "storage_ok"
listing_status h iterator_done = passed h "Storage access is working" "storage_ok"

unfoldable pub check_storage : GcsHealthChecker → Service → List Call × HealthStatus
check_storage h svc =
    if h.client then (list_objects ∷ [], listing_status h svc.first) else no_client h

abbrev attrs_status : GcsHealthChecker → Option String → HealthStatus
attrs_status h (some e) =
    failed h "GCS connectivity failed" "connectivity" (String.◌++◌ "failed to connect to GCS: " e)
attrs_status h none = passed h "GCS connectivity is working" "connectivity_ok"

unfoldable pub check_connectivity : GcsHealthChecker → Service → List Call × HealthStatus
check_connectivity h svc =
    if h.client then (bucket_attrs ∷ [], attrs_status h svc.attrs_error) else no_client h

abbrev permissions_status : GcsHealthChecker → Permissions → HealthStatus
permissions_status h (permissions_error e) =
    failed h "Permission check failed" "permission_check"
      (String.◌++◌ "failed to check permissions: " e)
permissions_status h (granted []) =
    failed h "Insufficient permissions" "insufficient_permissions"
      "no permissions granted on bucket"
permissions_status h (granted (p ∷ ps)) = passed h "Permissions are working" "permissions_ok"

unfoldable pub check_permissions : GcsHealthChecker → Service → List Call × HealthStatus
check_permissions h svc =
    if h.client then (test_permissions ∷ [], permissions_status h svc.permissions) else no_client h

-- A check that may be disabled, before the rest: an unhealthy status is returned at once.
abbrev pub before :
    Bool → List Call × HealthStatus → List Call × HealthStatus → List Call × HealthStatus
before false (calls, s) rest = rest
before true (calls, s) (calls', s') = if is_healthy s then (calls ++ calls', s') else (calls, s)

abbrev all_passed : GcsHealthChecker → String → HealthStatus
all_passed h last_check = record {
  status = "healthy";
  message = "All health checks passed";
  details =
      ("bucket", h.bucket)
      ∷ ("connectivity", "ok")
      ∷ ("storage", "ok")
      ∷ ("permissions", "ok")
      ∷ ("last_check", last_check)
      ∷ [];
  error = "";
}

-- `last_check` is the formatted time.
unfoldable pub check : GcsHealthChecker → Service → String → List Call × HealthStatus
check h svc last_check =
    if h.client
    then before h.config.check_connectivity (check_connectivity h svc) (
        before true (check_storage h svc) (
          before h.config.check_permissions (check_permissions h svc)
            ([], all_passed h last_check)))
    else no_client h

-- `%d`
abbrev text_or_empty : Option String → String
text_or_empty none = ""
text_or_empty (some d) = d

abbrev pub digit : ℕ → String
digit n =
    text_or_empty (get_elem? ("0" ∷ "1" ∷ "2" ∷ "3" ∷ "4" ∷ "5" ∷ "6" ∷ "7" ∷ "8" ∷ "9" ∷ []) n)

unfoldable pub digits : ℕ → ℕ → String
digits zero n = ""
digits (suc fuel) n =
    let front = digits fuel (n / 10) in
    if ltb n 10 then digit n else String.◌++◌ front (digit (n % 10))

-- A number has at most as many digits as it is large, or one.
abbrev pub decimal : ℕ → String
decimal n = digits (suc n) n

-- `fmt.Sprintf("checker_%d_%s", i, key)`
unfoldable pub checker_key : ℕ → String → String
checker_key i key = String.◌++◌ "checker_" (String.◌++◌ (decimal i) (String.◌++◌ "_" key))

-- `for key, value := range status.Details`
unfoldable pub add_details : ℕ → Dict String → Dict String → Dict String
add_details i [] all = all
add_details i ((key, value) ∷ details) all =
    add_details i details (insert (checker_key i key) value all)

-- The checkers are of any types, which are a parameter.
pub record CompositeHealthChecker (C : Type 0) : Type 0 where
  pub checkers : List C
  pub config : HealthConfig

abbrev composite_config : Option HealthConfig → HealthConfig
composite_config none = record default_config {
  check_permissions = false;
  check_connectivity = false;
}
composite_config (some config) = config

abbrev pub new_composite_health_checker :
    {C : Type 0} → List C → Option HealthConfig → CompositeHealthChecker C
new_composite_health_checker checkers config = record {
  checkers = checkers;
  config = composite_config config;
}

-- The methods of a composite checker, on its `checkers`: `answer` is what one of them answers to the
-- call at hand.
module _ {C : Type 0} (answer : C → HealthStatus) where
  -- The loop, from the i-th checker on.
  unfoldable pub combine : (failure success : String) → ℕ → Dict String → List C → HealthStatus
  combine failure success i all [] = record {
    status = "healthy";
    message = success;
    details = all;
    error = "";
  }
  combine failure success i all (c ∷ cs) =
      let s = answer c in
      let all' = add_details i s.details all in
      let rest = combine failure success (suc i) all' cs in
      if is_healthy s then rest else record {
        status = "unhealthy";
        message = String.◌++◌ failure (String.◌++◌ (decimal i) (String.◌++◌ " failed: " s.message));
        details = all';
        error = s.error;
      }

  unfoldable pub composite_check : List C → HealthStatus
  composite_check = combine "Health check " "All health checks passed" 0 []

  unfoldable pub composite_check_storage : List C → HealthStatus
  composite_check_storage = combine "Storage check " "All storage checks passed" 0 []
