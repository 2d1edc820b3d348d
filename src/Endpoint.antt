-- ===== src/Endpoint.antt =====
-- pkg/observability/health/health_endpoint.go: the handler of the health endpoints. The checkers are
-- of any types, a parameter; what they answer, the uptime's text and the client's address stand in
-- the request.
pub mod Serving
pub mod Labels
pub mod Startup
pub mod Exposure
pub mod Branches
pub mod Configuring
mod Examples
use Prim.Native.String
use Prim.Native.Char.{Char, code}
use text.Mathlib.Text.{◌==◌ as text_eq}
use caddy_fs_gcs.Base.{
  ℕ, String, Bool, true, false, not, ◌&&◌, ◌||◌, Option, none, some, List, [], ◌∷◌, ◌++◌, ◌==◌,
  if◌then◌else◌, Dict, insert, has,
}
use caddy_fs_gcs.Net.{Remote}
use caddy_fs_gcs.Health.{
  CompositeHealthChecker, new_composite_health_checker, default_config, HealthStatus, is_healthy,
  composite_check, composite_check_storage,
}

pub record Handler (C : Type 0) : Type 0 where
  pub health_path : String
  pub readiness_path : String
  pub liveness_path : String
  pub startup_path : String
  pub custom_labels : Dict String
  pub enable_detailed : Bool
  pub enable_metrics : Bool
  pub detailed_local_only : Option Bool
  pub checkers : List C
  pub composite : Option (CompositeHealthChecker C)
  pub startup_complete : Bool

-- `pkg.ServiceName` and `pkg.Version`
pub record BuildInfo : Type 0 where
  pub service_name : String
  pub version : String

abbrev pub or_default : String → String → String
or_default s d = if text_eq s "" then d else s

abbrev pub default_label : String → String → Dict String → Dict String
default_label key value labels = if has key labels then labels else insert key value labels

-- A string without CR, LF and NUL.
abbrev unsafe_char : Char → Bool
unsafe_char c = code c == 13 || code c == 10 || code c == 0

-- `validateHeaderValue`, true for no error
unfoldable pub validate_header_value : String → Bool
validate_header_value String.[] = true
validate_header_value (String.◌∷◌ c s) = not (unsafe_char c) && validate_header_value s

unfoldable pub labels_valid : Dict String → Bool
labels_valid [] = true
labels_valid ((key, value) ∷ labels) =
    validate_header_value key && validate_header_value value && labels_valid labels

abbrev pub local_by_default : Option Bool → Option Bool
local_by_default none = some true
local_by_default (some b) = some b

-- The composite checker that `Provision` and `AddHealthChecker` make.
abbrev pub composite_checker : {C : Type 0} → List C → CompositeHealthChecker C
composite_checker cs = new_composite_health_checker cs (some default_config)

abbrev composite_of :
    {C : Type 0} → List C → Option (CompositeHealthChecker C) → Option (CompositeHealthChecker C)
composite_of [] composite = composite
composite_of (c ∷ cs) composite = some (composite_checker (c ∷ cs))

abbrev is_empty : {C : Type 0} → List C → Bool
is_empty [] = true
is_empty (c ∷ cs) = false

module _ {C : Type 0} where
  -- `Provision`, up to the labels' validation
  abbrev pub with_defaults : BuildInfo → Handler C → Handler C
  with_defaults info h = record h {
    health_path = or_default h.health_path "/health";
    readiness_path = or_default h.readiness_path "/ready";
    liveness_path = or_default h.liveness_path "/live";
    startup_path = or_default h.startup_path "/startup";
    detailed_local_only = local_by_default h.detailed_local_only;
    custom_labels =
        default_label "version" info.version
          (default_label "service" info.service_name h.custom_labels);
  }

  -- `Provision`; false is an error.
  unfoldable pub provision : BuildInfo → Handler C → Handler C × Bool
  provision info h =
      let h' = with_defaults info h in
      if labels_valid h'.custom_labels
      then (
        record h' {
          composite = composite_of h'.checkers h'.composite;
          startup_complete = is_empty h'.checkers;
        },
        true,
      )
      else (h', false)

  -- `AddHealthChecker` of a checker that is not nil
  unfoldable pub add_health_checker : C → Handler C → Handler C
  add_health_checker c h = record h {
    checkers = h.checkers ++ c ∷ [];
    composite = some (composite_checker (h.checkers ++ c ∷ []));
  }

-- A request, with the answers of the checkers while it is served.
pub record Request (C : Type 0) : Type 0 where
  pub path : String
  pub remote : Remote
  pub check : C → HealthStatus
  pub check_storage : C → HealthStatus
  pub uptime : String

-- What is encoded as JSON, beside the build information, the times and the overall status, which repeats
-- that of the storage.
pub data Body : Type 0 where
  health : HealthStatus → Body
  detailed :
      (custom_labels : Dict String) (storage : Option HealthStatus) (startup_complete : Bool) → Body
  metrics : (storage : Option HealthStatus) (startup_complete : Bool) → Body

-- The headers are the calls of `w.Header().Set`, in order.
pub record Response : Type 0 where
  pub code : ℕ
  pub headers : List (String × String)
  pub body : Body

pub data Outcome : Type 0 where
  responds : Response → Outcome
  passes : Outcome
