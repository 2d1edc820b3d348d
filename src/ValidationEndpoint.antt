-- ===== src/ValidationEndpoint.antt =====
-- pkg/validation/validation_endpoint.go: the handler of the validation endpoints. How the decoder of the
-- request's body fares, whether the context has expired after it, and the client's address stand in the
-- request. Times of day are left out.
pub mod Serving
pub mod Access
pub mod Remembering
pub mod Parsing
mod Examples
use Prim.Native.String
use text.Mathlib.Text.{◌==◌ as text_eq}
use caddy_fs_gcs.Base.{
  ℕ, String, Bool, true, false, Option, none, some, List, [], ◌∷◌, if◌then◌else◌, Dict, insert,
}
use caddy_fs_gcs.Net.{Remote}
use caddy_fs_gcs.Dispenser.{Segment, Unmarshaler, next_arg, read_segments}
use caddy_fs_gcs.Endpoint.{BuildInfo, or_default, default_label, local_by_default}
use caddy_fs_gcs.Rules.{Parsers}
use caddy_fs_gcs.Validation.{ConfigValidator, ValidationResult, GcsConfig, new_config_validator}

pub record Handler : Type 0 where
  pub validation_path : String
  pub enable_live : Bool
  pub enable_dry_run : Bool
  pub strict_mode : Bool
  pub validate_on_load : Bool
  pub custom_labels : Dict String
  pub local_only : Option Bool
  pub validator : ConfigValidator
  pub last_validation : Option ValidationResult

unfoldable pub provision : BuildInfo → Parsers → Handler → Handler
provision info p h = record h {
  validation_path = or_default h.validation_path "/validate";
  local_only = local_by_default h.local_only;
  custom_labels =
      default_label "version" info.version
        (default_label "service" info.service_name h.custom_labels);
  validator = record (new_config_validator p) {
    strict_mode = h.strict_mode;
    validate_on_load = h.validate_on_load;
  };
}

-- The body of a request: none (`nil` or `http.NoBody`), empty, no configuration, or one.
pub data RequestBody : Type 0 where
  no_body : RequestBody
  empty_body : RequestBody
  malformed : RequestBody
  decoded : GcsConfig → RequestBody

pub record Request : Type 0 where
  pub path : String
  pub remote : Remote
  pub body : RequestBody
  pub expired : Bool

-- What `serveValidationStatus` tells, beside names and times.
pub record Status : Type 0 where
  pub strict_mode : Bool
  pub validate_on_load : Bool
  pub custom_rules : ℕ
  pub validation : String
  pub live : Bool
  pub dry_run : Bool
  pub custom_labels : Dict String
  -- The verdict and the number of errors of the last validation.
  pub last_validation : Option (Bool × ℕ)

pub data Body : Type 0 where
  plain_text : String → Body
  result : ValidationResult → Body
  dry_run : ValidationResult → Body
  status : Status → Body

-- The headers are the calls of `w.Header().Set` in order; those of `http.Error` are left out.
pub record Response : Type 0 where
  pub code : ℕ
  pub headers : List (String × String)
  pub body : Body

pub data Outcome : Type 0 where
  responds : Response → Outcome
  passes : Outcome

-- `UnmarshalCaddyfile`: the switch over a block's directives
abbrev parse_local_only : String → Option Bool
parse_local_only s =
    if text_eq s "true" then some true else if text_eq s "false" then some false else none

abbrev set_local_only : Handler → List String → Option Bool → Option (List String × Handler)
set_local_only h rest none = none
set_local_only h rest (some only) = some (rest, record h { local_only = some only })

unfoldable pub directive : String → List String → Handler → Option (List String × Handler)
directive name args h =
    if text_eq name "path"
    then next_arg args (λ v rest. some (rest, record h { validation_path = v }))
    else if text_eq name "enable_live"
    then some (args, record h { enable_live = true })
    else if text_eq name "enable_dry_run"
    then some (args, record h { enable_dry_run = true })
    else if text_eq name "strict_mode"
    then some (args, record h { strict_mode = true })
    else if text_eq name "validate_on_load"
    then some (args, record h { validate_on_load = true })
    else if text_eq name "local_only"
    then next_arg args (λ v rest. set_local_only h rest (parse_local_only v))
    else if text_eq name "label"
    then next_arg args (λ key rest.
      next_arg rest (λ value rest'.
        some (rest', record h { custom_labels = insert key value h.custom_labels })))
    else none

abbrev pub unmarshaler : Unmarshaler Handler
unmarshaler = record {
  start = λ h. record h { validation_path = or_default h.validation_path "/validate" };
  argument = λ v h. record h { validation_path = v };
  directive = directive;
}

unfoldable pub unmarshal_caddyfile : List Segment → Handler → Option Handler
unmarshal_caddyfile = read_segments unmarshaler
