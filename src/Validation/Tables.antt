-- ===== src/Validation/Tables.antt =====
-- pkg/validation/config.go: the tables of rules, and the suggestions.
use Prim.Native.String
use text.Mathlib.Text.{◌==◌ as text_eq}
use caddy_fs_gcs.Base.{String, Option, List, [], ◌∷◌, if◌then◌else◌, Dict, lookup}
use caddy_fs_gcs.Rules.{Value, str, int, Problem}
use caddy_fs_gcs.Validation.{
  ValidationRule, ConfigValidator, ValidationError, ValidationResult, GcsConfig, validate_config,
}

-- `GetRule`
unfoldable pub get_rule : ConfigValidator → String → Option ValidationRule
get_rule v name = lookup name v.rules

-- `GetAvailableRules`, which copies the map
unfoldable pub get_available_rules : ConfigValidator → Dict ValidationRule
get_available_rules v = v.rules

unfoldable pub validate_http_config : ConfigValidator → Dict Value → ValidationResult
validate_http_config v config = validate_config v config (
    ("listen_address", "string")
    ∷ ("port", "port")
    ∷ ("read_timeout", "duration")
    ∷ ("write_timeout", "duration")
    ∷ ("idle_timeout", "duration")
    ∷ ("max_connections", "positive_int")
    ∷ [])

abbrev pub gcs_rules : Dict String
gcs_rules =
    ("project_id", "optional_string")
    ∷ ("bucket_name", "bucket_name")
    ∷ ("credentials_file", "optional_string")
    ∷ ("credentials_config", "optional_string")
    ∷ ("max_connections", "optional_positive_int")
    ∷ ("connection_timeout", "optional_duration")
    ∷ []

unfoldable pub validate_gcs_config : ConfigValidator → Dict Value → ValidationResult
validate_gcs_config v config = validate_config v config gcs_rules

unfoldable pub validate_security_config : ConfigValidator → Dict Value → ValidationResult
validate_security_config v config = validate_config v config (
    ("csp_enabled", "boolean")
    ∷ ("hsts_enabled", "boolean")
    ∷ ("hsts_max_age", "duration")
    ∷ ("cors_enabled", "boolean")
    ∷ ("cors_origins", "string")
    ∷ ("rate_limit_enabled", "boolean")
    ∷ ("rate_limit_requests", "positive_int")
    ∷ ("rate_limit_window", "duration")
    ∷ [])

unfoldable pub validate_metrics_config : ConfigValidator → Dict Value → ValidationResult
validate_metrics_config v config = validate_config v config (
    ("enabled", "boolean")
    ∷ ("namespace", "string")
    ∷ ("subsystem", "string")
    ∷ ("metrics_path", "string")
    ∷ ("listen_address", "string")
    ∷ [])

abbrev pub runtime_rules : Dict String
runtime_rules =
    ("log_level", "optional_string")
    ∷ ("max_connections", "optional_positive_int")
    ∷ ("read_timeout", "optional_duration")
    ∷ ("write_timeout", "optional_duration")
    ∷ ("idle_timeout", "optional_duration")
    ∷ []

unfoldable pub validate_runtime_config : ConfigValidator → Dict Value → ValidationResult
validate_runtime_config v config = validate_config v config runtime_rules

-- A message that ends in the text of a problem keeps the problem.
pub data Suggestion : Type 0 where
  advice : String → Suggestion
  has_error : String → Problem → Suggestion

abbrev about_field : String → String → Suggestion
about_field field what =
    advice (String.◌++◌ "Field '" (String.◌++◌ field (String.◌++◌ "' must be " what)))

unfoldable pub suggestion : ValidationError → Suggestion
suggestion e =
    if text_eq e.rule "string"
    then about_field e.field "a non-empty string"
    else if text_eq e.rule "url"
    then about_field e.field "a valid URL (e.g., https://example.com)"
    else if text_eq e.rule "email"
    then about_field e.field "a valid email address (e.g., user@example.com)"
    else if text_eq e.rule "port"
    then about_field e.field "a port number between 1 and 65535"
    else if text_eq e.rule "duration"
    then about_field e.field "a valid duration (e.g., 30s, 5m, 1h)"
    else if text_eq e.rule "positive_int"
    then about_field e.field "a positive integer"
    else if text_eq e.rule "boolean"
    then about_field e.field "true or false"
    else if text_eq e.rule "regex"
    then about_field e.field "a valid regular expression"
    else has_error e.field e.message

unfoldable pub get_validation_suggestions : List ValidationError → List Suggestion
get_validation_suggestions [] = []
get_validation_suggestions (e ∷ errors) = suggestion e ∷ get_validation_suggestions errors

-- `buildConfigMap`
unfoldable pub build_config_map : GcsConfig → Dict Value
build_config_map c =
    ("project_id", str c.project_id)
    ∷ ("bucket_name", str c.bucket_name)
    ∷ ("credentials_file", str c.credentials_file)
    ∷ ("credentials_config", str c.credentials_config)
    ∷ ("max_connections", int c.max_connections)
    ∷ ("connection_timeout", str c.connection_timeout)
    ∷ []
