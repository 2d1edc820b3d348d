-- ===== src/Validation/Examples.antt =====
-- pkg/validation/config.go: runs of the validator with the default rules.
use text.Mathlib.Text.{◌==◌ as text_eq}
use mathlib.Core.List.{Permᴰ}
use mathlib.Core.List.Permᴰ as PermD
use caddy_fs_gcs.Base.{
  ◌≡◌, refl, ◌↔◌, String, true, none, some, [], ◌∷◌, if◌then◌else◌, Dict, pos, lookup, insert,
  text_dec, Bool-cases,
}
use caddy_fs_gcs.Rules.{Value, str, int, Parsers, port_rule, required_missing}
use caddy_fs_gcs.Validation.{
  ConfigValidator, GcsConfig, new_config_validator, register_default_rules, register_rule,
  validate_config, validate_entries, validate_entry, validate_field,
}
use caddy_fs_gcs.Validation.Tables.{
  validate_gcs_config, build_config_map, get_validation_suggestions, suggestion, advice,
}
use caddy_fs_gcs.Validation.Reporting.{is_empty, fields, rejected, validate_config-rejected}
use caddy_fs_gcs.Validation.Ordering.{validate_config-Permᴰ}
use caddy_fs_gcs.Validation.Settings.{IsGcsConfig, validate_gcs_config-IsGcsConfig}

-- A standard library that knows one URL, one duration and one expression.
abbrev pub parsers : Parsers
parsers = record {
  parse_url = λ s. if text_eq s "https://example.com" then some ("https", "example.com") else none;
  parse_duration = λ s. if text_eq s "30s" then some (pos 30000000000) else none;
  compiles = λ s. text_eq s "a*";
}

abbrev validator : ConfigValidator
validator = new_config_validator parsers

abbrev half_config : Dict Value
half_config = ("port", int (pos 0)) ∷ ("enabled", str "true") ∷ []

abbrev ports_first : Dict String
ports_first = ("port", "port") ∷ ("namespace", "string") ∷ []

abbrev ports_last : Dict String
ports_last = ("namespace", "string") ∷ ("port", "port") ∷ []

abbrev pub bucket_config : GcsConfig
bucket_config = record {
  project_id = "";
  bucket_name = "my-bucket";
  credentials_file = "";
  credentials_config = "";
  max_connections = pos 10;
  connection_timeout = "30s";
}

both_rejected :
    fields (validate_config validator half_config ports_first).errors ≡ "port" ∷ "namespace" ∷ []
unfolding validate_config validate_entries validate_entry validate_field new_config_validator
    register_default_rules register_rule lookup insert text_dec Bool-cases port_rule
both_rejected = refl

suggested :
    get_validation_suggestions (
      record { field = "port"; message = required_missing; value = int (pos 0); rule = "port" }
      ∷ [])
    ≡ advice "Field 'port' must be a port number between 1 and 65535" ∷ []
unfolding get_validation_suggestions suggestion
suggested = refl

validate_config-rejected_example :
    (fields (validate_config validator half_config ports_first).errors
      ≡ rejected validator half_config ports_first)
    × ((validate_config validator half_config ports_first).valid
        ≡ is_empty (rejected validator half_config ports_first))
validate_config-rejected_example = validate_config-rejected validator half_config ports_first

validate_config-Permᴰ_example :
    ((validate_config validator half_config ports_first).valid
      ≡ (validate_config validator half_config ports_last).valid)
    × Permᴰ
        (validate_config validator half_config ports_first).errors
        (validate_config validator half_config ports_last).errors
validate_config-Permᴰ_example =
    validate_config-Permᴰ validator half_config ports_first ports_last (PermD.swap refl refl)

validate_gcs_config-IsGcsConfig_example :
    ((validate_gcs_config (new_config_validator parsers) (build_config_map bucket_config)).valid
      ≡ true)
    ↔ IsGcsConfig parsers bucket_config
validate_gcs_config-IsGcsConfig_example = validate_gcs_config-IsGcsConfig parsers bucket_config
