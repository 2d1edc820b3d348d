-- ===== src/Validation.antt =====
-- pkg/validation/config.go: `ConfigValidator`. A rule is kept without its description, a result without
-- its time and its warnings, of which there are never any. The lock guards single reads and writes of
-- the rules. A call's order of iteration over a map is that of its list.
pub mod Reporting
pub mod Tables
pub mod Ordering
pub mod Settings
pub mod Examples
use Prim.Native.String
use text.Mathlib.Text.{◌==◌ as text_eq}
use caddy_fs_gcs.Base.{
  String, Bool, true, false, not, ◌&&◌, Option, none, some, List, [], ◌∷◌, ◌++◌, if◌then◌else◌,
  Dict, lookup, insert, ℤ,
}
use caddy_fs_gcs.Rules.{
  Value, null, str, int, Problem, required_missing, unknown_rule, Parsers, string_rule, url_rule,
  email_rule, port_rule, duration_rule, positive_int_rule, boolean_rule, regex_rule,
  optional_string_rule, optional_positive_int_rule, optional_duration_rule, bucket_name_rule,
}

pub record ValidationRule : Type 0 where
  pub name : String
  pub validate : Value → Option Problem
  pub required : Bool
  pub rule_type : String

pub record ConfigValidator : Type 0 where
  pub rules : Dict ValidationRule
  pub strict_mode : Bool
  pub validate_on_load : Bool
  pub custom_rules : Dict ValidationRule

pub record ValidationError : Type 0 where
  pub field : String
  pub message : Problem
  pub value : Value
  pub rule : String

pub record ValidationResult : Type 0 where
  pub valid : Bool
  pub errors : List ValidationError

pub record GcsConfig : Type 0 where
  pub project_id : String
  pub bucket_name : String
  pub credentials_file : String
  pub credentials_config : String
  pub max_connections : ℤ
  pub connection_timeout : String

unfoldable pub register_rule : String → ValidationRule → ConfigValidator → ConfigValidator
register_rule name rule v = record v { rules = insert name rule v.rules }

abbrev required_rule :
    String → String → (Value → Option Problem) → ConfigValidator → ConfigValidator
required_rule name rule_type validate =
    register_rule name
      (record { name = name; validate = validate; required = true; rule_type = rule_type })

abbrev optional_rule :
    String → String → (Value → Option Problem) → ConfigValidator → ConfigValidator
optional_rule name rule_type validate =
    register_rule name
      (record { name = name; validate = validate; required = false; rule_type = rule_type })

unfoldable pub register_default_rules : Parsers → ConfigValidator → ConfigValidator
register_default_rules p v = required_rule "bucket_name" "string" bucket_name_rule (
    optional_rule "optional_duration" "string" (optional_duration_rule p) (
      optional_rule "optional_positive_int" "integer" optional_positive_int_rule (
        optional_rule "optional_string" "string" optional_string_rule (
          required_rule "regex" "string" (regex_rule p) (
            required_rule "boolean" "boolean" boolean_rule (
              required_rule "positive_int" "integer" positive_int_rule (
                required_rule "duration" "duration" (duration_rule p) (
                  required_rule "port" "integer" port_rule (
                    required_rule "email" "string" email_rule (
                      required_rule "url" "string" (url_rule p)
                        (required_rule "string" "string" string_rule v)))))))))))

unfoldable pub new_config_validator : Parsers → ConfigValidator
new_config_validator p =
    register_default_rules p
      (record { rules = []; strict_mode = false; validate_on_load = true; custom_rules = [] })

-- The error of `ValidateField`: a plain one, or a `ValidationError`.
pub data FieldError : Type 0 where
  plain : Problem → FieldError
  invalid : ValidationError → FieldError

abbrev pub field_error : String → Value → String → Problem → ValidationError
field_error field value rule problem = record {
  field = field;
  message = problem;
  value = value;
  rule = rule;
}

abbrev pub invalid_by : String → Value → String → Option Problem → Option FieldError
invalid_by field value rule none = none
invalid_by field value rule (some problem) = some (invalid (field_error field value rule problem))

-- `ValidateField` with the rule that was looked up
abbrev pub validate_by : String → String → Option ValidationRule → Value → Option FieldError
validate_by field rule none value = some (plain (unknown_rule rule))
validate_by field rule (some r) null =
    if r.required then some (invalid (field_error field null rule required_missing)) else none
validate_by field rule (some r) value = invalid_by field value rule (r.validate value)

unfoldable pub validate_field : ConfigValidator → String → Value → String → Option FieldError
validate_field v field value rule = validate_by field rule (lookup rule v.rules) value

-- `v.rules[ruleName].Required`
abbrev pub rule_required : Option ValidationRule → Bool
rule_required none = false
rule_required (some r) = r.required

-- `result.Valid = false` and the error appended
abbrev pub fail : ValidationError → ValidationResult → ValidationResult
fail e result = record { valid = false; errors = result.errors ++ e ∷ [] }

abbrev pub record_error :
    String → Value → String → Option FieldError → ValidationResult → ValidationResult
record_error field value rule none result = result
record_error field value rule (some (invalid e)) result = fail e result
record_error field value rule (some (plain problem)) result =
    fail (field_error field value rule problem) result

module _ (v : ConfigValidator) (config : Dict Value) where
  -- A round of the loop of `ValidateConfig`, with the value that was looked up.
  abbrev pub validate_found : String → String → Option Value → ValidationResult → ValidationResult
  validate_found field rule none result =
      if rule_required (lookup rule v.rules)
      then fail (field_error field null rule required_missing) result
      else result
  validate_found field rule (some value) result =
      record_error field value rule (validate_field v field value rule) result

  unfoldable pub validate_entry : String × String → ValidationResult → ValidationResult
  validate_entry (field, rule) result = validate_found field rule (lookup field config) result

  unfoldable pub validate_entries : Dict String → ValidationResult → ValidationResult
  validate_entries [] result = result
  validate_entries (entry ∷ entries) result = validate_entries entries (validate_entry entry result)

  unfoldable pub validate_config : Dict String → ValidationResult
  validate_config rules = validate_entries rules (record { valid = true; errors = [] })
