-- ===== src/Validation/Reporting.antt =====
-- pkg/validation/config.go: what `ValidateConfig` reports.
use mathlib.Core.List.{append_assoc, append-nil}
use caddy_fs_gcs.Base.{
  ◌≡◌, refl, ap, sym, ◌∙◌, String, Bool, true, false, not, ◌&&◌, Option, none, some, List, [], ◌∷◌,
  ◌++◌, map, if◌then◌else◌, arith, Dict, lookup,
}
use caddy_fs_gcs.Rules.{
  Value, null, str, int, int64, boolean, duration, other, Problem, required_missing,
}
use caddy_fs_gcs.Validation.{
  ValidationRule, ConfigValidator, FieldError, plain, invalid, field_error, record_error,
  rule_required, validate_by, invalid_by, ValidationError, ValidationResult, validate_field,
  validate_entry, validate_entries, validate_config, validate_found, fail,
}

abbrev pub is_empty : {A : Type 0} → List A → Bool
is_empty [] = true
is_empty (x ∷ xs) = false

abbrev pub is_fine : Option Problem → Bool
is_fine none = true
is_fine (some problem) = false

-- Whether a rule is satisfied by what a configuration holds for a field.
unfoldable pub satisfied : Option ValidationRule → Option Value → Bool
satisfied none none = true
satisfied none (some value) = false
satisfied (some r) none = not r.required
satisfied (some r) (some null) = not r.required
satisfied (some r) (some value) = is_fine (r.validate value)

-- A result with more errors.
abbrev pub with_errors : List ValidationError → ValidationResult → ValidationResult
with_errors es result = record { valid = is_empty es && result.valid; errors = result.errors ++ es }

abbrev pub no_errors : ValidationResult
no_errors = record { valid = true; errors = [] }

with_no_errors : (result : ValidationResult) → result ≡ with_errors [] result
with_no_errors result =
    ap (λ es. record { valid = result.valid; errors = es }) (sym (append-nil result.errors))

with_errors-with_errors :
    (es fs : List ValidationError) (result : ValidationResult)
    → with_errors fs (with_errors es result) ≡ with_errors (es ++ fs) result
with_errors-with_errors [] fs result =
    ap (λ gs. record { valid = is_empty fs && result.valid; errors = gs ++ fs })
      (append-nil result.errors)
with_errors-with_errors (e ∷ es) [] result =
    ap (λ gs. record { valid = false; errors = gs }) (append_assoc result.errors (e ∷ es) [])
with_errors-with_errors (e ∷ es) (f ∷ fs) result =
    ap (λ gs. record { valid = false; errors = gs }) (append_assoc result.errors (e ∷ es) (f ∷ fs))

-- A rejected field adds its error, the others add nothing.
found_if :
    (failed : Bool) (e : ValidationError) (result : ValidationResult)
    → (if failed then fail e result else result)
      ≡ with_errors (if failed then fail e no_errors else no_errors).errors result
found_if true e result = refl
found_if false e result = with_no_errors result

recorded :
    (field : String) (value : Value) (rule : String) (error : Option FieldError)
    (result : ValidationResult)
    → record_error field value rule error result
      ≡ with_errors (record_error field value rule error no_errors).errors result
recorded field value rule none result = with_no_errors result
recorded field value rule (some (plain problem)) result = refl
recorded field value rule (some (invalid e)) result = refl

-- The fields of errors.
abbrev pub fields : List ValidationError → List String
fields = map (λ e. e.field)

fields-append : (es fs : List ValidationError) → fields (es ++ fs) ≡ fields es ++ fields fs
fields-append [] fs = refl
fields-append (e ∷ es) fs = ap (◌∷◌ e.field) (fields-append es fs)

abbrev pub unless : Bool → String → List String
unless b field = if b then [] else field ∷ []

missing-satisfied :
    (field rule : String) (o : Option ValidationRule)
    → fields
        (if rule_required o
          then fail (field_error field null rule required_missing) no_errors
          else no_errors).errors
      ≡ unless (satisfied o none) field
unfolding satisfied
missing-satisfied field rule none = refl
missing-satisfied field rule (some r) = ground arith

checked :
    (field rule : String) (value : Value) (problem : Option Problem)
    → fields (record_error field value rule (invalid_by field value rule problem) no_errors).errors
      ≡ unless (is_fine problem) field
checked field rule value none = refl
checked field rule value (some problem) = refl

validate_by-satisfied :
    (field rule : String) (o : Option ValidationRule) (value : Value)
    → fields (record_error field value rule (validate_by field rule o value) no_errors).errors
      ≡ unless (satisfied o (some value)) field
unfolding satisfied
validate_by-satisfied field rule none value = refl
validate_by-satisfied field rule (some r) null = ground arith
validate_by-satisfied field rule (some r) (str s) = checked field rule (str s) _
validate_by-satisfied field rule (some r) (int z) = checked field rule (int z) _
validate_by-satisfied field rule (some r) (int64 z) = checked field rule (int64 z) _
validate_by-satisfied field rule (some r) (boolean b) = checked field rule (boolean b) _
validate_by-satisfied field rule (some r) (duration d) = checked field rule (duration d) _
validate_by-satisfied field rule (some r) other = checked field rule other _

module _ (v : ConfigValidator) (config : Dict Value) where
  -- The errors of one entry of a table of rules.
  unfoldable pub entry_errors : String × String → List ValidationError
  entry_errors entry = (validate_entry v config entry no_errors).errors

  pub validate_entry-entry_errors :
      (entry : String × String) (result : ValidationResult)
      → validate_entry v config entry result ≡ with_errors (entry_errors entry) result
  unfolding validate_entry entry_errors validate_field
  validate_entry-entry_errors (field, rule) result = found (lookup field config)
    where
      found :
          (value : Option Value)
          → validate_found v config field rule value result
            ≡ with_errors (validate_found v config field rule value no_errors).errors result
      found none = found_if (rule_required (lookup rule v.rules)) _ result
      found (some value) = recorded field value rule (validate_field v field value rule) result

  -- Whether the configuration satisfies an entry of a table of rules.
  abbrev pub entry_satisfied : String × String → Bool
  entry_satisfied (field, rule) = satisfied (lookup rule v.rules) (lookup field config)

  entry_errors-satisfied :
      (entry : String × String)
      → fields (entry_errors entry) ≡ unless (entry_satisfied entry) entry.0
  unfolding validate_entry entry_errors validate_field
  entry_errors-satisfied (field, rule) = found (lookup field config)
    where
      found :
          (value : Option Value)
          → fields (validate_found v config field rule value no_errors).errors
            ≡ unless (satisfied (lookup rule v.rules) value) field
      found none = missing-satisfied field rule (lookup rule v.rules)
      found (some value) = validate_by-satisfied field rule (lookup rule v.rules) value

  unfoldable pub all_errors : Dict String → List ValidationError
  all_errors [] = []
  all_errors (entry ∷ entries) = entry_errors entry ++ all_errors entries

  validate_entries-all_errors :
      (entries : Dict String) (result : ValidationResult)
      → validate_entries v config entries result ≡ with_errors (all_errors entries) result
  unfolding validate_entries all_errors
  validate_entries-all_errors [] result = with_no_errors result
  validate_entries-all_errors (entry ∷ entries) result =
      ap (validate_entries v config entries) (validate_entry-entry_errors entry result)
      ∙ validate_entries-all_errors entries _
      ∙ with_errors-with_errors (entry_errors entry) (all_errors entries) result

  pub validate_config-all_errors :
      (rules : Dict String)
      → validate_config v config rules
        ≡ record { valid = is_empty (all_errors rules); errors = all_errors rules }
  unfolding validate_config
  validate_config-all_errors rules =
      validate_entries-all_errors rules no_errors ∙ with_all (all_errors rules)
    where
      with_all :
          (es : List ValidationError)
          → with_errors es no_errors ≡ record { valid = is_empty es; errors = es }
      with_all [] = refl
      with_all (e ∷ es) = refl

  -- The fields whose rules the configuration does not satisfy, in the order of the table.
  unfoldable pub rejected : Dict String → List String
  rejected [] = []
  rejected (entry ∷ entries) = unless (entry_satisfied entry) entry.0 ++ rejected entries

  all_errors-rejected : (rules : Dict String) → fields (all_errors rules) ≡ rejected rules
  unfolding all_errors rejected
  all_errors-rejected [] = refl
  all_errors-rejected (entry ∷ entries) =
      fields-append (entry_errors entry) (all_errors entries)
      ∙ rw (entry_errors-satisfied entry, all_errors-rejected entries) refl

  fields-is_empty : (es : List ValidationError) → is_empty es ≡ is_empty (fields es)
  fields-is_empty [] = refl
  fields-is_empty (e ∷ es) = refl

  -- `ValidateConfig` reports exactly the fields whose rules the configuration does not satisfy, once for
  -- each entry of the table and in the order of the iteration, and the result is valid exactly when
  -- there are none. A rule that is not known is satisfied only by a field that is absent, a required
  -- rule not by an absent or nil field, and otherwise the rule's own test decides.
  pub validate_config-rejected :
      (rules : Dict String)
      → (fields (validate_config v config rules).errors ≡ rejected rules)
        × ((validate_config v config rules).valid ≡ is_empty (rejected rules))
  validate_config-rejected rules = (
    rw (validate_config-all_errors rules) (all_errors-rejected rules),
    rw (validate_config-all_errors rules)
        (fields-is_empty (all_errors rules) ∙ ap is_empty (all_errors-rejected rules)),
  )
