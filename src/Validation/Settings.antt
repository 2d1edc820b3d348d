-- ===== src/Validation/Settings.antt =====
-- pkg/validation/config.go: which configurations of the bucket are valid.
use text.Mathlib.Text.{◌==◌ as text_eq}
use caddy_fs_gcs.Base.{
  ◌≡◌, refl, ap, sym, ◌∙◌, ◌↔◌, ◌⊎◌, inl, inr, String, Bool, true, false, not, ◌&&◌, ◌||◌, Option,
  none, some, List, [], ◌∷◌, ◌++◌, Bool-cases, Option-cases, arith, Dict, lookup, insert, all, ℤ,
  pos, negsuc, is_negative, text_dec,
}
use caddy_fs_gcs.Regex.{runes}
use caddy_fs_gcs.Texts.{is_blank}
use caddy_fs_gcs.Rules.{
  Value, str, int, Problem, Parsers, optional_string_rule, optional_positive_int_rule,
  optional_duration_rule, bucket_name_rule,
}
use caddy_fs_gcs.Rules.Buckets.{IsBucketName, bucket_name_rule-IsBucketName}
use caddy_fs_gcs.Validation.{
  ConfigValidator, GcsConfig, register_rule, register_default_rules, new_config_validator,
}
use caddy_fs_gcs.Validation.Reporting.{
  is_empty, is_fine, satisfied, unless, entry_satisfied, rejected, validate_config-rejected,
}
use caddy_fs_gcs.Validation.Tables.{gcs_rules, validate_gcs_config, build_config_map}

-- What a configuration of the bucket has to be.
pub record IsGcsConfig (p : Parsers) (c : GcsConfig) : Type 0 where
  bucket : IsBucketName (runes c.bucket_name)
  project : (text_eq c.project_id "" || not (is_blank c.project_id)) ≡ true
  file : (text_eq c.credentials_file "" || not (is_blank c.credentials_file)) ≡ true
  config : (text_eq c.credentials_config "" || not (is_blank c.credentials_config)) ≡ true
  connections : is_negative c.max_connections ≡ false
  timeout :
      (text_eq c.connection_timeout "" ≡ true)
      ⊎ ((d : ℤ) × (p.parse_duration c.connection_timeout ≡ some d))

empty_unless :
    (b : Bool) (field : String) (rest : List String)
    → is_empty (unless b field ++ rest) ≡ (b && is_empty rest)
empty_unless true field rest = refl
empty_unless false field rest = refl

rejected-all :
    (v : ConfigValidator) (config : Dict Value) (rules : Dict String)
    → is_empty (rejected v config rules) ≡ all (entry_satisfied v config) rules
unfolding rejected
rejected-all v config [] = refl
rejected-all v config (entry ∷ entries) =
    empty_unless (entry_satisfied v config entry) entry.0 (rejected v config entries)
    ∙ ap (λ b. entry_satisfied v config entry && b) (rejected-all v config entries)

abbrev is_text : String → Bool
is_text s = text_eq s "" || not (is_blank s)

string-is_text : (s : String) → is_fine (optional_string_rule (str s)) ≡ is_text s
unfolding optional_string_rule
string-is_text s = ground arith

is_fine-none : (o : Option Problem) → is_fine o ≡ true → o ≡ none
is_fine-none none h = refl
is_fine-none (some problem) h = cc

connections-fine : (z : ℤ) → is_fine (optional_positive_int_rule (int z)) ≡ not (is_negative z)
unfolding optional_positive_int_rule
connections-fine (pos n) = refl
connections-fine (negsuc n) = refl

module _ (p : Parsers) where
  -- Empty, or what `time.ParseDuration` takes.
  abbrev pub IsTimeout : String → Type 0
  IsTimeout s = (text_eq s "" ≡ true) ⊎ ((d : ℤ) × (p.parse_duration s ≡ some d))

  IsTimeout-fine : (s : String) → is_fine (optional_duration_rule p (str s)) ≡ true → IsTimeout s
  unfolding optional_duration_rule
  IsTimeout-fine s h = elim (Bool-cases (text_eq s "")) [
    | inl e ↦ inl e
    | inr n ↦ elim (Option-cases (p.parse_duration s)) [
      | inl no_value ↦ absurd (ground (arith, h, n, no_value))
      | inr value ↦ inr value
    ]
  ]

  fine-IsTimeout : (s : String) → IsTimeout s → is_fine (optional_duration_rule p (str s)) ≡ true
  unfolding optional_duration_rule
  fine-IsTimeout s (inl e) = rw e refl
  fine-IsTimeout s (inr (d, e)) = ground (arith, e)

module _ (p : Parsers) (c : GcsConfig) where
  abbrev verdicts : List Bool
  verdicts =
      is_fine (optional_string_rule (str c.project_id))
      ∷ is_fine (bucket_name_rule (str c.bucket_name))
      ∷ is_fine (optional_string_rule (str c.credentials_file))
      ∷ is_fine (optional_string_rule (str c.credentials_config))
      ∷ is_fine (optional_positive_int_rule (int c.max_connections))
      ∷ is_fine (optional_duration_rule p (str c.connection_timeout))
      ∷ []

  -- The six rules of the table, found in the validator by their names.
  valid-verdicts :
      (validate_gcs_config (new_config_validator p) (build_config_map c)).valid
      ≡ all (λ b. b) verdicts
  unfolding validate_gcs_config new_config_validator register_default_rules register_rule
      build_config_map lookup insert text_dec Bool-cases satisfied
  valid-verdicts =
      (validate_config-rejected (new_config_validator p) (build_config_map c) gcs_rules).1
      ∙ rejected-all (new_config_validator p) (build_config_map c) gcs_rules

  verdicts-IsGcsConfig : all (λ b. b) verdicts ≡ true → IsGcsConfig p c
  verdicts-IsGcsConfig h = record {
    bucket = (bucket_name_rule-IsBucketName c.bucket_name).0 (is_fine-none _ (ground (arith, h)));
    project = ground (arith, h, string-is_text c.project_id);
    file = ground (arith, h, string-is_text c.credentials_file);
    config = ground (arith, h, string-is_text c.credentials_config);
    connections = ground (arith, h, connections-fine c.max_connections);
    timeout = IsTimeout-fine p c.connection_timeout (ground (arith, h));
  }

  IsGcsConfig-verdicts : IsGcsConfig p c → all (λ b. b) verdicts ≡ true
  IsGcsConfig-verdicts g =
      rw
        (
          string-is_text c.project_id,
          string-is_text c.credentials_file,
          string-is_text c.credentials_config,
          connections-fine c.max_connections,
          (bucket_name_rule-IsBucketName c.bucket_name).1 g.bucket,
          g.project,
          g.file,
          g.config,
          g.connections,
          fine-IsTimeout p c.connection_timeout g.timeout,
        )
        refl

  -- `ValidateGCSConfig` with the default rules calls the map that `buildConfigMap` makes of a
  -- configuration valid exactly when its bucket name is a name of a bucket, its project and its two
  -- credentials are empty or not blank, its number of connections is not negative, and its timeout is
  -- empty or a duration.
  pub validate_gcs_config-IsGcsConfig :
      ((validate_gcs_config (new_config_validator p) (build_config_map c)).valid ≡ true)
      ↔ IsGcsConfig p c
  validate_gcs_config-IsGcsConfig = (
    λ h. verdicts-IsGcsConfig (sym valid-verdicts ∙ h),
    λ g. valid-verdicts ∙ IsGcsConfig-verdicts g,
  )
