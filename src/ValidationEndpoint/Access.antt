-- ===== src/ValidationEndpoint/Access.antt =====
-- pkg/validation/validation_endpoint.go: who is served, and with which verdict.
use text.Mathlib.Text.{◌==◌ as text_eq}
use Prim.Native.String.{◌++◌ as append}
use text.Mathlib.TextEquality.{eq_iff}
use caddy_fs_gcs.Base.{
  ℕ, ◌≡◌, ◌≢◌, refl, ◌↔◌, ◌⊎◌, inl, inr, String, not, ◌&&◌, if_both, Bool, true, false, Option,
  none, some, Bool-cases, arith,
}
use caddy_fs_gcs.Net.{is_loopback}
use caddy_fs_gcs.Endpoint.{BuildInfo}
use caddy_fs_gcs.Rules.{Parsers}
use caddy_fs_gcs.Validation.{
  GcsConfig, ValidationResult, validate_config, validate_entries, validate_entry, validate_field,
  new_config_validator,
}
use caddy_fs_gcs.Validation.Tables.{validate_gcs_config, build_config_map}
use caddy_fs_gcs.Validation.Settings.{IsGcsConfig, validate_gcs_config-IsGcsConfig}
use caddy_fs_gcs.ValidationEndpoint.{
  Handler, Request, decoded, Outcome, responds, passes, provision,
}
use caddy_fs_gcs.ValidationEndpoint.Serving.{
  serve_http, is_validation_route, is_local_only, dispatch, serve_validation, validate_decoded,
  answer_with, verdict_code, after_decoding, Decoding, absent, present, invalid_json, dry_run_after,
  below, decode, decode_json, serve_live_validation, serve_dry_run_validation,
  serve_validation_status,
}

abbrev pub code_of : Outcome → Option ℕ
code_of (responds response) = some response.code
code_of passes = none

-- The paths of the endpoints.
abbrev pub IsEndpoint : String → String → Type 0
IsEndpoint base path =
    (path ≡ base)
    ⊎ (path ≡ append base "/live")
    ⊎ (path ≡ append base "/dry-run")
    ⊎ (path ≡ append base "/status")

-- Who is served: a client on the loopback interface, or any when the restriction is taken off.
abbrev pub IsAdmitted : Handler → Request → Type 0
IsAdmitted h r = (is_loopback r.remote ≡ true) ⊎ (h.local_only ≡ some false)

is_validation_route-IsEndpoint :
    (h : Handler) (path : String)
    → (is_validation_route h path ≡ true) ↔ IsEndpoint h.validation_path path
unfolding is_validation_route
is_validation_route-IsEndpoint h path = (
  λ e. ground (
    arith,
    e,
    eq_iff path h.validation_path,
    eq_iff path (below h "/live"),
    eq_iff path (below h "/dry-run"),
    eq_iff path (below h "/status"),
  ),
  λ e. ground (
    arith,
    e,
    eq_iff path h.validation_path,
    eq_iff path (below h "/live"),
    eq_iff path (below h "/dry-run"),
    eq_iff path (below h "/status"),
  ),
)

abbrev Answers : Handler × Outcome → Type 0
Answers x = code_of x.1 ≢ some 403

verdict-Answers : (v : ValidationResult) → some (verdict_code v) ≢ some 403
verdict-Answers v e = elim (Bool-cases v.valid) [
  | inl y ↦ absurd (ground (arith, rw y at e))
  | inr n ↦ absurd (ground (arith, rw n at e))
]

after_decoding-Answers :
    (h : Handler) (expired : Bool) (d : Decoding) → Answers (after_decoding h expired d)
after_decoding-Answers h expired invalid_json e = absurd (ground (arith, e))
after_decoding-Answers h true absent e = absurd (ground (arith, e))
after_decoding-Answers h false absent e = absurd (ground (arith, e))
after_decoding-Answers h true (present c) e = absurd (ground (arith, e))
after_decoding-Answers h false (present c) e = verdict-Answers (validate_decoded h c) e

dry_run_after-Answers :
    (h : Handler) (expired : Bool) (d : Decoding) → Answers (dry_run_after h expired d)
dry_run_after-Answers h expired invalid_json e = absurd (ground (arith, e))
dry_run_after-Answers h expired absent e = absurd (ground (arith, e))
dry_run_after-Answers h true (present c) e = absurd (ground (arith, e))
dry_run_after-Answers h false (present c) e = verdict-Answers (validate_decoded h c) e

passes-Answers : (h : Handler) → Answers (h, passes)
passes-Answers h e = absurd (ground (arith, e))

status-Answers : (h : Handler) → Answers (h, serve_validation_status h)
unfolding serve_validation_status
status-Answers h e = absurd (ground (arith, e))

dispatch-Answers : (h : Handler) (r : Request) → Answers (dispatch h r)
unfolding dispatch serve_validation serve_live_validation serve_dry_run_validation
dispatch-Answers h r =
    let is = text_eq r.path in
    if_both Answers (is h.validation_path) _ _ (after_decoding-Answers h r.expired (decode r.body))
      (if_both Answers (is (below h "/live")) _ _
        (if_both Answers h.enable_live _ _ (after_decoding-Answers h r.expired (decode_json r.body))
          (passes-Answers h))
        (if_both Answers (is (below h "/dry-run")) _ _
          (if_both Answers h.enable_dry_run _ _
            (dry_run_after-Answers h r.expired (decode_json r.body)) (passes-Answers h))
          (if_both Answers (is (below h "/status")) _ _ (status-Answers h) (passes-Answers h))))

not_admitted :
    (only : Option Bool) (local : Bool)
    → (is_local_only only && not local) ≡ true
    → ¬ ((local ≡ true) ⊎ (only ≡ some false))
not_admitted none local h a = absurd (ground (arith, h, a))
not_admitted (some only) local h a = absurd (ground (arith, h, a))

admitted :
    (only : Option Bool) (local : Bool)
    → (is_local_only only && not local) ≡ false
    → (local ≡ true) ⊎ (only ≡ some false)
admitted none local h = inl (ground (arith, h))
admitted (some true) local h = inl (ground (arith, h))
admitted (some false) local h = inr refl

-- What `ServeHTTP` does for who asks: the answer is 403 exactly on the paths of the endpoints to who is
-- not admitted, who changes nothing; off these paths the next handler is called and nothing changes.
pub record Guarded (h : Handler) (r : Request) : Type 0 where
  pub refuses :
      (code_of (serve_http h r).1 ≡ some 403)
      ↔ (IsEndpoint h.validation_path r.path × (¬ IsAdmitted h r))
  pub keeps : IsAdmitted h r ⊎ ((serve_http h r).0 ≡ h)
  pub passes_on : IsEndpoint h.validation_path r.path ⊎ (serve_http h r ≡ (h, passes))

-- A request to one of the four paths of the endpoints, the validation path and those with /live,
-- /dry-run and /status behind it, is answered 403 exactly when it comes from a client that is not on
-- the loopback interface and `local_only` is not set to false; no other request is ever answered 403.
-- Such a client changes nothing, and on any other path the next handler is called.
pub serve_http-Guarded : (h : Handler) (r : Request) → Guarded h r
unfolding serve_http
serve_http-Guarded h r = elim (Bool-cases (is_validation_route h r.path)) [
  | inr n ↦
      let off : ¬ IsEndpoint h.validation_path r.path =
        λ e. ground (arith, n, (is_validation_route-IsEndpoint h r.path).1 e) in
      record {
        refuses = rw n (λ e. absurd (passes-Answers h e), λ e. absurd (off e.0));
        keeps = inr (rw n refl);
        passes_on = inr (rw n refl);
      }
  | inl y ↦
      let on = (is_validation_route-IsEndpoint h r.path).0 y in
      elim (Bool-cases (is_local_only h.local_only && not (is_loopback r.remote))) [
        | inl strict ↦ record {
          refuses =
              rw (y, strict)
                (λ e. (on, not_admitted h.local_only (is_loopback r.remote) strict), λ e. refl);
          keeps = inr (rw (y, strict) refl);
          passes_on = inl on;
        }
        | inr open_to ↦
            let a = admitted h.local_only (is_loopback r.remote) open_to in
            record {
              refuses = rw (y, open_to) (λ e. absurd (dispatch-Answers h r e), λ e. absurd (e.1 a));
              keeps = inl a;
              passes_on = inl on;
            }
      ]
]

verdict-valid :
    (v : ValidationResult) (G : Type 0)
    → (v.valid ≡ true) ↔ G
    → ((some (verdict_code v) ≡ some 200) ↔ G) × ((some (verdict_code v) ≡ some 400) ↔ (¬ G))
verdict-valid v G e = elim (Bool-cases v.valid) [
  | inl y ↦
      rw y ((λ h. e.0 y, λ g. refl), (λ h. absurd (ground (arith, h)), λ n. absurd (n (e.0 y))))
  | inr n ↦ rw n (
    (λ h. absurd (ground (arith, h)), λ g. absurd (ground (arith, e.1 g, n))),
    (λ h g. ground (arith, e.1 g, n), λ h. refl),
  )
]

-- A decoded configuration on the validation path.
serve_http-decoded :
    (h : Handler) (r : Request) (c : GcsConfig)
    → r.path ≡ h.validation_path
    → is_loopback r.remote ≡ true
    → r.body ≡ decoded c
    → r.expired ≡ false
    → serve_http h r ≡ answer_with h (validate_decoded h c)
unfolding serve_http is_validation_route dispatch serve_validation
serve_http-decoded h r c at_path local body in_time =
    let e : text_eq r.path h.validation_path ≡ true = (eq_iff _ _).1 at_path in
    elim (Bool-cases (is_local_only h.local_only)) [
      | inl y ↦ rw (e, local, y, body, in_time) refl
      | inr n ↦ rw (e, local, n, body, in_time) refl
    ]

provision-valid :
    (info : BuildInfo) (p : Parsers) (h : Handler) (c : GcsConfig)
    → validate_decoded (provision info p h) c
      ≡ validate_gcs_config (new_config_validator p) (build_config_map c)
unfolding provision validate_gcs_config validate_config validate_entries validate_entry
    validate_field
provision-valid info p h c = refl

module _ (info : BuildInfo) (p : Parsers) (h : Handler) (r : Request) (c : GcsConfig) where
  -- A local client that posts a configuration to the validation path of a provisioned handler, in time, is
  -- answered 200 exactly when the configuration is one of a bucket, and 400 otherwise.
  pub serve_http-IsGcsConfig :
      r.path ≡ (provision info p h).validation_path
      → is_loopback r.remote ≡ true
      → r.body ≡ decoded c
      → r.expired ≡ false
      → ((code_of (serve_http (provision info p h) r).1 ≡ some 200) ↔ IsGcsConfig p c)
        × ((code_of (serve_http (provision info p h) r).1 ≡ some 400) ↔ (¬ IsGcsConfig p c))
  serve_http-IsGcsConfig at_path local body in_time =
      rw
        (
          serve_http-decoded (provision info p h) r c at_path local body in_time,
          provision-valid info p h c,
        )
        (verdict-valid (validate_gcs_config (new_config_validator p) (build_config_map c))
          (IsGcsConfig p c) (validate_gcs_config-IsGcsConfig p c))
