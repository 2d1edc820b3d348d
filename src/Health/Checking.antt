-- ===== src/Health/Checking.antt =====
-- pkg/observability/health/health.go: the verdict of `Check`, against the causes it may find.
use caddy_fs_gcs.Base.{
  ◌≡◌, refl, String, Bool, true, false, Option, none, some, List, [], ◌∷◌, if◌then◌else◌, lookup,
  Bool-cases, text_dec,
}
use caddy_fs_gcs.Health.{
  GcsHealthChecker, HealthConfig, HealthStatus, Service, Call, bucket_attrs, list_objects,
  test_permissions, Next, next_object, iterator_done, next_error, Permissions, granted,
  permissions_error, is_healthy, attrs_status, listing_status, permissions_status, all_passed,
  before, check, check_storage, check_connectivity, check_permissions,
}

-- Why the bucket is not healthy, if it is not: the causes in the order of `Check`, each behind the
-- switch that disables it.
abbrev attrs_cause : Option String → Option String
attrs_cause none = none
attrs_cause (some e) = some "connectivity"

abbrev listing_cause : Next → Option String
listing_cause (next_error e) = some "storage_access"
listing_cause next_object = none
listing_cause iterator_done = none

abbrev permissions_cause : Permissions → Option String
permissions_cause (permissions_error e) = some "permission_check"
permissions_cause (granted []) = some "insufficient_permissions"
permissions_cause (granted (p ∷ ps)) = none

abbrev or_else : Option String → Option String → Option String
or_else none later = later
or_else (some cause) later = some cause

abbrev enabled : Bool → Option String → Option String
enabled false cause = none
enabled true cause = cause

abbrev pub cause_of : GcsHealthChecker → Service → Option String
cause_of h svc =
    if h.client
    then or_else (enabled h.config.check_connectivity (attrs_cause svc.attrs_error)) (
        or_else (listing_cause svc.first)
          (enabled h.config.check_permissions (permissions_cause svc.permissions)))
    else some "no_client"

abbrev pub is_none : Option String → Bool
is_none none = true
is_none (some cause) = false

-- The calls that this takes: an enabled check makes its call, and the later ones follow if it has
-- no cause to fail.
abbrev sequence : Bool → Call → Option String → List Call → List Call
sequence false c cause later = later
sequence true c none later = c ∷ later
sequence true c (some cause) later = c ∷ []

abbrev pub calls_of : GcsHealthChecker → Service → List Call
calls_of h svc =
    if h.client
    then sequence h.config.check_connectivity bucket_attrs (attrs_cause svc.attrs_error) (
        sequence true list_objects (listing_cause svc.first) (
          sequence h.config.check_permissions test_permissions (permissions_cause svc.permissions)
            []))
    else []

module _ (h : GcsHealthChecker) where
  abbrev Verdict : List Call × HealthStatus → Option String → List Call → Type 0
  Verdict (calls, s) cause calls' =
      (is_healthy s ≡ is_none cause)
      × (lookup "error_type" s.details ≡ cause)
      × (lookup "bucket" s.details ≡ some h.bucket)
      × (calls ≡ calls')

  before-Verdict :
      (on : Bool) (call : Call) (cause : Option String) (p rest : List Call × HealthStatus)
      (cause' : Option String) (calls' : List Call)
      → Verdict p cause (call ∷ [])
      → Verdict rest cause' calls'
      → Verdict
          (before on p rest)
          (or_else (enabled on cause) cause')
          (sequence on call cause calls')
  before-Verdict false call cause (calls, s) rest cause' calls' v r = r
  before-Verdict true call none (calls, s) (more, s') cause' calls' (y, t, b, e) (y', t', b', e') =
      rw y (y', t', b', rw (e, e') refl)
  before-Verdict true call (some cause) (calls, s) (more, s') cause' calls' (y, t, b, e) r =
      rw y (y, t, b, e)

  attrs-Verdict :
      (m : Option String)
      → Verdict (bucket_attrs ∷ [], attrs_status h m) (attrs_cause m) (bucket_attrs ∷ [])
  unfolding lookup text_dec Bool-cases
  attrs-Verdict none = (refl, refl, refl, refl)
  attrs-Verdict (some e) = (refl, refl, refl, refl)

  listing-Verdict :
      (n : Next)
      → Verdict (list_objects ∷ [], listing_status h n) (listing_cause n) (list_objects ∷ [])
  unfolding lookup text_dec Bool-cases
  listing-Verdict next_object = (refl, refl, refl, refl)
  listing-Verdict iterator_done = (refl, refl, refl, refl)
  listing-Verdict (next_error e) = (refl, refl, refl, refl)

  permissions-Verdict :
      (p : Permissions)
      → Verdict
          (test_permissions ∷ [], permissions_status h p)
          (permissions_cause p)
          (test_permissions ∷ [])
  unfolding lookup text_dec Bool-cases
  permissions-Verdict (granted []) = (refl, refl, refl, refl)
  permissions-Verdict (granted (p ∷ ps)) = (refl, refl, refl, refl)
  permissions-Verdict (permissions_error e) = (refl, refl, refl, refl)

  passed-Verdict : (last_check : String) → Verdict ([], all_passed h last_check) none []
  unfolding lookup text_dec Bool-cases
  passed-Verdict last_check = (refl, refl, refl, refl)

check-Verdict :
    (client : Bool) (bucket : String) (config : HealthConfig) (svc : Service) (last_check : String)
    → let h : GcsHealthChecker = record { client = client; bucket = bucket; config = config } in
      Verdict h (check h svc last_check) (cause_of h svc) (calls_of h svc)
unfolding check check_storage check_connectivity check_permissions lookup text_dec Bool-cases
check-Verdict false bucket config svc last_check = (refl, refl, refl, refl)
check-Verdict true bucket config svc last_check =
    let h : GcsHealthChecker = record { client = true; bucket = bucket; config = config } in
    let last =
      before config.check_permissions (check_permissions h svc) ([], all_passed h last_check) in
    let cause = enabled config.check_permissions (permissions_cause svc.permissions) in
    let calls =
      sequence config.check_permissions test_permissions (permissions_cause svc.permissions) [] in
    before-Verdict h config.check_connectivity bucket_attrs (attrs_cause svc.attrs_error)
      (check_connectivity h svc) (before true (check_storage h svc) last)
      (or_else (listing_cause svc.first) cause)
      (sequence true list_objects (listing_cause svc.first) calls) (attrs-Verdict h svc.attrs_error)
      (before-Verdict h true list_objects (listing_cause svc.first) (check_storage h svc) last cause
        calls (listing-Verdict h svc.first)
        (rw (or_else-none (enabled config.check_permissions (permissions_cause svc.permissions))) at
          (before-Verdict h config.check_permissions test_permissions
            (permissions_cause svc.permissions) (check_permissions h svc)
            ([], all_passed h last_check) none [] (permissions-Verdict h svc.permissions)
            (passed-Verdict h last_check))))
  where
    or_else-none : (m : Option String) → or_else m none ≡ m
    or_else-none none = refl
    or_else-none (some cause) = refl

-- `Check` is healthy exactly when no enabled check has a cause to fail; otherwise `error_type` is the
-- first cause in the order connectivity, storage, permissions (or `no_client`); the status always
-- names the bucket; and the calls made are the enabled ones up to the first that fails.
pub check-cause_of :
    (h : GcsHealthChecker) (svc : Service) (last_check : String)
    → (is_healthy (check h svc last_check).1 ≡ is_none (cause_of h svc))
      × (lookup "error_type" (check h svc last_check).1.details ≡ cause_of h svc)
      × (lookup "bucket" (check h svc last_check).1.details ≡ some h.bucket)
      × ((check h svc last_check).0 ≡ calls_of h svc)
check-cause_of h svc last_check = check-Verdict h.client h.bucket h.config svc last_check
