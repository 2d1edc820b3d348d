-- ===== src/Endpoint/Branches.antt =====
-- pkg/observability/health/health_endpoint.go: the outcomes of `ServeHTTP`, branch by branch.
use Prim.Native.String
use text.Mathlib.Text.{◌==◌ as text_eq}
use caddy_fs_gcs.Base.{
  ℕ, ◌≡◌, ◌⊎◌, refl, String, Bool, true, false, ◌&&◌, Option, none, some, if◌then◌else◌, Bool-cases,
  inl, inr,
}
use caddy_fs_gcs.Health.{HealthStatus, CompositeHealthChecker}
use caddy_fs_gcs.Health.Combining.{
  composite_check-Tells, composite_check_storage-Tells, first_failing, Tells,
}
use caddy_fs_gcs.Endpoint.{Handler, Request, Outcome, responds, passes}
use caddy_fs_gcs.Endpoint.Serving.{
  composite_status, composite_storage, storage_healthy, ready_status, readiness_status,
  startup_status, is_detailed_allowed, write_health_response, serve_health, serve_readiness,
  serve_liveness, serve_startup, try_complete_startup, after_startup, respond_to_startup,
  serve_detailed_health, serve_health_metrics, serve_gated, liveness_status, serve_http,
}

abbrev pub IsStatus : HealthStatus → Type 0
IsStatus s = (s.status ≡ "healthy") ⊎ (s.status ≡ "unhealthy")

module _ {C : Type 0} where
  Tells-IsStatus :
      (failure success : String) (m : Option (ℕ × HealthStatus)) (s : HealthStatus)
      (answer : C → HealthStatus)
      → Tells answer failure success m s
      → IsStatus s
  Tells-IsStatus failure success none s answer t = inl t.0
  Tells-IsStatus failure success (some (i, sub)) s answer t = inr t.0

  composite_status-IsStatus :
      (r : Request C) (m : Option (CompositeHealthChecker C)) → IsStatus (composite_status r m)
  composite_status-IsStatus r none = inl refl
  composite_status-IsStatus r (some c) =
      Tells-IsStatus _ _ (first_failing r.check 0 c.checkers) _ r.check
        (composite_check-Tells r.check c.checkers)

  ready_status-IsStatus :
      (r : Request C) (m : Option (CompositeHealthChecker C))
      → IsStatus (ready_status r (composite_storage r m))
  ready_status-IsStatus r none = inl refl
  ready_status-IsStatus r (some c) =
      Tells-IsStatus _ _ (first_failing r.check_storage 0 c.checkers) _ r.check_storage
        (composite_check_storage-Tells r.check_storage c.checkers)

  readiness_status-IsStatus : (h : Handler C) (r : Request C) → IsStatus (readiness_status h r)
  unfolding readiness_status
  readiness_status-IsStatus h r = elim (Bool-cases h.startup_complete) [
    | inl complete ↦ rw complete (ready_status-IsStatus r h.composite)
    | inr starting ↦ rw starting (inr refl)
  ]

  startup_status-IsStatus : (r : Request C) (b : Bool) → IsStatus (startup_status r b)
  startup_status-IsStatus r true = inl refl
  startup_status-IsStatus r false = inr refl

  module _ {ℓ} (h : Handler C) (r : Request C) (P : Outcome → Type ℓ) where
    abbrev pub Writes : Type ℓ
    Writes =
        (k : Handler C) (s : HealthStatus)
        → k.custom_labels ≡ h.custom_labels
        → IsStatus s
        → P (responds (write_health_response k r s))

    startup_outcome : Writes → P (respond_to_startup (serve_startup h r)).1
    unfolding serve_startup try_complete_startup
    startup_outcome written =
        from h.startup_complete (storage_healthy (composite_storage r h.composite))
      where
        from :
            (complete healthy : Bool)
            → P
                (respond_to_startup (
                  after_startup r (
                    if complete
                    then (h, true)
                    else (if healthy
                        then (record h { startup_complete = true }, true)
                        else (h, false))))).1
        from true healthy = written h (startup_status r true) refl (startup_status-IsStatus r true)
        from false true =
            written (record h { startup_complete = true }) (startup_status r true) refl
              (startup_status-IsStatus r true)
        from false false = written h (startup_status r false) refl (startup_status-IsStatus r false)

    gated :
        (enabled allowed : Bool) (o : Outcome)
        → (allowed ≡ true → P o)
        → P passes
        → P (if enabled && allowed then o else passes)
    gated true true o p q = p refl
    gated true false o p q = q
    gated false allowed o p q = q

    gated_outcome :
        (is_detailed_allowed h r ≡ true → P (responds (serve_detailed_health h r)))
        → (is_detailed_allowed h r ≡ true → P (responds (serve_health_metrics h r)))
        → P passes
        → P (serve_gated h r)
    unfolding serve_gated
    gated_outcome detailed_one metrics_one passed =
        elim (Bool-cases (text_eq r.path (String.◌++◌ h.health_path "/detailed"))) [
          | inl t ↦ rw t (
              gated h.enable_detailed (is_detailed_allowed h r)
                (responds (serve_detailed_health h r)) detailed_one passed)
          | inr f ↦
              rw f (elim (Bool-cases (text_eq r.path (String.◌++◌ h.health_path "/metrics"))) [
                | inl t ↦ rw t (
                    gated h.enable_metrics (is_detailed_allowed h r)
                      (responds (serve_health_metrics h r)) metrics_one passed)
                | inr f' ↦ rw f' passed
              ])
        ]

    -- What holds of each kind of outcome holds of the outcome of `ServeHTTP`.
    pub serve_http-outcome :
        Writes
        → (is_detailed_allowed h r ≡ true → P (responds (serve_detailed_health h r)))
        → (is_detailed_allowed h r ≡ true → P (responds (serve_health_metrics h r)))
        → P passes
        → P (serve_http h r).1
    unfolding serve_http serve_health serve_readiness serve_liveness
    serve_http-outcome written detailed_one metrics_one passed =
        elim (Bool-cases (text_eq r.path h.health_path)) [
          | inl t₁ ↦ rw t₁ (
              written h (composite_status r h.composite) refl
                (composite_status-IsStatus r h.composite))
          | inr f₁ ↦ rw f₁ (elim (Bool-cases (text_eq r.path h.readiness_path)) [
            | inl t₂ ↦ rw t₂ (written h (readiness_status h r) refl (readiness_status-IsStatus h r))
            | inr f₂ ↦ rw f₂ (elim (Bool-cases (text_eq r.path h.liveness_path)) [
              | inl t₃ ↦ rw t₃ (written h (liveness_status r) refl (inl refl))
              | inr f₃ ↦ rw f₃ (elim (Bool-cases (text_eq r.path h.startup_path)) [
                | inl t₄ ↦ rw t₄ (startup_outcome written)
                | inr f₄ ↦ rw f₄ (gated_outcome detailed_one metrics_one passed)
              ])
            ])
          ])
        ]
