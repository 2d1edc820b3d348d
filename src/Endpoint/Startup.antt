-- ===== src/Endpoint/Startup.antt =====
-- pkg/observability/health/health_endpoint.go: the startup state over a sequence of requests.
use text.Mathlib.Text.{◌==◌ as text_eq}
use caddy_fs_gcs.Base.{
  ◌≡◌, refl, sym, ap, ◌∙◌, Bool, true, false, not, ◌&&◌, ◌||◌, Option, none, some, List, [], ◌∷◌,
  arith, if◌then◌else◌, Bool-cases, inl, inr,
}
use caddy_fs_gcs.Health.{HealthStatus, is_healthy}
use caddy_fs_gcs.Endpoint.{Handler, Request, Outcome}
use caddy_fs_gcs.Endpoint.Serving.{
  status_code, composite_storage, ready_status, readiness_status, storage_healthy,
  write_health_response, serve_readiness, serve_startup, try_complete_startup, after_startup,
  respond_to_startup, serve_http,
}

module _ {C : Type 0} where
  -- Requests, one after the other.
  unfoldable pub serve_all : Handler C → List (Request C) → Handler C × List Outcome
  serve_all h [] = (h, [])
  serve_all h (r ∷ rs) =
      let (h', o) = serve_http h r in let (h'', os) = serve_all h' rs in (h'', o ∷ os)

  -- Whether a request is a startup probe that finds the storage healthy.
  unfoldable pub probes : Handler C → Request C → Bool
  probes h r =
      not (text_eq r.path h.health_path)
      && (not (text_eq r.path h.readiness_path)
          && (not (text_eq r.path h.liveness_path)
              && (text_eq r.path h.startup_path
                  && storage_healthy (composite_storage r h.composite))))

  unfoldable pub any_probes : Handler C → List (Request C) → Bool
  any_probes h [] = false
  any_probes h (r ∷ rs) = probes h r || any_probes h rs

  abbrev with_startup : Handler C → Bool → Handler C
  with_startup h b = record h { startup_complete = b }

  startup_handler :
      (h : Handler C) (r : Request C)
      → (respond_to_startup (serve_startup h r)).0
        ≡ with_startup h (h.startup_complete || storage_healthy (composite_storage r h.composite))
  unfolding serve_startup try_complete_startup
  startup_handler h r =
      from h.startup_complete (storage_healthy (composite_storage r h.composite)) refl
    where
      from :
          (complete healthy : Bool)
          → h.startup_complete ≡ complete
          → (respond_to_startup (
              after_startup r (
                if complete
                then (h, true)
                else (if healthy
                    then (record h { startup_complete = true }, true)
                    else (h, false))))).0
            ≡ with_startup h (complete || healthy)
      from true healthy e = ap (with_startup h) e
      from false true e = refl
      from false false e = ap (with_startup h) e

  unchanged : (h : Handler C) → h ≡ with_startup h (h.startup_complete || false)
  unchanged h = ap (with_startup h) (sym (or_false h.startup_complete))
    where
      or_false : (b : Bool) → (b || false) ≡ b
      or_false true = refl
      or_false false = refl

  -- `ServeHTTP` changes nothing but the startup state, which a startup probe completes.
  serve_http-handler :
      (h : Handler C) (r : Request C)
      → (serve_http h r).0 ≡ with_startup h (h.startup_complete || probes h r)
  unfolding serve_http probes
  serve_http-handler h r = elim (Bool-cases (text_eq r.path h.health_path)) [
    | inl t₁ ↦ rw t₁ (unchanged h)
    | inr f₁ ↦ rw f₁ (elim (Bool-cases (text_eq r.path h.readiness_path)) [
      | inl t₂ ↦ rw t₂ (unchanged h)
      | inr f₂ ↦ rw f₂ (elim (Bool-cases (text_eq r.path h.liveness_path)) [
        | inl t₃ ↦ rw t₃ (unchanged h)
        | inr f₃ ↦ rw f₃ (elim (Bool-cases (text_eq r.path h.startup_path)) [
          | inl t₄ ↦ rw t₄ (startup_handler h r)
          | inr f₄ ↦ rw f₄ (unchanged h)
        ])
      ])
    ])
  ]

  any_probes-with_startup :
      (h : Handler C) (b : Bool) (rs : List (Request C))
      → any_probes (with_startup h b) rs ≡ any_probes h rs
  unfolding any_probes probes
  any_probes-with_startup h b [] = refl
  any_probes-with_startup h b (r ∷ rs) = rw (any_probes-with_startup h b rs) refl

  serve_all-handler :
      (rs : List (Request C)) (h : Handler C)
      → (serve_all h rs).0 ≡ with_startup h (h.startup_complete || any_probes h rs)
  unfolding serve_all any_probes
  serve_all-handler [] h = unchanged h
  serve_all-handler (r ∷ rs) h = rw serve_http-handler (
      serve_all-handler rs (with_startup h (h.startup_complete || probes h r))
      ∙ ap (with_startup h)
          (ground (arith, any_probes-with_startup h (h.startup_complete || probes h r) rs)))

  ready-healthy :
      (r : Request C) (m : Option HealthStatus) → is_healthy (ready_status r m) ≡ storage_healthy m
  ready-healthy r none = refl
  ready-healthy r (some s) = refl

  readiness_code :
      (h : Handler C) (r : Request C) (b : Bool)
      → (serve_readiness (with_startup h b) r).code
        ≡ status_code (b && storage_healthy (composite_storage r h.composite))
  unfolding serve_readiness write_health_response readiness_status
  readiness_code h r true = ap status_code (ready-healthy r (composite_storage r h.composite))
  readiness_code h r false = refl

  -- After any requests the startup is complete exactly if it was before them or one of them was a
  -- startup probe that found the storage healthy; and the code of the readiness endpoint is then 200
  -- if it is complete and the storage is healthy at that request, and 503 otherwise.
  pub serve_all-readiness :
      (rs : List (Request C)) (h : Handler C) (r : Request C)
      → ((serve_all h rs).0.startup_complete ≡ (h.startup_complete || any_probes h rs))
        × ((serve_readiness (serve_all h rs).0 r).code
            ≡ status_code (
                (h.startup_complete || any_probes h rs)
                && storage_healthy (composite_storage r h.composite)))
  serve_all-readiness rs h r = (
    ap (λ k. k.startup_complete) (serve_all-handler rs h),
    ap (λ k. (serve_readiness k r).code) (serve_all-handler rs h)
        ∙ readiness_code h r (h.startup_complete || any_probes h rs),
  )

  pub serve_all-labels :
      (rs : List (Request C)) (h : Handler C) → (serve_all h rs).0.custom_labels ≡ h.custom_labels
  serve_all-labels rs h = ap (λ k. k.custom_labels) (serve_all-handler rs h)
