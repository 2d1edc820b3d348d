-- ===== src/Endpoint/Exposure.antt =====
-- pkg/observability/health/health_endpoint.go: what a client that is not on the loopback interface may
-- learn.
use text.Mathlib.Text.{◌==◌ as text_eq}
use caddy_fs_gcs.Base.{
  ◌≡◌, ◌≢◌, refl, Bool, true, false, not, ◌||◌, Option, none, some, arith, Bool-cases, inl, inr,
}
use caddy_fs_gcs.Net.{is_loopback}
use caddy_fs_gcs.Health.{HealthStatus}
use caddy_fs_gcs.Endpoint.{
  Handler, Request, Body, health, detailed, metrics, Outcome, responds, passes,
}
use caddy_fs_gcs.Endpoint.Serving.{is_detailed_allowed, write_health_response, serve_http}
use caddy_fs_gcs.Endpoint.Branches.{serve_http-outcome}

-- Whether a body shows the text of an error, or is one of the two detailed ones.
abbrev body_discloses : Body → Bool
body_discloses (health s) =
    not (text_eq s.error "" || text_eq s.error "internal error (details redacted)")
body_discloses (detailed labels storage complete) = true
body_discloses (metrics storage complete) = true

abbrev pub discloses : Outcome → Bool
discloses (responds response) = body_discloses response.body
discloses passes = false

module _ {C : Type 0} (h : Handler C) (r : Request C) (remote : is_loopback r.remote ≡ false) where
  write-hides :
      (k : Handler C) (s : HealthStatus)
      → discloses (responds (write_health_response k r s)) ≡ false
  unfolding write_health_response
  write-hides k s = elim (Bool-cases (text_eq s.error "")) [
    | inl without ↦ rw (without, without) refl
    | inr there ↦ rw (there, remote) refl
  ]

  not_allowed : h.detailed_local_only ≢ some false → is_detailed_allowed h r ≡ false
  unfolding is_detailed_allowed
  not_allowed ne = only_cases h.detailed_local_only ne
    where
      only_cases :
          (m : Option Bool)
          → m ≢ some false
          → (elim m [ none ↦ is_loopback r.remote | some only ↦ not only || is_loopback r.remote ])
            ≡ false
      only_cases none n = remote
      only_cases (some true) n = remote
      only_cases (some false) n = absurd (n refl)

  -- To a client that is not on the loopback interface, unless `detailed_local_only` is set to false,
  -- no response shows the text of an error or is one of the two detailed bodies.
  pub serve_http-hides : h.detailed_local_only ≢ some false → discloses (serve_http h r).1 ≡ false
  serve_http-hides ne =
      serve_http-outcome h r (λ o. discloses o ≡ false) (λ k s _ _. write-hides k s)
        (λ allowed. absurd (ground (arith, not_allowed ne)))
        (λ allowed. absurd (ground (arith, not_allowed ne))) refl
