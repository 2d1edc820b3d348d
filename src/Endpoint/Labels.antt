-- ===== src/Endpoint/Labels.antt =====
-- pkg/observability/health/health_endpoint.go: the labels that `Provision` accepts as headers.
use Prim.Native.String
use text.Mathlib.TextLemmas.{nil-append, cons-append}
use caddy_fs_gcs.Base.{
  ◌≡◌, refl, ap, ◌∙◌, String, Bool, true, false, ◌&&◌, List, [], ◌∷◌, ◌++◌, arith, Bool-cases, inl,
  inr, Dict,
}
use caddy_fs_gcs.Health.{HealthStatus}
use caddy_fs_gcs.Endpoint.{
  Handler, BuildInfo, Request, Outcome, responds, passes, validate_header_value, labels_valid,
  with_defaults, provision,
}
use caddy_fs_gcs.Endpoint.Serving.{
  label_headers, write_health_response, serve_http, serve_detailed_health, serve_health_metrics,
}
use caddy_fs_gcs.Endpoint.Branches.{IsStatus, serve_http-outcome}
use caddy_fs_gcs.Endpoint.Startup.{serve_all, serve_all-labels}

-- No name and no value of a header has a CR, an LF or a NUL.
abbrev pub outcome_safe : Outcome → Bool
outcome_safe (responds response) = labels_valid response.headers
outcome_safe passes = true

validate_header_value-append :
    (s t : String)
    → validate_header_value (String.◌++◌ s t) ≡ (validate_header_value s && validate_header_value t)
unfolding validate_header_value
validate_header_value-append String.[] t = rw nil-append refl
validate_header_value-append (String.◌∷◌ c s) t =
    rw (cons-append, validate_header_value-append s t) (ground arith)

labels_valid-append :
    (xs ys : Dict String) → labels_valid (xs ++ ys) ≡ (labels_valid xs && labels_valid ys)
unfolding labels_valid
labels_valid-append [] ys = refl
labels_valid-append ((k, v) ∷ xs) ys = rw (labels_valid-append xs ys) (ground arith)

label_headers-valid :
    (labels : Dict String) → labels_valid (label_headers labels) ≡ labels_valid labels
unfolding labels_valid label_headers validate_header_value
label_headers-valid [] = refl
label_headers-valid ((k, v) ∷ labels) =
    rw (label_headers-valid labels, validate_header_value-append "X-Health-" k) refl

status_valid : (s : HealthStatus) → IsStatus s → validate_header_value s.status ≡ true
unfolding validate_header_value
status_valid s (inl e) = ap validate_header_value e
status_valid s (inr e) = ap validate_header_value e

module _ {C : Type 0} where
  write-safe :
      (k : Handler C) (r : Request C) (s : HealthStatus)
      → labels_valid k.custom_labels ≡ true
      → IsStatus s
      → outcome_safe (responds (write_health_response k r s)) ≡ true
  unfolding write_health_response labels_valid validate_header_value
  write-safe k r s valid e =
      rw (labels_valid-append, label_headers-valid k.custom_labels, valid, status_valid s e) refl

  provision-valid :
      (info : BuildInfo) (h : Handler C)
      → (provision info h).1 ≡ true
      → labels_valid (provision info h).0.custom_labels ≡ true
  unfolding provision
  provision-valid info h accepted =
      elim (Bool-cases (labels_valid (with_defaults info h).custom_labels)) [
        | inl valid ↦ rw (valid, valid) refl
        | inr invalid ↦ absurd (false≢true (rw invalid at accepted))
      ]
    where
      false≢true : false ≡ true → ⊥
      false≢true e = cc

  -- If `Provision` returns no error, then after any requests, whatever the checkers answered, the
  -- headers of the response to a request have no CR, LF or NUL in a name or a value: no label can
  -- inject a header.
  pub provision-safe :
      (info : BuildInfo) (h : Handler C) (rs : List (Request C)) (r : Request C)
      → (provision info h).1 ≡ true
      → outcome_safe (serve_http (serve_all (provision info h).0 rs).0 r).1 ≡ true
  unfolding serve_detailed_health serve_health_metrics labels_valid validate_header_value
  provision-safe info h rs r accepted =
      let k = (serve_all (provision info h).0 rs).0 in
      let valid : labels_valid k.custom_labels ≡ true =
        ap labels_valid (serve_all-labels rs (provision info h).0)
        ∙ provision-valid info h accepted in
      serve_http-outcome k r (λ o. outcome_safe o ≡ true)
        (λ j s same status. write-safe j r s (ap labels_valid same ∙ valid) status) (λ _. refl)
        (λ _. refl) refl
