-- ===== src/ValidationEndpoint/Remembering.antt =====
-- pkg/validation/validation_endpoint.go: what the status endpoint knows of the validations before it.
use text.Mathlib.Text.{◌==◌ as text_eq}
use caddy_fs_gcs.Base.{
  ◌≡◌, refl, ap, if_both, ◌∙◌, Bool, true, false, not, ◌&&◌, Option, some, List, [], ◌∷◌,
}
use caddy_fs_gcs.Net.{is_loopback}
use caddy_fs_gcs.Validation.{ValidationResult}
use caddy_fs_gcs.ValidationEndpoint.{
  Handler, Request, plain_text, result, dry_run, status, Outcome, responds, passes,
}
use caddy_fs_gcs.ValidationEndpoint.Serving.{
  serve_http, dispatch, serve_validation, serve_live_validation, serve_dry_run_validation,
  serve_validation_status, Decoding, absent, present, invalid_json, decode, decode_json,
  after_decoding, dry_run_after, below, is_validation_route, is_local_only, http_error,
}

-- What a client has been told: the result in a response, if it is one of a validation that was not a dry run.
abbrev pub told : Option ValidationResult → Outcome → Option ValidationResult
told before (responds response) = elim response.body [
  | plain_text s ↦ before
  | result r ↦ some r
  | dry_run r ↦ before
  | status s ↦ before
]
told before passes = before

-- The handler after some requests, with what was answered.
unfoldable pub serve_all : Handler → List Request → Handler × List Outcome
serve_all h [] = (h, [])
serve_all h (r ∷ rs) =
    let (h', outcome) = serve_http h r in
    let (h'', outcomes) = serve_all h' rs in (h'', outcome ∷ outcomes)

unfoldable pub last_told : Option ValidationResult → List Outcome → Option ValidationResult
last_told before [] = before
last_told before (outcome ∷ outcomes) = last_told (told before outcome) outcomes

-- A handler that differs at most in the result it remembers, which is the one that was told last.
record Remembers (h : Handler) (x : Handler × Outcome) : Type 0 where
  same : x.0 ≡ record h { last_validation = told h.last_validation x.1 }

refl-Remembers :
    (h : Handler) (outcome : Outcome)
    → Remembers h (record h { last_validation = told h.last_validation outcome }, outcome)
refl-Remembers h outcome = record { same = refl }

after_decoding-Remembers :
    (h : Handler) (expired : Bool) (d : Decoding) → Remembers h (after_decoding h expired d)
after_decoding-Remembers h expired invalid_json = refl-Remembers h _
after_decoding-Remembers h true absent = refl-Remembers h _
after_decoding-Remembers h false absent = refl-Remembers h _
after_decoding-Remembers h true (present c) = refl-Remembers h _
after_decoding-Remembers h false (present c) = refl-Remembers h _

dry_run_after-Remembers :
    (h : Handler) (expired : Bool) (d : Decoding) → Remembers h (dry_run_after h expired d)
dry_run_after-Remembers h expired invalid_json = refl-Remembers h _
dry_run_after-Remembers h expired absent = refl-Remembers h _
dry_run_after-Remembers h true (present c) = refl-Remembers h _
dry_run_after-Remembers h false (present c) = refl-Remembers h _

dispatch-Remembers : (h : Handler) (r : Request) → Remembers h (dispatch h r)
unfolding dispatch serve_validation serve_live_validation serve_dry_run_validation
    serve_validation_status
dispatch-Remembers h r =
    let pass = refl-Remembers h passes in
    let is = text_eq r.path in
    if_both (Remembers h) (is h.validation_path) _ _
      (after_decoding-Remembers h r.expired (decode r.body))
      (if_both (Remembers h) (is (below h "/live")) _ _
        (if_both (Remembers h) h.enable_live _ _
          (after_decoding-Remembers h r.expired (decode_json r.body)) pass)
        (if_both (Remembers h) (is (below h "/dry-run")) _ _
          (if_both (Remembers h) h.enable_dry_run _ _
            (dry_run_after-Remembers h r.expired (decode_json r.body)) pass)
          (if_both (Remembers h) (is (below h "/status")) _ _
            (refl-Remembers h (serve_validation_status h)) pass)))

serve_http-Remembers : (h : Handler) (r : Request) → Remembers h (serve_http h r)
unfolding serve_http
serve_http-Remembers h r =
    if_both (Remembers h) (not (is_validation_route h r.path)) _ _ (refl-Remembers h passes) (
      if_both (Remembers h) (is_local_only h.local_only && not (is_loopback r.remote)) _ _
        (refl-Remembers h (http_error 403 "Forbidden")) (dispatch-Remembers h r))

-- Whatever requests a handler has served, it has kept its configuration, and it remembers the result that
-- the last response of the validation or the live endpoint told; dry runs, errors, refused requests and
-- requests of the status change nothing.
pub serve_all-last_told :
    (h : Handler) (rs : List Request)
    → (serve_all h rs).0
      ≡ record h { last_validation = last_told h.last_validation (serve_all h rs).1 }
unfolding serve_all last_told
serve_all-last_told h [] = refl
serve_all-last_told h (r ∷ rs) =
    let outcomes = (serve_all (serve_http h r).0 rs).1 in
    serve_all-last_told (serve_http h r).0 rs
    ∙ ap {A = Handler} {B = Handler}
        (λ k. record k { last_validation = last_told k.last_validation outcomes })
        (serve_http-Remembers h r).same
