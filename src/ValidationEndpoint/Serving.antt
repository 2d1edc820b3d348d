-- ===== src/ValidationEndpoint/Serving.antt =====
-- pkg/validation/validation_endpoint.go: `ServeHTTP` and the endpoints.
use Prim.Native.String
use text.Mathlib.Text.{◌==◌ as text_eq}
use caddy_fs_gcs.Base.{
  ℕ, String, Bool, true, not, ◌&&◌, ◌||◌, Option, none, some, List, [], ◌∷◌, pos, length,
  if◌then◌else◌, Dict,
}
use caddy_fs_gcs.Net.{is_loopback}
use caddy_fs_gcs.Validation.{ValidationResult, GcsConfig}
use caddy_fs_gcs.Validation.Tables.{validate_gcs_config, build_config_map}
use caddy_fs_gcs.ValidationEndpoint.{
  Handler, Request, RequestBody, no_body, empty_body, malformed, decoded, plain_text, result,
  dry_run, status, Outcome, responds, passes,
}

unfoldable pub label_headers : Dict String → List (String × String)
label_headers [] = []
label_headers ((key, value) ∷ labels) =
    (String.◌++◌ "X-Validation-" key, value) ∷ label_headers labels

abbrev pub json_headers : Handler → List (String × String)
json_headers h =
    ("Content-Type", "application/json")
    ∷ ("Cache-Control", "no-cache, no-store, must-revalidate")
    ∷ label_headers h.custom_labels

-- `http.Error`
abbrev pub http_error : ℕ → String → Outcome
http_error code message = responds (record { code = code; headers = []; body = plain_text message })

abbrev pub verdict_code : ValidationResult → ℕ
verdict_code r = if r.valid then 200 else 400

-- What the decoding of a body came to: nothing to validate, a configuration, or an error.
pub data Decoding : Type 0 where
  absent : Decoding
  present : GcsConfig → Decoding
  invalid_json : Decoding

abbrev pub decode : RequestBody → Decoding
decode no_body = absent
decode empty_body = absent
decode malformed = invalid_json
decode (decoded c) = present c

abbrev pub zero_config : GcsConfig
zero_config = record {
  project_id = "";
  bucket_name = "";
  credentials_file = "";
  credentials_config = "";
  max_connections = pos 0;
  connection_timeout = "";
}

-- The decoding of the endpoints that use `decodeJSON`: an empty body is an error, no body is the zero
-- value of the configuration; the answer is never `absent`.
abbrev pub decode_json : RequestBody → Decoding
decode_json no_body = present zero_config
decode_json empty_body = invalid_json
decode_json malformed = invalid_json
decode_json (decoded c) = present c

abbrev pub validate_decoded : Handler → GcsConfig → ValidationResult
validate_decoded h c = validate_gcs_config h.validator (build_config_map c)

-- The end of an endpoint that remembers its result.
abbrev pub answer_with : Handler → ValidationResult → Handler × Outcome
answer_with h r = (
  record h { last_validation = some r },
  responds (record { code = verdict_code r; headers = json_headers h; body = result r }),
)

abbrev request_timeout : Handler → Handler × Outcome
request_timeout h = (h, http_error 408 "Request timeout")

abbrev bad_request : Handler → Handler × Outcome
bad_request h = (h, http_error 400 "Invalid JSON configuration")

abbrev pub after_decoding : Handler → Bool → Decoding → Handler × Outcome
after_decoding h expired invalid_json = bad_request h
after_decoding h expired absent =
    if expired then request_timeout h else answer_with h (record { valid = true; errors = [] })
after_decoding h expired (present c) =
    if expired then request_timeout h else answer_with h (validate_decoded h c)

unfoldable pub serve_validation : Handler → Request → Handler × Outcome
serve_validation h r = after_decoding h r.expired (decode r.body)

unfoldable pub serve_live_validation : Handler → Request → Handler × Outcome
serve_live_validation h r = after_decoding h r.expired (decode_json r.body)

abbrev dry_run_answer : Handler → ValidationResult → Outcome
dry_run_answer h r =
    responds (record { code = verdict_code r; headers = json_headers h; body = dry_run r })

abbrev pub dry_run_after : Handler → Bool → Decoding → Handler × Outcome
dry_run_after h expired invalid_json = bad_request h
dry_run_after h expired absent = bad_request h
dry_run_after h expired (present c) =
    if expired then request_timeout h else (h, dry_run_answer h (validate_decoded h c))

unfoldable pub serve_dry_run_validation : Handler → Request → Handler × Outcome
serve_dry_run_validation h r = dry_run_after h r.expired (decode_json r.body)

abbrev pub summary : Option ValidationResult → Option (Bool × ℕ)
summary none = none
summary (some r) = some (r.valid, length r.errors)

unfoldable pub serve_validation_status : Handler → Outcome
serve_validation_status h = responds (record {
  code = 200;
  headers = ("Content-Type", "application/json") ∷ [];
  body = status (record {
    strict_mode = h.validator.strict_mode;
    validate_on_load = h.validator.validate_on_load;
    custom_rules = length h.validator.custom_rules;
    validation = h.validation_path;
    live = h.enable_live;
    dry_run = h.enable_dry_run;
    custom_labels = h.custom_labels;
    last_validation = summary h.last_validation;
  });
})

abbrev pub below : Handler → String → String
below h name = String.◌++◌ h.validation_path name

unfoldable pub is_validation_route : Handler → String → Bool
is_validation_route h path =
    text_eq path h.validation_path
    || text_eq path (below h "/live")
    || text_eq path (below h "/dry-run")
    || text_eq path (below h "/status")

-- `v.LocalOnly == nil || *v.LocalOnly`
abbrev pub is_local_only : Option Bool → Bool
is_local_only none = true
is_local_only (some only) = only

-- The switch of `ServeHTTP`.
unfoldable pub dispatch : Handler → Request → Handler × Outcome
dispatch h r =
    if text_eq r.path h.validation_path
    then serve_validation h r
    else if text_eq r.path (below h "/live")
    then (if h.enable_live then serve_live_validation h r else (h, passes))
    else if text_eq r.path (below h "/dry-run")
    then (if h.enable_dry_run then serve_dry_run_validation h r else (h, passes))
    else if text_eq r.path (below h "/status")
    then (h, serve_validation_status h)
    else (h, passes)

-- `ServeHTTP`; `passes` calls the next handler.
unfoldable pub serve_http : Handler → Request → Handler × Outcome
serve_http h r =
    if not (is_validation_route h r.path)
    then (h, passes)
    else if is_local_only h.local_only && not (is_loopback r.remote)
    then (h, http_error 403 "Forbidden")
    else dispatch h r
