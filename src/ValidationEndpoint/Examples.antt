-- ===== src/ValidationEndpoint/Examples.antt =====
-- pkg/validation/validation_endpoint.go: runs of the handler.
use caddy_fs_gcs.Base.{
  ◌≡◌, refl, ◌↔◌, String, Bool, true, false, none, some, List, [], ◌∷◌, length, lookup, text_dec,
  Bool-cases,
}
use caddy_fs_gcs.Net.Clients.{client_if, client_if-is_loopback}
use caddy_fs_gcs.Dispenser.{read_line}
use caddy_fs_gcs.Dispenser.Running.{Runs, read_line-Runs}
use caddy_fs_gcs.Endpoint.{BuildInfo}
use caddy_fs_gcs.Validation.{new_config_validator}
use caddy_fs_gcs.Validation.Examples.{parsers, bucket_config}
use caddy_fs_gcs.Validation.Settings.{IsGcsConfig}
use caddy_fs_gcs.ValidationEndpoint.{
  Handler, Request, RequestBody, no_body, malformed, decoded, provision, unmarshaler,
  unmarshal_caddyfile,
}
use caddy_fs_gcs.ValidationEndpoint.Serving.{serve_http}
use caddy_fs_gcs.ValidationEndpoint.Access.{
  code_of, serve_http-Guarded, Guarded, serve_http-IsGcsConfig,
}
use caddy_fs_gcs.ValidationEndpoint.Remembering.{serve_all, last_told, serve_all-last_told}
use caddy_fs_gcs.ValidationEndpoint.Parsing.{
  unmarshaler-Shrinks, written, blank, unmarshal_caddyfile-written,
}

abbrev build : BuildInfo
build = record { service_name = "caddy-fs-gcs"; version = "dev" }

abbrev configured : Handler
configured = record {
  validation_path = "/validate";
  enable_live = true;
  enable_dry_run = true;
  strict_mode = false;
  validate_on_load = true;
  custom_labels = ("region", "eu") ∷ ("zone", "b") ∷ [];
  local_only = some true;
  validator = new_config_validator parsers;
  last_validation = none;
}

abbrev request : String → Bool → RequestBody → Request
request path local body = record {
  path = path;
  remote = client_if local;
  body = body;
  expired = false;
}

abbrev posted : Request
posted = request "/validate" true (decoded bucket_config)

abbrev requests : List Request
requests =
    posted
    ∷ request "/validate/dry-run" true no_body
    ∷ request "/validate/live" true malformed
    ∷ request "/validate/status" true no_body
    ∷ []

serve_http-Guarded_example : Guarded configured (request "/validate/live" false no_body)
serve_http-Guarded_example = serve_http-Guarded configured (request "/validate/live" false no_body)

serve_http-IsGcsConfig_example :
    ((code_of (serve_http (provision build parsers configured) posted).1 ≡ some 200)
      ↔ IsGcsConfig parsers bucket_config)
    × ((code_of (serve_http (provision build parsers configured) posted).1 ≡ some 400)
        ↔ (¬ IsGcsConfig parsers bucket_config))
unfolding provision
serve_http-IsGcsConfig_example =
    serve_http-IsGcsConfig build parsers configured posted bucket_config refl
      (client_if-is_loopback true) refl refl

serve_all-last_told_example :
    (serve_all configured requests).0
    ≡ record configured { last_validation = last_told none (serve_all configured requests).1 }
serve_all-last_told_example = serve_all-last_told configured requests

unmarshal_caddyfile-written_example :
    unmarshal_caddyfile (written configured ∷ []) (blank configured) ≡ some configured
unfolding lookup text_dec Bool-cases
unmarshal_caddyfile-written_example = unmarshal_caddyfile-written configured (refl, (refl, tt))

abbrev labelled : List String
labelled = "label" ∷ "zone" ∷ "b" ∷ "enable_live" ∷ []

labelled_run :
    Runs unmarshaler labelled configured
      (read_line unmarshaler (length labelled) labelled configured)
labelled_run = read_line-Runs unmarshaler unmarshaler-Shrinks labelled configured
