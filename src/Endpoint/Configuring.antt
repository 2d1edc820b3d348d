-- ===== src/Endpoint/Configuring.antt =====
-- pkg/observability/health/health_endpoint.go: `UnmarshalCaddyfile`.
use text.Mathlib.Text.{◌==◌ as text_eq}
use caddy_fs_gcs.Base.{
  String, Bool, true, false, ◌||◌, Option, none, some, List, insert, if◌then◌else◌,
}
use caddy_fs_gcs.Dispenser.{Segment, Unmarshaler, next_arg, read_segments}
use caddy_fs_gcs.Endpoint.{Handler}

-- The directives with a path.
abbrev takes_path : String → Bool
takes_path name =
    text_eq name "path"
    || text_eq name "health_path"
    || text_eq name "readiness_path"
    || text_eq name "liveness_path"
    || text_eq name "startup_path"

module _ {C : Type 0} where
  abbrev set_detailed_local_only :
      Handler C → List String → String → Option (List String × Handler C)
  set_detailed_local_only h rest v =
      if text_eq v "true"
      then some (rest, record h { detailed_local_only = some true })
      else if text_eq v "false"
      then some (rest, record h { detailed_local_only = some false })
      else none

  unfoldable pub set_path :
      String → String → List String → Handler C → Option (List String × Handler C)
  set_path name v rest h =
      if text_eq name "path" || text_eq name "health_path"
      then some (rest, record h { health_path = v })
      else if text_eq name "readiness_path"
      then some (rest, record h { readiness_path = v })
      else if text_eq name "liveness_path"
      then some (rest, record h { liveness_path = v })
      else some (rest, record h { startup_path = v })

  unfoldable pub directive : String → List String → Handler C → Option (List String × Handler C)
  directive name args h =
      if takes_path name
      then next_arg args (λ v rest. set_path name v rest h)
      else if text_eq name "enable_detailed"
      then some (args, record h { enable_detailed = true })
      else if text_eq name "enable_metrics"
      then some (args, record h { enable_metrics = true })
      else if text_eq name "label"
      then next_arg args (λ key rest. next_arg rest (λ value rest'.
        some (rest', record h { custom_labels = insert key value h.custom_labels })))
      else if text_eq name "detailed_local_only"
      then next_arg args (λ v rest. set_detailed_local_only h rest v)
      else none

  abbrev pub unmarshaler : Unmarshaler (Handler C)
  unmarshaler = record {
    start = λ h. h;
    argument = λ v h. record h { health_path = v };
    directive = directive;
  }

  unfoldable pub unmarshal_caddyfile : List Segment → Handler C → Option (Handler C)
  unmarshal_caddyfile = read_segments unmarshaler
