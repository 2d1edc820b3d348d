-- ===== src/Tracing/Lifecycle.antt =====
-- pkg/observability/tracing/tracing.go: sequences of `Init` and `Shutdown`.
use caddy_fs_gcs.Base.{◌≡◌, Bool, true, false, Option, none, List, [], ◌∷◌}
use caddy_fs_gcs.Tracing.{Tracing, TracingError, Build, Settings, Host, init, shutdown}

-- A call of the package, with the answers of its surroundings.
pub data Call : Type 0 where
  call_init : Settings → Host → Call
  call_shutdown : Bool → Call

unfoldable pub call : Build → Call → Tracing → Tracing × Option TracingError
call b (call_init s e) = init b s e
call b (call_shutdown fails) = shutdown fails

unfoldable pub run : Build → List Call → Tracing → Tracing
run b [] t = t
run b (c ∷ calls) t = run b calls (call b c t).0

abbrev pub start : Tracing
start = record { tracer = false; tp = none; shutdown_func = false; initialized = false }

-- Without the flag there is no provider and no function.
abbrev Coherent : Tracing → Type 0
Coherent t = t.initialized ≡ false → (t.tp ≡ none) × (t.shutdown_func ≡ false)

abbrev CoherentAfter : Tracing × Option TracingError → Type 0
CoherentAfter (t, e) = Coherent t

-- Tracing without an exporter.
abbrev pub stuck : Tracing
stuck = record { tracer = true; tp = none; shutdown_func = false; initialized = true }
