-- ===== src/Logging/Calls.antt =====
-- pkg/observability/logger/logger.go: the calls of the global logger and of the loggers made from it. Of
-- what slog writes, a line is kept, with its level, message and arguments, not its text.
use caddy_fs_gcs.Base.{
  ◌≡◌, refl, inl, inr, String, Bool, true, false, not, Option, none, some, List, [], ◌∷◌, ◌++◌, ℤ,
  pos, negsuc, ltb_ℤ, all, if◌then◌else◌, arith, Bool-cases,
}
use caddy_fs_gcs.Logging.{
  Logger, Arg, text_arg, SpanContext, with_trace_context, init, set_level, to_slog_level,
}

-- A `*slog.Logger`: one made from the global logger, which shares its level variable, or `Nop()`.
pub data SlogLogger : Type 0 where
  writes : (json_format : Bool) → (attrs : List Arg) → SlogLogger
  discards : SlogLogger

pub record Line : Type 0 where
  pub level : ℤ
  pub message : String
  pub args : List Arg
  pub json_format : Bool

abbrev pub debug_level : ℤ
debug_level = negsuc 3

abbrev pub info_level : ℤ
info_level = pos 0

abbrev pub warn_level : ℤ
warn_level = pos 4

abbrev pub error_level : ℤ
error_level = pos 8

-- A call of a slog logger while the level variable is that of `l`.
unfoldable pub emit : Logger → SlogLogger → ℤ → String → List Arg → List Line
emit l discards level message args = []
emit l (writes json attrs) level message args =
    if ltb_ℤ level l.level
    then []
    else record { level = level; message = message; args = attrs ++ args; json_format = json } ∷ []

abbrev global : Logger → SlogLogger
global l = writes l.json_format []

-- `logWith`, for each of `Debug`, `Info`, `Warn` and `Error`
unfoldable pub log_with : ℤ → String → List Arg → Logger → List Line
log_with level message args l = emit l (global l) level message args

-- `DebugContext`, `InfoContext`, `WarnContext` and `ErrorContext`; `none` is a context without a valid
-- span, or nil.
unfoldable pub log_context : ℤ → Option SpanContext → String → List Arg → Logger → List Line
log_context level ctx message args l = emit l (global l) level message (with_trace_context ctx args)

unfoldable pub with_args : List Arg → Logger → SlogLogger
with_args args l = writes l.json_format args

unfoldable pub from_context : Option SpanContext → Logger → SlogLogger
from_context none l = global l
from_context (some sc) l =
    writes l.json_format
      (text_arg "trace_id" ∷ text_arg sc.trace_id ∷ text_arg "span_id" ∷ text_arg sc.span_id ∷ [])

abbrev pub nop : SlogLogger
nop = discards

-- The calls of the package, and those of a logger that it has handed out.
pub data Call : Type 0 where
  inits : (level : String) → (json_format : Bool) → Call
  sets_level : String → Call
  logs : ℤ → String → List Arg → Call
  logs_context : ℤ → Option SpanContext → String → List Arg → Call
  emits : SlogLogger → ℤ → String → List Arg → Call

unfoldable pub step : Call → Logger → Logger × List Line
step (inits level json) l = (init level json l, [])
step (sets_level level) l = (set_level level l, [])
step (logs level message args) l = (l, log_with level message args l)
step (logs_context level ctx message args) l = (l, log_context level ctx message args l)
step (emits s level message args) l = (l, emit l s level message args)

unfoldable pub run : List Call → Logger → Logger × List Line
run [] l = (l, [])
run (c ∷ calls) l =
    let (l', lines) = step c l in let (l'', more) = run calls l' in (l'', lines ++ more)

-- The call leaves the level variable alone.
abbrev pub keeps_level : Call → Bool
keeps_level (inits level json) = false
keeps_level (sets_level level) = false
keeps_level c = true

abbrev pub at_least : ℤ → Line → Bool
at_least level line = not (ltb_ℤ line.level level)

emit-at_least :
    (l : Logger) (s : SlogLogger) (level : ℤ) (message : String) (args : List Arg)
    → all (at_least l.level) (emit l s level message args) ≡ true
unfolding emit
emit-at_least l discards level message args = refl
emit-at_least l (writes json attrs) level message args = elim (Bool-cases (ltb_ℤ level l.level)) [
  | inl y ↦ rw y refl
  | inr n ↦ rw (n, n) refl
]

step-at_least :
    (c : Call) (l : Logger)
    → keeps_level c ≡ true
    → ((step c l).0 ≡ l) × (all (at_least l.level) (step c l).1 ≡ true)
unfolding step log_with log_context
step-at_least (inits level json) l h = absurd (ground arith)
step-at_least (sets_level level) l h = absurd (ground arith)
step-at_least (logs level message args) l h = (refl, emit-at_least l (global l) level message args)
step-at_least (logs_context level ctx message args) l h =
    (refl, emit-at_least l (global l) level message (with_trace_context ctx args))
step-at_least (emits s level message args) l h = (refl, emit-at_least l s level message args)

all-append :
    (p : Line → Bool) (xs ys : List Line)
    → all p xs ≡ true
    → all p ys ≡ true
    → all p (xs ++ ys) ≡ true
all-append p [] ys h k = k
all-append p (x ∷ xs) ys h k = ground (arith, all-append p xs ys)

run-at_least :
    (calls : List Call) (l : Logger)
    → all keeps_level calls ≡ true
    → all (at_least l.level) (run calls l).1 ≡ true
unfolding run
run-at_least [] l h = refl
run-at_least (c ∷ calls) l h =
    let (same, here) = step-at_least c l (ground arith) in
    all-append (at_least l.level) (step c l).1 (run calls (step c l).0).1 here
      (rw same (run-at_least calls l (ground arith)))

-- Once the level is set, by `SetLevel` or by `Init`, and until it is set again, every line that is
-- written has at least that level: by the functions of the package, and by every logger that the
-- package has handed out, before or after.
pub run-set_level :
    (level : String) (json : Bool) (calls : List Call) (l : Logger)
    → all keeps_level calls ≡ true
    → (all (at_least (to_slog_level level)) (run (sets_level level ∷ calls) l).1 ≡ true)
      × (all (at_least (to_slog_level level)) (run (inits level json ∷ calls) l).1 ≡ true)
unfolding run step set_level init
run-set_level level json calls l h =
    (run-at_least calls (set_level level l) h, run-at_least calls (init level json l) h)
