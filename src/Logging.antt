-- ===== src/Logging.antt =====
-- pkg/observability/logger: `SanitizeString` and `SanitizeQuery` (sanitize.go), and the level and the
-- arguments of the global logger (logger.go), whose calls are in Calls. What
-- the sanitizers take is a string of any bytes, in pieces.
pub mod Sanitizing
pub mod Calls
mod Examples
use Prim.Native.Char.{Char, code}
use Prim.Native.String
use text.Mathlib.Text.{◌==◌ as text_eq}
use caddy_fs_gcs.Base.{
  ℕ, zero, suc, ◌-◌, String, Bool, true, false, not, ◌&&◌, ◌||◌, Option, none, some, List, [], ◌∷◌,
  ◌+◌, ◌++◌, ◌==◌, leb, if◌then◌else◌, ℤ, pos, negsuc, ltb_ℤ,
}
use caddy_fs_gcs.Texts.{width, lowers_to}

-- `unicode.IsControl`
abbrev is_control : Char → Bool
is_control c = leb (code c) 31 || leb 127 (code c) && leb (code c) 159

abbrev pub is_kept : Char → Bool
is_kept c = code c == 32 || code c == 9 || not (is_control c)

-- A Go string, as `range` goes over it: runes, and bytes that belong to none, whose value nothing reads.
pub data Piece : Type 0 where
  rune : Char → Piece
  stray : Piece

abbrev pub size : Piece → ℕ
size (rune c) = width c
size stray = 1

-- `len`
unfoldable pub byte_count : List Piece → ℕ
byte_count [] = 0
byte_count (p ∷ s) = size p + byte_count s

-- `utf8.RuneError`, which `strings.Map` writes for a stray byte
abbrev pub rune_error : Char
rune_error = "�"

unfoldable pub sanitize_string : List Piece → String
sanitize_string [] = ""
sanitize_string (rune c ∷ s) =
    let rest = sanitize_string s in if is_kept c then String.◌∷◌ c rest else rest
sanitize_string (stray ∷ s) = String.◌∷◌ rune_error (sanitize_string s)

unfoldable pub strays : ℕ → List Piece
strays zero = []
strays (suc n) = stray ∷ strays n

-- `query[:n]`, which may cut a rune
unfoldable pub first_bytes : ℕ → List Piece → List Piece
first_bytes n [] = []
first_bytes n (p ∷ s) =
    let rest = first_bytes (n - size p) s in if leb (size p) n then p ∷ rest else strays n

-- `utf8.ValidString`
unfoldable pub valid_string : List Piece → Bool
valid_string [] = true
valid_string (rune c ∷ s) = valid_string s
valid_string (stray ∷ s) = false

-- `truncated[:len(truncated)-1]`
unfoldable pub drop_byte : List Piece → List Piece
drop_byte [] = []
drop_byte (p ∷ []) = strays (size p - 1)
drop_byte (p ∷ q ∷ s) = p ∷ drop_byte (q ∷ s)

-- The loop of `SanitizeQuery`, with as many rounds as there are bytes.
unfoldable pub drop_partial : ℕ → List Piece → List Piece
drop_partial zero truncated = truncated
drop_partial (suc n) truncated =
    let rest = drop_partial n (drop_byte truncated) in
    if valid_string truncated then truncated else rest

abbrev pub max_len : ℕ
max_len = 200

unfoldable pub sanitize_query : List Piece → String
sanitize_query query =
    let truncated = first_bytes max_len query in
    if leb (byte_count query) max_len
    then sanitize_string query
    else String.◌++◌ (sanitize_string (drop_partial (byte_count truncated) truncated)) "..."

-- `slog.Level`
unfoldable pub to_slog_level : String → ℤ
to_slog_level level =
    if lowers_to level "debug"
    then negsuc 3
    else if lowers_to level "warn"
    then pos 4
    else if lowers_to level "error"
    then pos 8
    else pos 0

-- The level variable and whether the global logger writes JSON.
pub record Logger : Type 0 where
  pub level : ℤ
  pub json_format : Bool

-- The variables at the start of the process.
abbrev pub start_logger : Logger
start_logger = record { level = pos 0; json_format = false }

unfoldable pub init : String → Bool → Logger → Logger
init level json_format l = record { level = to_slog_level level; json_format = json_format }

unfoldable pub set_level : String → Logger → Logger
set_level level l = record l { level = to_slog_level level }

unfoldable pub debug_enabled : Logger → Bool
debug_enabled l = not (ltb_ℤ (negsuc 3) l.level)

unfoldable pub info_enabled : Logger → Bool
info_enabled l = not (ltb_ℤ (pos 0) l.level)

-- The arguments of a log call: strings, and values of other types.
pub data Arg : Type 0 where
  text_arg : String → Arg
  other_arg : Arg

abbrev is_key : String → Arg → Bool
is_key key (text_arg s) = text_eq s key
is_key key other_arg = false

-- The keys stand at the even positions.
unfoldable pub has_key : String → List Arg → Bool
has_key key [] = false
has_key key (k ∷ []) = is_key key k
has_key key (k ∷ v ∷ args) = is_key key k || has_key key args

unfoldable pub append_key_if_absent : List Arg → String → String → List Arg
append_key_if_absent args key value =
    if text_eq value ""
    then args
    else if has_key key args
    then args
    else args ++ text_arg key ∷ text_arg value ∷ []

-- The identifiers of a valid span of the context.
pub record SpanContext : Type 0 where
  pub trace_id : String
  pub span_id : String

unfoldable pub with_trace_context : Option SpanContext → List Arg → List Arg
with_trace_context none args = args
with_trace_context (some sc) args =
    append_key_if_absent (append_key_if_absent args "trace_id" sc.trace_id) "span_id" sc.span_id
