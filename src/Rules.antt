-- ===== src/Rules.antt =====
-- pkg/validation/config.go: the values that are validated, and the default rules. Of a problem its
-- format and arguments are kept, not its text nor the error it wraps. What net/url, time and regexp
-- answer on a text is a parameter.
pub mod Patterns
pub mod Buckets
pub mod Numbers
mod Examples
use Prim.Native.Char.{Char, code}
use Prim.Native.String
use text.Mathlib.Text.{◌==◌ as text_eq}
use caddy_fs_gcs.Base.{
  ℕ, String, Bool, true, false, not, ◌&&◌, ◌||◌, Option, none, some, if◌then◌else◌, ltb, ℤ, pos,
  negsuc, is_negative, is_digit,
}
use caddy_fs_gcs.Caddyfile.{is_positive}
use caddy_fs_gcs.Regex.{Regex, one, followed, many, maybe, some_of, runes, match_string}
use caddy_fs_gcs.Texts.{
  is_blank, byte_length, in_range, is_code, lowers_to, scan_int, begins, ends, double_dot,
}

-- `any`, by its dynamic type; `other` is any type that no rule looks for.
pub data Value : Type 0 where
  null : Value
  str : String → Value
  int : ℤ → Value
  int64 : ℤ → Value
  boolean : Bool → Value
  duration : ℤ → Value
  other : Value

pub data Problem : Type 0 where
  expected : String → Value → Problem
  empty_string : Problem
  invalid_url : Problem
  incomplete_url : Problem
  invalid_email : Problem
  invalid_port : Problem
  port_range : ℤ → Problem
  invalid_duration_format : Problem
  negative_duration : Problem
  invalid_integer : Problem
  not_positive : ℤ → Problem
  invalid_boolean : String → Problem
  invalid_regex : Problem
  must_be_positive : Problem
  invalid_duration : Problem
  bucket_empty : Problem
  bucket_length : ℕ → Problem
  bucket_characters : Problem
  bucket_edges : Problem
  bucket_dots : Problem
  bucket_ip : Problem
  required_missing : Problem
  unknown_rule : String → Problem

-- `^[a-zA-Z0-9._%+-]+@[a-zA-Z0-9.-]+\.[a-zA-Z]{2,}$`
abbrev letter : Char → Bool
letter c = in_range b'a' b'z' c || in_range b'A' b'Z' c

abbrev domain_char : Char → Bool
domain_char c = letter c || is_digit c || is_code b'.' c || is_code b'-' c

abbrev local_char : Char → Bool
local_char c = domain_char c || is_code b'_' c || is_code b'%' c || is_code b'+' c

unfoldable pub pattern_email : Regex
pattern_email = followed (some_of (one local_char)) (
    followed (one (is_code b'@')) (
      followed (some_of (one domain_char))
        (followed (one (is_code b'.')) (followed (one letter) (some_of (one letter))))))

-- `^[a-z0-9][a-z0-9._-]*[a-z0-9]$`
abbrev pub edge_char : Char → Bool
edge_char c = in_range b'a' b'z' c || in_range b'0' b'9' c

abbrev pub bucket_char : Char → Bool
bucket_char c = edge_char c || is_code b'.' c || is_code b'_' c || is_code b'-' c

unfoldable pub bucket_name_chars_re : Regex
bucket_name_chars_re = followed (one edge_char) (followed (many (one bucket_char)) (one edge_char))

-- `\d{1,3}`
abbrev pub short_number : Regex
short_number = followed (one is_digit) (followed (maybe (one is_digit)) (maybe (one is_digit)))

abbrev pub dot_number : Regex
dot_number = followed (one (is_code b'.')) short_number

-- `^\d{1,3}\.\d{1,3}\.\d{1,3}\.\d{1,3}$`
unfoldable pub ip_address_re : Regex
ip_address_re = followed short_number (followed dot_number (followed dot_number dot_number))

abbrev pub hyphen_or_dot : Char → Bool
hyphen_or_dot c = is_code b'-' c || is_code b'.' c

-- What the standard library makes of a text: `url.Parse` (scheme and host), `time.ParseDuration`, and
-- whether `regexp.Compile` takes it.
pub record Parsers : Type 0 where
  pub parse_url : String → Option (String × String)
  pub parse_duration : String → Option ℤ
  pub compiles : String → Bool

abbrev pub unless_none : {A : Type 0} → Problem → (A → Option Problem) → Option A → Option Problem
unless_none problem f none = some problem
unless_none problem f (some a) = f a

abbrev reject_if : Bool → Problem → Option Problem
reject_if true problem = some problem
reject_if false problem = none

-- The rules' `Validate`; `none` is no error.
unfoldable pub string_rule : Value → Option Problem
string_rule (str s) = reject_if (is_blank s) empty_string
string_rule value = some (expected "string" value)

abbrev absolute : String × String → Option Problem
absolute (scheme, host) = reject_if (text_eq scheme "" || text_eq host "") incomplete_url

unfoldable pub url_rule : Parsers → Value → Option Problem
url_rule p (str s) = unless_none invalid_url absolute (p.parse_url s)
url_rule p value = some (expected "string" value)

unfoldable pub email_rule : Value → Option Problem
email_rule (str s) = reject_if (not (match_string pattern_email s)) invalid_email
email_rule value = some (expected "string" value)

-- `port < 1 || port > 65535`
abbrev out_of_ports : ℤ → Bool
out_of_ports (pos n) = ltb n 1 || ltb 65535 n
out_of_ports (negsuc n) = true

abbrev pub check_port : ℤ → Option Problem
check_port z = reject_if (out_of_ports z) (port_range z)

unfoldable pub port_rule : Value → Option Problem
port_rule (int z) = check_port z
port_rule (int64 z) = check_port z
port_rule (str s) = unless_none invalid_port check_port (scan_int s)
port_rule value = some (expected "port number" value)

abbrev check_duration : ℤ → Option Problem
check_duration d = reject_if (is_negative d) negative_duration

unfoldable pub duration_rule : Parsers → Value → Option Problem
duration_rule p (duration d) = check_duration d
duration_rule p (str s) = unless_none invalid_duration_format check_duration (p.parse_duration s)
duration_rule p value = some (expected "duration" value)

abbrev check_positive : ℤ → Option Problem
check_positive z = reject_if (not (is_positive z)) (not_positive z)

unfoldable pub positive_int_rule : Value → Option Problem
positive_int_rule (int z) = check_positive z
positive_int_rule (int64 z) = check_positive z
positive_int_rule (str s) = unless_none invalid_integer check_positive (scan_int s)
positive_int_rule value = some (expected "integer" value)

unfoldable pub boolean_rule : Value → Option Problem
boolean_rule (boolean b) = none
boolean_rule (str s) =
    reject_if (not (lowers_to s "true" || lowers_to s "false")) (invalid_boolean s)
boolean_rule value = some (expected "boolean" value)

unfoldable pub regex_rule : Parsers → Value → Option Problem
regex_rule p (str s) = reject_if (not (p.compiles s)) invalid_regex
regex_rule p value = some (expected "string" value)

unfoldable pub optional_string_rule : Value → Option Problem
optional_string_rule null = none
optional_string_rule (str s) = if text_eq s "" then none else reject_if (is_blank s) empty_string
optional_string_rule value = some (expected "string" value)

unfoldable pub optional_positive_int_rule : Value → Option Problem
optional_positive_int_rule (int (pos n)) = none
optional_positive_int_rule (int (negsuc n)) = some must_be_positive
optional_positive_int_rule value = none

unfoldable pub optional_duration_rule : Parsers → Value → Option Problem
optional_duration_rule p (str s) =
    if text_eq s "" then none else unless_none invalid_duration (λ d. none) (p.parse_duration s)
optional_duration_rule p value = none

unfoldable pub bucket_name_rule : Value → Option Problem
bucket_name_rule (str s) =
    let n = byte_length s in
    let cs = runes s in
    if is_blank s
    then some bucket_empty
    else if ltb n 3 || ltb 63 n
    then some (bucket_length n)
    else if not (match_string bucket_name_chars_re s)
    then some bucket_characters
    else if begins hyphen_or_dot cs || ends hyphen_or_dot cs
    then some bucket_edges
    else if double_dot cs
    then some bucket_dots
    else if match_string ip_address_re s
    then some bucket_ip
    else none
bucket_name_rule value = some (expected "string" value)
