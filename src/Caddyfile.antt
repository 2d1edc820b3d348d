-- ===== src/Caddyfile.antt =====
-- pkg/gcs/fs/module.go: `UnmarshalCaddyfile`. The dispenser of tokens is a parameter: what it delivers
-- is a list of lines of tokens, of which `NextBlock` takes the next token and `AllArgs` the rest of
-- the line. Of an error only that it is one is kept: it is `none`.
pub mod Accepting
mod Examples
use Prim.Native.String
use Prim.Native.Char.{code}
use text.Mathlib.Text.{◌==◌ as text_eq}
use caddy_fs_gcs.Base.{
  ℕ, ◌+◌, ◌-◌, ◌*◌, ◌^◌, String, Bool, true, false, not, ◌&&◌, ◌||◌, Option, none, some, List, [],
  ◌∷◌, ◌>>=◌, if◌then◌else◌, ℤ, pos, negsuc, ltb, ◌==◌, is_digit, negative, within,
}
use caddy_fs_gcs.Module.{Config}

unfoldable pub digits_value : ℕ → String → Option ℕ
digits_value n String.[] = some n
digits_value n (String.◌∷◌ c s) =
    let rest = digits_value (n * 10 + (code c - b'0')) s in if is_digit c then rest else none

abbrev unsigned : String → Option ℕ
unsigned s = if text_eq s "" then none else digits_value 0 s

-- `strconv.Atoi`, with an `int` of 64 bits
unfoldable pub atoi : String → Option ℤ
atoi String.[] = none
atoi (String.◌∷◌ c s) =
    if code c == b'-'
    then (unsigned s >>= λ n. within (2 ^ 63) n (negative n))
    else if code c == b'+'
    then (unsigned s >>= λ n. within (2 ^ 63 - 1) n (pos n))
    else (unsigned (String.◌∷◌ c s) >>= λ n. within (2 ^ 63 - 1) n (pos n))

-- `n > 0`
abbrev pub is_positive : ℤ → Bool
is_positive (pos n) = ltb 0 n
is_positive (negsuc n) = false

-- `AllArgs` of one variable
abbrev pub single : List String → Option String
single [] = none
single (v ∷ []) = some v
single (v ∷ w ∷ args) = none

unfoldable pub contains : String → List String → Bool
contains s [] = false
contains s (t ∷ ts) = text_eq s t || contains s ts

abbrev set_max_entries : Config → Option ℤ → Option Config
set_max_entries c none = none
set_max_entries c (some n) =
    if is_positive n
    then some (record c { cache_max_entries = n; cache_max_entries_set = true })
    else none

abbrev set_ttl : Config → Option ℤ → Option Config
set_ttl c none = none
set_ttl c (some d) = some (record c { cache_ttl = d; cache_ttl_set = true })

abbrev with_bucket : List String × Config → Option Config
with_bucket (seen, c) = if text_eq c.bucket_name "" then none else some c

-- `parse_duration` is caddy.ParseDuration.
module _ (parse_duration : String → Option ℤ) where
  -- The cases of the switch that take an argument.
  unfoldable pub set_value : String → String → Config → Option Config
  set_value directive v c =
      if text_eq directive "bucket_name"
      then some (record c { bucket_name = v })
      else if text_eq directive "path_prefix"
      then some (record c { path_prefix = v })
      else if text_eq directive "project_id"
      then some (record c { project_id = v })
      else if text_eq directive "credentials_file"
      then some (record c { credentials_file = v })
      else if text_eq directive "credentials_config"
      then some (record c { credentials_config = v })
      else if text_eq directive "service_account"
      then some (record c { service_account = v })
      else if text_eq directive "cache_ttl"
      then set_ttl c (parse_duration v)
      else if text_eq directive "cache_max_entries"
      then set_max_entries c (atoi v)
      else none

  -- The rest of a line, with the directives seen before it.
  unfoldable pub unmarshal_line : List String → List String × Config → Option (List String × Config)
  unmarshal_line [] (seen, c) = some (seen, c)
  unmarshal_line (directive ∷ args) (seen, c) =
      let flagged =
        unmarshal_line args (directive ∷ seen, record c { use_workload_identity = true }) in
      if contains directive seen
      then none
      else if text_eq directive "use_workload_identity"
      then flagged
      else (single args >>= λ v. set_value directive v c >>= λ c'. some (directive ∷ seen, c'))

  unfoldable pub unmarshal_lines :
      List (List String) → List String × Config → Option (List String × Config)
  unmarshal_lines [] s = some s
  unmarshal_lines (line ∷ lines) s = unmarshal_line line s >>= unmarshal_lines lines

  -- `UnmarshalCaddyfile`; `none` is a dispenser without a token.
  unfoldable pub unmarshal_caddyfile : Option (List (List String)) → Config → Option Config
  unmarshal_caddyfile none c = none
  unmarshal_caddyfile (some lines) c = unmarshal_lines lines ([], c) >>= with_bucket
