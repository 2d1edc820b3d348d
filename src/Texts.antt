-- ===== src/Texts.antt =====
-- What pkg/validation uses of Go's packages strings, unicode and fmt. A rune is a `Char`; `len` counts
-- the bytes of its UTF-8.
use Prim.Native.Char.{Char, code}
use caddy_fs_gcs.Base.{
  ℕ, ◌+◌, ◌-◌, ◌*◌, ◌^◌, String, Bool, true, false, ◌&&◌, ◌||◌, Option, none, some, List, [], ◌∷◌,
  ◌>>=◌, if◌then◌else◌, ltb, leb, ◌==◌, ℤ, pos, is_digit, negative, within,
}

-- `unicode.IsSpace`
abbrev is_space : ℕ → Bool
is_space n =
    leb 9 n && leb n 13
    || n == 32
    || n == 0x85
    || n == 0xa0
    || n == 0x1680
    || leb 0x2000 n && leb n 0x200a
    || n == 0x2028
    || n == 0x2029
    || n == 0x202f
    || n == 0x205f
    || n == 0x3000

-- `strings.TrimSpace(s) == ""`
unfoldable pub is_blank : String → Bool
is_blank String.[] = true
is_blank (String.◌∷◌ c s) = is_space (code c) && is_blank s

abbrev pub width : Char → ℕ
width c =
    if ltb (code c) 0x80
    then 1
    else if ltb (code c) 0x800
    then 2
    else if ltb (code c) 0x10000
    then 3
    else 4

-- `len(s)`
unfoldable pub byte_length : String → ℕ
byte_length String.[] = 0
byte_length (String.◌∷◌ c s) = width c + byte_length s

abbrev pub in_range : ℕ → ℕ → Char → Bool
in_range low high c = leb low (code c) && leb (code c) high

abbrev pub is_code : ℕ → Char → Bool
is_code n c = code c == n

abbrev lower : Char → ℕ
lower c = if in_range b'A' b'Z' c then code c + 32 else code c

-- `strings.ToLower(s) == t`, for a `t` of lower-case ASCII letters other than `i` and `k`
unfoldable pub lowers_to : String → String → Bool
lowers_to String.[] String.[] = true
lowers_to String.[] (String.◌∷◌ d t) = false
lowers_to (String.◌∷◌ c s) String.[] = false
lowers_to (String.◌∷◌ c s) (String.◌∷◌ d t) = lower c == code d && lowers_to s t

-- The digits at the front of a text, behind those of `n`.
unfoldable pub front_digits : ℕ → String → ℕ
front_digits n String.[] = n
front_digits n (String.◌∷◌ c s) =
    let rest = front_digits (n * 10 + (code c - b'0')) s in if is_digit c then rest else n

unfoldable pub scan_unsigned : String → Option ℕ
scan_unsigned String.[] = none
scan_unsigned (String.◌∷◌ c s) = if is_digit c then some (front_digits 0 (String.◌∷◌ c s)) else none

unfoldable pub scan_signed : String → Option ℤ
scan_signed String.[] = none
scan_signed (String.◌∷◌ c s) =
    if is_code b'-' c
    then (scan_unsigned s >>= λ n. within (2 ^ 63) n (negative n))
    else if is_code b'+' c
    then (scan_unsigned s >>= λ n. within (2 ^ 63 - 1) n (pos n))
    else (scan_unsigned (String.◌∷◌ c s) >>= λ n. within (2 ^ 63 - 1) n (pos n))

-- `fmt.Sscanf(s, "%d", &n)`: white space but no newline, then a number; what follows is not read.
unfoldable pub scan_int : String → Option ℤ
scan_int String.[] = none
scan_int (String.◌∷◌ c s) =
    let rest = scan_int s in
    if is_code 10 c then none else if is_space (code c) then rest else scan_signed (String.◌∷◌ c s)

abbrev pub begins : (Char → Bool) → List Char → Bool
begins p [] = false
begins p (c ∷ cs) = p c

unfoldable pub ends : (Char → Bool) → List Char → Bool
ends p [] = false
ends p (c ∷ []) = p c
ends p (c ∷ d ∷ cs) = ends p (d ∷ cs)

-- `strings.Contains(s, "..")`
unfoldable pub double_dot : List Char → Bool
double_dot [] = false
double_dot (c ∷ cs) = is_code b'.' c && begins (is_code b'.') cs || double_dot cs
