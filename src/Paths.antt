-- ===== src/Paths.antt =====
-- What pkg/gcs/fs/gcsfs.go uses of Go's packages path, strings and io/fs, and `validPath`. A path is
-- cut at its slashes, and a rune is a `Char`; a `String` is always valid UTF-8.
pub mod Joining
pub mod Cleaning
pub mod Prefixing
mod Tests
use Prim.Native.Char.{Char, code}
use Prim.Native.String
use mathlib.Core.List.{reverse, tail}
use text.Mathlib.Text.{◌==◌ as text_eq}
use caddy_fs_gcs.Base.{
  ℕ, String, Bool, true, false, not, ◌&&◌, ◌||◌, List, [], ◌∷◌, ◌++◌, ◌==◌, if◌then◌else◌, all,
}

abbrev pub is_slash : Char → Bool
is_slash c = code c == b'/'

abbrev pub push_front : Char → List String → List String
push_front c [] = String.◌∷◌ c "" ∷ []
push_front c (s ∷ parts) = String.◌∷◌ c s ∷ parts

-- `strings.Split(s, "/")`
unfoldable pub split_slash : String → List String
split_slash String.[] = "" ∷ []
split_slash (String.◌∷◌ c s) =
    if is_slash c then "" ∷ split_slash s else push_front c (split_slash s)

-- `strings.Join(parts, "/")`
unfoldable pub join_slash : List String → String
join_slash [] = ""
join_slash (s ∷ []) = s
join_slash (s ∷ t ∷ parts) = String.◌++◌ s (String.◌++◌ "/" (join_slash (t ∷ parts)))

abbrev pub is_rooted : String → Bool
is_rooted String.[] = false
is_rooted (String.◌∷◌ c s) = is_slash c

-- `..` at the top of the output of `path.Clean`: up one step, if there is a step to undo.
abbrev go_up : Bool → List String → List String
go_up rooted [] = if rooted then [] else ".." ∷ []
go_up rooted (top ∷ rest) = if text_eq top ".." then ".." ∷ top ∷ rest else rest

-- One element of the path in `path.Clean`; the output so far has its last element at the head.
unfoldable pub resolve : Bool → List String → String → List String
resolve rooted out part =
    if text_eq part "" || text_eq part "."
    then out
    else if text_eq part ".."
    then go_up rooted out
    else part ∷ out

unfoldable pub resolve_all : Bool → List String → List String → List String
resolve_all rooted out [] = out
resolve_all rooted out (part ∷ parts) = resolve_all rooted (resolve rooted out part) parts

-- The elements of `path.Clean(path)`, in order.
unfoldable pub clean_parts : String → List String
clean_parts path = reverse (resolve_all (is_rooted path) [] (split_slash path))

-- The text of a cleaned path; `.` and `/` have no element.
unfoldable pub render : Bool → List String → String
render true parts = String.◌++◌ "/" (join_slash parts)
render false [] = "."
render false (part ∷ parts) = join_slash (part ∷ parts)

-- `path.Clean`
unfoldable pub clean : String → String
clean path = render (is_rooted path) (clean_parts path)

-- `path.Join(a, b)`
unfoldable pub join_path : String → String → String
join_path a b =
    if text_eq a ""
    then (if text_eq b "" then "" else clean b)
    else clean (String.◌++◌ a (String.◌++◌ "/" b))

abbrev pub last_or : String → List String → String
last_or d [] = d
last_or d (s ∷ parts) = last_or s parts

unfoldable pub dot_suffix : String → String
dot_suffix String.[] = ""
dot_suffix (String.◌∷◌ c s) =
    let rest = dot_suffix s in
    if not (text_eq rest "") then rest else if code c == b'.' then String.◌∷◌ c s else ""

-- `path.Ext`: from the last dot of the last element
unfoldable pub ext : String → String
ext path = dot_suffix (last_or "" (split_slash path))

unfoldable pub last_nonempty : String → List String → String
last_nonempty d [] = d
last_nonempty d (s ∷ parts) = last_nonempty (if text_eq s "" then d else s) parts

-- `path.Base`: the last element that is not empty
unfoldable pub base : String → String
base path = if text_eq path "" then "." else last_nonempty "/" (split_slash path)

-- `strings.TrimSuffix(s, "/")`
unfoldable pub trim_slash_suffix : String → String
trim_slash_suffix String.[] = ""
trim_slash_suffix (String.◌∷◌ c s) =
    let rest = String.◌∷◌ c (trim_slash_suffix s) in if is_slash c && text_eq s "" then "" else rest

-- `strings.TrimPrefix(s, "/")`
unfoldable pub trim_slash_prefix : String → String
trim_slash_prefix String.[] = ""
trim_slash_prefix (String.◌∷◌ c s) = if is_slash c then s else String.◌∷◌ c s

unfoldable pub contains_char : ℕ → String → Bool
contains_char b String.[] = false
contains_char b (String.◌∷◌ c s) = code c == b || contains_char b s

abbrev pub valid_part : String → Bool
valid_part s = not (text_eq s "" || text_eq s "." || text_eq s "..")

-- `fs.ValidPath`
unfoldable pub fs_valid_path : String → Bool
fs_valid_path name = text_eq name "." || all valid_part (split_slash name)

unfoldable pub valid_path : String → Bool
valid_path name = fs_valid_path name && not (contains_char b'\\' name)
