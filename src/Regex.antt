-- ===== src/Regex.antt =====
-- What pkg/validation/config.go uses of Go's regexp: patterns between `^` and `$`, as expressions that
-- a string matches as a whole. The matcher takes derivatives.
pub mod Language
use Prim.Native.Char.{Char}
use Prim.Native.String
use caddy_fs_gcs.Base.{
  ℕ, zero, suc, String, Bool, true, false, ◌&&◌, ◌||◌, List, [], ◌∷◌, if◌then◌else◌,
}

pub data Regex : Type 0 where
  never : Regex
  nothing : Regex
  one : (Char → Bool) → Regex
  followed : Regex → Regex → Regex
  either : Regex → Regex → Regex
  many : Regex → Regex

-- `r?`
abbrev pub maybe : Regex → Regex
maybe r = either nothing r

-- `r+`
abbrev pub some_of : Regex → Regex
some_of r = followed r (many r)

-- The runes of a string.
unfoldable pub runes : String → List Char
runes String.[] = []
runes (String.◌∷◌ c s) = c ∷ runes s

unfoldable pub nullable : Regex → Bool
nullable never = false
nullable nothing = true
nullable (one p) = false
nullable (followed r s) = nullable r && nullable s
nullable (either r s) = nullable r || nullable s
nullable (many r) = true

-- What is left to match after a rune.
unfoldable pub step : Char → Regex → Regex
step c never = never
step c nothing = never
step c (one p) = if p c then nothing else never
step c (followed r s) = either (followed (step c r) s) (if nullable r then step c s else never)
step c (either r s) = either (step c r) (step c s)
step c (many r) = followed (step c r) (many r)

unfoldable pub matches : Regex → List Char → Bool
matches r [] = nullable r
matches r (c ∷ cs) = matches (step c r) cs

-- `re.MatchString(s)`
unfoldable pub match_string : Regex → String → Bool
match_string r s = matches r (runes s)
