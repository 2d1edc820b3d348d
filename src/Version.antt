-- ===== src/Version.antt =====
-- pkg/version.go: the build information that `initBuildInfo` fills in. What `debug.ReadBuildInfo` reads
-- is a parameter.
pub mod Filling
mod Examples
use Prim.Native.String
use text.Mathlib.Text.{◌==◌ as text_eq}
use caddy_fs_gcs.Base.{
  String, Bool, true, false, not, ◌&&◌, Option, none, some, List, [], ◌∷◌, if◌then◌else◌,
}

-- The variables of the package.
pub record Build : Type 0 where
  pub version : String
  pub build_time : String
  pub commit : String

abbrev pub default_version : String
default_version = "1.0.0"

abbrev pub default_build_time : String
default_build_time = "unknown"

abbrev pub default_commit : String
default_commit = "unknown"

abbrev pub service_name : String
service_name = "caddy-fs-gcs"

-- `debug.BuildInfo`: the settings, as keys and values, and the version of the main module.
pub record BuildInfo : Type 0 where
  pub settings : List (String × String)
  pub main_version : String

-- A value, unless the linker, or an earlier setting, has set one.
abbrev pub keep_or : String → String → String → String
keep_or default value current = if text_eq current default then value else current

unfoldable pub apply_setting : String × String → Build → Build
apply_setting (key, value) b =
    if text_eq key "vcs.revision"
    then record b { commit = keep_or default_commit value b.commit }
    else if text_eq key "vcs.time"
    then record b { build_time = keep_or default_build_time value b.build_time }
    else b

unfoldable pub apply_settings : List (String × String) → Build → Build
apply_settings [] b = b
apply_settings (s ∷ settings) b = apply_settings settings (apply_setting s b)

unfoldable pub set_version : String → Build → Build
set_version v b =
    if text_eq b.version default_version
    then (if not (text_eq v "") && not (text_eq v "(devel)") then record b { version = v } else b)
    else b

-- `initBuildInfo`; `none` is a reader without information.
unfoldable pub init_build_info : Option BuildInfo → Build → Build
init_build_info none b = b
init_build_info (some info) b = set_version info.main_version (apply_settings info.settings b)
