-- ===== src/Version/Filling.antt =====
-- pkg/version.go: the variables after `initBuildInfo`.
use text.Mathlib.Text.{◌==◌ as text_eq}
use text.Mathlib.TextEquality.{eq_iff}
use caddy_fs_gcs.Base.{
  ◌≡◌, refl, ◌∙◌, inl, inr, String, not, ◌&&◌, ◌||◌, none, some, List, [], ◌∷◌, if◌then◌else◌,
  arith, Bool-cases,
}
use caddy_fs_gcs.Version.{
  Build, BuildInfo, default_version, default_build_time, default_commit, keep_or, apply_setting,
  apply_settings, set_version, init_build_info,
}

-- The first value of a key that is not the default, or the default.
unfoldable pub first_value : String → String → List (String × String) → String
first_value default key [] = default
first_value default key ((k, v) ∷ settings) =
    let rest = first_value default key settings in
    if text_eq k key && not (text_eq v default) then v else rest

-- What the linker has set stays; anything else comes from the settings.
abbrev pub linked_or : String → String → String → String
linked_or default current value = if text_eq current default then value else current

apply_setting-commit :
    (k v : String) (b : Build)
    → (apply_setting (k, v) b).commit
      ≡ (if text_eq k "vcs.revision" then keep_or default_commit v b.commit else b.commit)
unfolding apply_setting
apply_setting-commit k v b = ground arith

apply_setting-build_time :
    (k v : String) (b : Build)
    → (apply_setting (k, v) b).build_time
      ≡ (if text_eq k "vcs.time" then keep_or default_build_time v b.build_time else b.build_time)
unfolding apply_setting
apply_setting-build_time k v b = elim (Bool-cases (text_eq k "vcs.revision")) [
  | inl y ↦ rw ((eq_iff k "vcs.revision").0 y) refl
  | inr n ↦ rw n (ground arith)
]

apply_settings-commit :
    (settings : List (String × String)) (b : Build)
    → (apply_settings settings b).commit
      ≡ linked_or default_commit b.commit (first_value default_commit "vcs.revision" settings)
unfolding apply_settings first_value
apply_settings-commit [] b = ground (arith, eq_iff b.commit default_commit)
apply_settings-commit ((k, v) ∷ settings) b =
    apply_settings-commit settings (apply_setting (k, v) b)
    ∙ rw (apply_setting-commit k v b) (ground (arith, eq_iff v default_commit))

apply_settings-build_time :
    (settings : List (String × String)) (b : Build)
    → (apply_settings settings b).build_time
      ≡ linked_or default_build_time b.build_time
          (first_value default_build_time "vcs.time" settings)
unfolding apply_settings first_value
apply_settings-build_time [] b = ground (arith, eq_iff b.build_time default_build_time)
apply_settings-build_time ((k, v) ∷ settings) b =
    apply_settings-build_time settings (apply_setting (k, v) b)
    ∙ rw (apply_setting-build_time k v b) (ground (arith, eq_iff v default_build_time))

apply_settings-version :
    (settings : List (String × String)) (b : Build)
    → (apply_settings settings b).version ≡ b.version
unfolding apply_settings apply_setting
apply_settings-version [] b = refl
apply_settings-version ((k, v) ∷ settings) b =
    apply_settings-version settings (apply_setting (k, v) b) ∙ ground arith

-- The version that `go` has recorded, if it says one.
abbrev pub recorded_version : String → String
recorded_version v = if text_eq v "" || text_eq v "(devel)" then default_version else v

set_version-version :
    (v : String) (b : Build)
    → (set_version v b).version ≡ linked_or default_version b.version (recorded_version v)
unfolding set_version
set_version-version v b = ground (arith, eq_iff b.version default_version)

set_version_only :
    (v : String) (b : Build)
    → ((set_version v b).commit ≡ b.commit) × ((set_version v b).build_time ≡ b.build_time)
unfolding set_version
set_version_only v b = ground arith

-- After `initBuildInfo` with build information, each of the three variables that the linker has set to
-- something else than its default is as it was; any other holds the first value of its setting
-- (`vcs.revision`, `vcs.time`) that is not the default, or the main module's version if that is
-- neither empty nor `(devel)`, and else its default. Without build information all are as they were.
pub init_build_info-fills :
    (info : BuildInfo) (b : Build)
    → (init_build_info (some info) b ≡ record {
      version = linked_or default_version b.version (recorded_version info.main_version);
      build_time =
          linked_or default_build_time b.build_time
            (first_value default_build_time "vcs.time" info.settings);
      commit =
          linked_or default_commit b.commit
            (first_value default_commit "vcs.revision" info.settings);
    })
      × (init_build_info none b ≡ b)
unfolding init_build_info
init_build_info-fills info b =
    let b' = apply_settings info.settings b in
    (
      ground (
        arith,
        set_version-version info.main_version b',
        set_version_only info.main_version b',
        apply_settings-version info.settings b,
        apply_settings-commit info.settings b,
        apply_settings-build_time info.settings b,
      ),
      refl,
    )
