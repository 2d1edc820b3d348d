-- ===== src/Version/Examples.antt =====
-- pkg/version.go: runs.
use caddy_fs_gcs.Base.{◌≡◌, refl, some, [], ◌∷◌}
use caddy_fs_gcs.Version.{
  Build, BuildInfo, default_version, default_build_time, default_commit, apply_setting,
  apply_settings, set_version, init_build_info,
}

abbrev unset : Build
unset = record {
  version = default_version;
  build_time = default_build_time;
  commit = default_commit;
}

abbrev from_git : BuildInfo
from_git = record {
  settings =
      ("-compiler", "gc")
      ∷ ("vcs.revision", "unknown")
      ∷ ("vcs.revision", "abc123")
      ∷ ("vcs.revision", "def456")
      ∷ ("vcs.time", "2026-04-14")
      ∷ [];
  main_version = "(devel)";
}

filled :
    init_build_info (some from_git) unset
    ≡ record { version = "1.0.0"; build_time = "2026-04-14"; commit = "abc123" }
unfolding init_build_info apply_settings apply_setting set_version
filled = refl

linked :
    init_build_info
      (some (record from_git { main_version = "v2.1.0" }))
      (record unset { commit = "fff" })
    ≡ record { version = "v2.1.0"; build_time = "2026-04-14"; commit = "fff" }
unfolding init_build_info apply_settings apply_setting set_version
linked = refl
