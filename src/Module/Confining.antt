-- ===== src/Module/Confining.antt =====
-- pkg/gcs/fs/module.go and pkg/gcs/fs/gcsfs.go: the filesystem of a module with a path prefix.
use text.Mathlib.Text.{◌==◌ as text_eq}
use text.Mathlib.TextEquality.{eq_iff}
use caddy_fs_gcs.Base.{◌≡◌, ◌≢◌, refl, String, false, [], none, ℤ, arith}
use caddy_fs_gcs.Paths.{
  clean_parts, clean, join_path, trim_slash_prefix, trim_slash_suffix, resolve_all, split_slash,
  resolve,
}
use caddy_fs_gcs.Fs.Errors.{ok}
use caddy_fs_gcs.Fs.{Env, World, Handle, Backend, open_file, fs_stat, sub}
use caddy_fs_gcs.Fs.Listing.{Listing, read_dir}
use caddy_fs_gcs.Fs.Confining.{
  IsInside, AgreesInside, with_backend, fs_stat-confined, read_dir-confined,
}
use caddy_fs_gcs.Module.{Config, Environment, file_system}

-- The directory that `Provision` passes to `Sub`.
abbrev pub configured_dir : Config → String
configured_dir c = trim_slash_suffix (trim_slash_prefix c.path_prefix)

abbrev pub of_module : Environment → Config → Env → Env
of_module env c req = record req { fs = file_system env c }

module _ (env : Environment) (c : Config) (deep : clean_parts (configured_dir c) ≢ []) where
  dir_named : configured_dir c ≢ ""
  dir_named = λ e. deep (rw e no_parts)
    where
      no_parts : clean_parts "" ≡ []
      no_parts = unfold clean_parts resolve_all resolve split_slash in refl

  prefix_given : c.path_prefix ≢ ""
  unfolding trim_slash_prefix trim_slash_suffix
  prefix_given = λ e. dir_named (rw e refl)

  file_system-prefix : (file_system env c).prefix ≡ clean (configured_dir c)
  unfolding file_system sub join_path
  file_system-prefix =
      let named : text_eq (configured_dir c) "" ≡ false =
        ground (arith, dir_named, eq_iff (configured_dir c) "") in
      let given : text_eq c.path_prefix "" ≡ false =
        ground (arith, prefix_given, eq_iff c.path_prefix "") in
      rw (given, named) refl

  -- All that a module with a path prefix tells of a bucket lies below the prefix: if two buckets answer
  -- alike for every name that starts with the cleaned prefix and a slash, then `Stat` of any name, as
  -- the caller gives it, has the same result and the same effects with both, and so has the first
  -- `ReadDir` of any name that `Open` accepts.
  pub file_system-confined :
      (req : Env) (b b' : Backend) (list list' : String → Listing)
      → AgreesInside (clean (configured_dir c)) b b'
      → ((p : String) → IsInside (clean (configured_dir c)) p → list p ≡ list' p)
      → ((name : String) (w : World)
          → fs_stat (with_backend (of_module env c req) b) name w
            ≡ fs_stat (with_backend (of_module env c req) b') name w)
        × ((name : String) (f : Handle) (n : ℤ) (w : World)
            → open_file (file_system env c) name ≡ ok f
            → read_dir (of_module env c req) list n (record { handle = f; iter = none }) w
              ≡ read_dir (of_module env c req) list' n (record { handle = f; iter = none }) w)
  file_system-confined req b b' list list' agree agree' = (
    fs_stat-confined (of_module env c req) (configured_dir c) deep file_system-prefix b b' agree,
    read_dir-confined (of_module env c req) (configured_dir c) deep file_system-prefix list list'
        agree',
  )
