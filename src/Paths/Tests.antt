-- ===== src/Paths/Tests.antt =====
-- pkg/gcs/fs/gcsfs.go: runs of the path functions.
use mathlib.Core.List.{◌++◌}
use text.Mathlib.TextEquality.{eq_iff}
use caddy_fs_gcs.Base.{◌≡◌, refl, true, false, arith}
use caddy_fs_gcs.Paths.Joining.{join_path-valid_path}
use caddy_fs_gcs.Paths.{
  clean, clean_parts, render, join_path, join_slash, split_slash, resolve, resolve_all, ext, base,
  trim_slash_suffix, valid_path, fs_valid_path, contains_char, dot_suffix, last_nonempty,
}

program : Unit {0}
unfolding clean clean_parts render join_path join_slash split_slash resolve resolve_all ext base
    trim_slash_suffix valid_path fs_valid_path contains_char dot_suffix last_nonempty
program = tt

join_two : join_path "sites/prod" "a/b.html" ≡ "sites/prod/a/b.html"
unfolding program
join_two = refl

join_root : join_path "sites/prod" "" ≡ "sites/prod"
unfolding program
join_root = refl

clean_dots : clean "/a/../../b/./c//" ≡ "/b/c"
unfolding program
clean_dots = refl

clean_up : clean "../a/.." ≡ ".."
unfolding program
clean_up = refl

ext_html : ext "a.b/index.html" ≡ ".html"
unfolding program
ext_html = refl

ext_none : ext "a.b/index" ≡ ""
unfolding program
ext_none = refl

base_dir : base "a/b/" ≡ "b"
unfolding program
base_dir = refl

trimmed : trim_slash_suffix "a/" ≡ "a"
unfolding program
trimmed = refl

invalid_up : valid_path "a/../b" ≡ false
unfolding program
invalid_up = refl

invalid_backslash : valid_path "a\\b" ≡ false
unfolding program
invalid_backslash = refl

valid_dir : valid_path "a/b" ≡ true
unfolding program
valid_dir = refl

kept_below :
    join_path "sites/prod/.." "a/b.html"
    ≡ render false (clean_parts "sites/prod/.." ++ split_slash "a/b.html")
unfolding program
kept_below =
    join_path-valid_path "sites/prod/.." "a/b.html"
      (λ e. absurd (ground (arith, (eq_iff "sites/prod/.." "").1 e)))
      (λ e. absurd (ground (arith, (eq_iff "a/b.html" ".").1 e))) refl
