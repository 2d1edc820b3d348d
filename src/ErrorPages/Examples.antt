-- ===== src/ErrorPages/Examples.antt =====
-- pkg/gcs/errorpages/caddy_module.go: runs with one embedded page.
use text.Mathlib.Text.{◌==◌ as text_eq}
use caddy_fs_gcs.Base.{◌≡◌, refl, String, true, false, none, some, [], ◌∷◌, if◌then◌else◌}
use caddy_fs_gcs.Paths.{
  fs_valid_path, join_path, clean, clean_parts, render, resolve, resolve_all, split_slash,
  join_slash,
}
use caddy_fs_gcs.ErrorPages.{Files, sub_open, unmarshal_caddyfile}

abbrev embedded : Files String
embedded name = if text_eq name "caddy/404.html" then some "not found" else none

served : sub_open embedded "caddy" "404.html" ≡ some "not found"
unfolding sub_open fs_valid_path join_path clean clean_parts resolve_all resolve split_slash
    join_slash render
served = refl

escaping : sub_open embedded "caddy" "../caddy/404.html" ≡ none
unfolding sub_open fs_valid_path split_slash
escaping = refl

-- A block is refused, but not behind an argument.
block_refused : unmarshal_caddyfile (record { args = []; block = ("root" ∷ []) ∷ [] } ∷ []) ≡ false
unfolding unmarshal_caddyfile
block_refused = refl

argument_taken :
    unmarshal_caddyfile (record { args = "dark" ∷ []; block = ("root" ∷ []) ∷ [] } ∷ []) ≡ true
unfolding unmarshal_caddyfile
argument_taken = refl
