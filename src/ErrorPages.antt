-- ===== src/ErrorPages.antt =====
-- pkg/gcs/errorpages/caddy_module.go: the filesystem of embedded error pages. The files that the binary
-- embeds are a parameter; of an error only that it is one is kept: it is `none`, or `false`.
pub mod Serving
mod Examples
use Prim.Native.String
use text.Mathlib.Text.{◌==◌ as text_eq}
use caddy_fs_gcs.Base.{String, Bool, true, false, Option, none, some, List, [], ◌∷◌, if◌then◌else◌}
use caddy_fs_gcs.Paths.{fs_valid_path, join_path}
use caddy_fs_gcs.Dispenser.{Segment}

-- What a filesystem opens.
abbrev pub Files : Type 0 → Type 0
Files Page = String → Option Page

-- `fs.Sub` of a filesystem without a `Sub` of its own, which `embed.FS` is, and `Open` on the result
unfoldable pub sub_open : {Page : Type 0} → Files Page → String → Files Page
sub_open files dir name = if fs_valid_path name then files (join_path dir name) else none

unfoldable pub fs_sub : {Page : Type 0} → Files Page → String → Option (Files Page)
fs_sub files dir =
    if fs_valid_path dir
    then (if text_eq dir "." then some files else some (sub_open files dir))
    else none

-- An `EmbeddedErrorPages`, whose filesystem is nil at first.
pub record EmbeddedErrorPages (Page : Type 0) : Type 0 where
  pub fs : Option (Files Page)

abbrev after_sub :
    {Page : Type 0} → EmbeddedErrorPages Page → Option (Files Page) → EmbeddedErrorPages Page × Bool
after_sub e none = (e, false)
after_sub e (some files) = (record e { fs = some files }, true)

unfoldable pub provision :
    {Page : Type 0} → Files Page → EmbeddedErrorPages Page → EmbeddedErrorPages Page × Bool
provision embedded e = after_sub e (fs_sub embedded "caddy")

-- `NextBlock` behind the directive: it stops at an argument, and there is no block then.
abbrev opens_block : Segment → Bool
opens_block s = elim s.args [
  | [] ↦ elim s.block [ [] ↦ false | line ∷ lines ↦ true ]
  | arg ∷ args ↦ false
]

-- `UnmarshalCaddyfile`, over the segments that the dispenser delivers
unfoldable pub unmarshal_caddyfile : List Segment → Bool
unmarshal_caddyfile [] = false
unmarshal_caddyfile (s ∷ segments) = if opens_block s then false else true
