-- ===== src/ErrorPages/Serving.antt =====
-- pkg/gcs/errorpages/caddy_module.go: which embedded file a name opens.
use Prim.Native.String
use text.Mathlib.TextLemmas.{append_assoc}
use caddy_fs_gcs.Base.{
  ◌≡◌, ◌≢◌, refl, sym, ◌∙◌, inl, inr, String, true, none, some, [], Bool-cases, if◌then◌else◌,
}
use caddy_fs_gcs.Paths.{
  fs_valid_path, join_path, clean, clean_parts, render, resolve, resolve_all, split_slash,
  join_slash,
}
use caddy_fs_gcs.Paths.Prefixing.{join_path-name}
use caddy_fs_gcs.ErrorPages.{Files, EmbeddedErrorPages, sub_open, fs_sub, provision}

caddy_dir : clean "caddy" ≡ "caddy"
unfolding clean clean_parts resolve_all resolve split_slash join_slash render
caddy_dir = refl

caddy_deep : clean_parts "caddy" ≢ []
unfolding clean_parts resolve_all resolve split_slash
caddy_deep = λ h. cc

caddy_valid : fs_valid_path "caddy" ≡ true
unfolding fs_valid_path split_slash
caddy_valid = refl

page_key :
    (name : String)
    → name ≢ "."
    → fs_valid_path name ≡ true
    → join_path "caddy" name ≡ String.◌++◌ "caddy/" name
page_key name d v =
    rw caddy_dir at (join_path-name "caddy" caddy_deep name d v)
    ∙ sym (append_assoc "caddy" "/" name)

-- `Provision` does not fail, and from then on `Open` of a name is `Open` of `caddy/` and the name in the
-- embedded files, for every name that `fs.ValidPath` accepts but `.`; no other name reaches
-- them.
pub provision-opens :
    {Page : Type 0} (embedded : Files Page) (e : EmbeddedErrorPages Page)
    → (files : Files Page) × (provision embedded e ≡ (record e { fs = some files }, true))
      × ((name : String)
          → name ≢ "."
          → files name
            ≡ (if fs_valid_path name then embedded (String.◌++◌ "caddy/" name) else none))
unfolding provision fs_sub sub_open
provision-opens embedded e = (
  sub_open embedded "caddy",
  rw caddy_valid refl,
  λ name d. elim (Bool-cases (fs_valid_path name)) [
    | inl y ↦ rw (y, page_key name d y) refl
    | inr n ↦ rw n refl
  ],
)
