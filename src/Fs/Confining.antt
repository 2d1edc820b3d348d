-- ===== src/Fs/Confining.antt =====
-- pkg/gcs/fs/gcsfs.go: which names of the bucket the filesystem below a prefix asks for.
use Prim.Native.String
use text.Mathlib.Text.{◌==◌ as text_eq}
use text.Mathlib.TextEquality.{eq_iff}
use text.Mathlib.TextLemmas.{append_assoc, append-eq-nil_iff}
use caddy_fs_gcs.Base.{
  ◌≡◌, ◌≢◌, ◌⊎◌, refl, sym, ap, ◌∙◌, inl, inr, String, true, false, Option, none, some, [], ℤ,
  arith, Bool-cases, Option-cases,
}
use caddy_fs_gcs.Cache.{AttrCache, ObjectAttrs, Attrs, sentinel_not_found, object}
use caddy_fs_gcs.Cache
use caddy_fs_gcs.Paths.{clean_parts, clean, join_path, valid_path, trim_slash_suffix}
use caddy_fs_gcs.Paths.Joining.{valid_path_fs}
use caddy_fs_gcs.Paths.Prefixing.{join_path-name, join_path-root, trim_valid}
use caddy_fs_gcs.Paths.Cleaning.{clean_nonempty}
use caddy_fs_gcs.Fs.Errors.{Error, Result, ok, err, invalid, path_error, object_not_exist}
use caddy_fs_gcs.Fs.{
  Env, World, Handle, FileInfo, GcsFs, Backend, open_file, object_key, dir_prefix, fs_stat, stat,
  translate_error, cache_set, cache_not_found, remember, fail, after_probe, probe_dir, after_attrs,
  stat_backend, stat_cached, after_get, dir_attrs,
}
use caddy_fs_gcs.Fs.Listing.{Listing, read_dir, iterator_for}

-- A name strictly inside a directory.
abbrev pub IsInside : String → String → Type 0
IsInside dir key = (rest : String) × (key ≡ String.◌++◌ dir (String.◌++◌ "/" rest))

-- Two buckets that hold the same inside a directory.
pub record AgreesInside (dir : String) (b b' : Backend) : Type 0 where
  pub same_attrs : (key : String) → IsInside dir key → b.attrs key ≡ b'.attrs key
  pub same_first : (p : String) → IsInside dir p → b.list_first p ≡ b'.list_first p

abbrev pub with_backend : Env → Backend → Env
with_backend env b = record env { backend = b }

-- An open file whose object, or that itself, is inside a directory, and so is what is listed for it.
pub record IsWithin (dir : String) (fs : GcsFs) (f : Handle) : Type 0 where
  pub key : (f.name ≡ "") ⊎ IsInside dir (object_key fs f.name)
  pub below : IsInside dir (dir_prefix fs f.name)

module _ (env : Env) (b b' : Backend) (f : Handle) where
  fail_same :
      (op : String) (e : Error) (w : World)
      → fail {A = FileInfo} (with_backend env b) f op e w ≡ fail (with_backend env b') f op e w
  unfolding translate_error cache_not_found
  fail_same op e w = refl

  remember_same :
      (a : ObjectAttrs) (w : World)
      → remember (with_backend env b) f a w ≡ remember (with_backend env b') f a w
  unfolding cache_set
  remember_same a w = refl

  probe_same :
      (m : Option Error) (w : World)
      → after_probe (with_backend env b) f m w ≡ after_probe (with_backend env b') f m w
  unfolding translate_error cache_not_found cache_set
  probe_same none w = refl
  probe_same (some e) w = refl

  module _ (dir : String) (agree : AgreesInside dir b b') (i : IsWithin dir env.fs f) where
    attrs_same :
        (r : Result ObjectAttrs) (w : World)
        → after_attrs (with_backend env b) f r w ≡ after_attrs (with_backend env b') f r w
    unfolding probe_dir translate_error cache_not_found cache_set
    attrs_same (ok a) w = refl
    attrs_same (err e) w = rw (agree.same_first _ i.below) refl

    stat_backend_same :
        (w : World) → stat_backend (with_backend env b) f w ≡ stat_backend (with_backend env b') f w
    unfolding stat_backend
    stat_backend_same w = elim (Bool-cases (text_eq f.name "")) [
      | inl at_root ↦ rw at_root (remember_same (dir_attrs "/") w)
      | inr named ↦ rw (named, agree.same_attrs _ (asked named)) (attrs_same _ _)
    ]
      where
        asked : text_eq f.name "" ≡ false → IsInside dir (object_key env.fs f.name)
        asked n = elim i.key [
          | inl e ↦ absurd (ground (arith, eq_iff f.name ""))
          | inr inside ↦ inside
        ]

    get_same :
        (w : World) (c : AttrCache) (m : Option Attrs)
        → after_get (with_backend env b) f w (c, m) ≡ after_get (with_backend env b') f w (c, m)
    get_same w c none = stat_backend_same _
    get_same w c (some sentinel_not_found) = fail_same "stat" object_not_exist _
    get_same w c (some (object a)) = refl

    cached_same :
        (w : World) (m : Option AttrCache)
        → stat_cached (with_backend env b) f w m ≡ stat_cached (with_backend env b') f w m
    cached_same w none = stat_backend_same w
    cached_same w (some c) = elim (Option-cases (Cache.get env.now f.full_path c)) [
      | inl panic ↦ rw panic refl
      | inr ((c', m), run) ↦ rw run (get_same w c' m)
    ]

    stat_same : (w : World) → stat (with_backend env b) f w ≡ stat (with_backend env b') f w
    unfolding stat
    stat_same w = cached_same w w.cache

module _ (env : Env) (dir : String) (deep : clean_parts dir ≢ [])
    (placed : env.fs.prefix ≡ clean dir) where
  dir_prefix_of :
      (name : String)
      → join_path env.fs.prefix name ≢ ""
      → dir_prefix env.fs name ≡ String.◌++◌ (join_path env.fs.prefix name) "/"
  unfolding dir_prefix
  dir_prefix_of name ne = ground (arith, eq_iff (join_path env.fs.prefix name) "")

  key_of_root : join_path env.fs.prefix "" ≡ clean dir
  key_of_root = rw placed (join_path-root dir deep)

  IsWithin-root :
      (path : String) → IsWithin (clean dir) env.fs (record { name = ""; full_path = path })
  IsWithin-root path = record {
    key = inl refl;
    below = (
      "",
      dir_prefix_of "" (rw key_of_root (clean_nonempty dir))
          ∙ ap (λ key. String.◌++◌ key "/") key_of_root,
    );
  }

  IsWithin-name :
      (name path : String)
      → name ≢ "."
      → valid_path name ≡ true
      → IsWithin (clean dir) env.fs (record { name = name; full_path = path })
  IsWithin-name name path d v =
      let key : join_path env.fs.prefix name ≡ String.◌++◌ (clean dir) (String.◌++◌ "/" name) =
        rw placed (join_path-name dir deep name d (valid_path_fs name v)) in
      let ne = λ (e : join_path env.fs.prefix name ≡ "").
        clean_nonempty dir (append-eq-nil_iff.0 (sym key ∙ e)).0 in
      record {
        key = inr (name, key);
        below = (
          String.◌++◌ name "/",
          dir_prefix_of name ne
              ∙ ap (λ key. String.◌++◌ key "/") key
              ∙ append_assoc (clean dir) _ "/"
              ∙ ap (String.◌++◌ (clean dir)) (append_assoc "/" name "/"),
        );
      }

  abbrev handle_at : String → Handle
  handle_at name = record { name = name; full_path = join_path env.fs.prefix name }

  -- What `Open` opens.
  open_file-IsWithin :
      (name : String)
      → (open_file env.fs name ≡ err (path_error "open" name invalid))
        ⊎ ((f : Handle) × (open_file env.fs name ≡ ok f) × IsWithin (clean dir) env.fs f)
  unfolding open_file trim_slash_suffix
  open_file-IsWithin name = elim (Bool-cases (valid_path name)) [
    | inr bad ↦ inl (rw bad refl)
    | inl fine ↦ elim (Bool-cases (text_eq name ".")) [
      | inl dot ↦ inr (handle_at "", rw (fine, dot) refl, IsWithin-root _)
      | inr named ↦
          let d : name ≢ "." = ground (arith, eq_iff name ".") in
          inr (
            handle_at name,
            rw (fine, named, trim_valid name d (valid_path_fs name fine)) refl,
            IsWithin-name name _ d fine,
          )
    ]
  ]

  module _ (b b' : Backend) (agree : AgreesInside (clean dir) b b') where
    pub fs_stat-confined :
        (name : String) (w : World)
        → fs_stat (with_backend env b) name w ≡ fs_stat (with_backend env b') name w
    unfolding fs_stat
    fs_stat-confined name w = elim (open_file-IsWithin name) [
      | inl bad ↦ rw (bad, fs_stat) refl
      | inr (f, opened, i) ↦ rw (opened, fs_stat) (stat_same env b b' f (clean dir) agree i w)
    ]

  -- A first `ReadDir` of what `Open` opens.
  pub read_dir-confined :
      (list list' : String → Listing)
      → ((p : String) → IsInside (clean dir) p → list p ≡ list' p)
      → (name : String) (f : Handle) (n : ℤ) (w : World) → open_file env.fs name ≡ ok f
      → read_dir env list n (record { handle = f; iter = none }) w
        ≡ read_dir env list' n (record { handle = f; iter = none }) w
  unfolding read_dir iterator_for
  read_dir-confined list list' agree name f n w opened = elim (open_file-IsWithin name) [
    | inl bad ↦ absurd (ground arith)
    | inr (g, opened', i) ↦
        let same : f ≡ g = ground arith in
        rw (agree (dir_prefix env.fs f.name) (rw same i.below)) refl
  ]
