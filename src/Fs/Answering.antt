-- ===== src/Fs/Answering.antt =====
-- pkg/gcs/fs/gcsfs.go: a call of `Stat` on a file, whatever
-- predicate on worlds the steps on the cache keep.
use text.Mathlib.Text.{◌==◌ as text_eq}
use Prim.Native.String
use caddy_fs_gcs.Base.{
  ℕ, ◌≡◌, refl, String, Bool, true, false, not, Option, none, some, ◌||◌, Bool-cases, Option-cases,
  inl, inr, if◌then◌else◌,
}
use caddy_fs_gcs.Cache.{AttrCache, Attrs, ObjectAttrs, sentinel_not_found, object}
use caddy_fs_gcs.Cache
use caddy_fs_gcs.Cache.Reading.{visible}
use caddy_fs_gcs.Paths.{ext}
use caddy_fs_gcs.Fs.Errors.{
  Error, Result, ok, err, object_not_exist, not_exist, path_error, root, is_eof, is_done,
  is_bucket_not_exist, is_object_not_exist, as_path_error,
}
use caddy_fs_gcs.Fs.{
  World, Handle, Env, Effect, FileInfo, report, translate_error, remember, fail, dir_attrs,
  dir_prefix, object_key, after_probe, after_attrs, probe_dir, stat_backend, stat_cached, stat,
  cache_set, cache_not_found, error_of, after_get, gcs_op, cache_hit, cache_miss, object_not_found,
  backend_error,
}

-- The error that the caller gets for an error of the service.
abbrev pub inner_error : Error → Option Error → Error
inner_error e none = e
inner_error e (some inner) = inner

unfoldable pub translated : String → Handle → Error → Error
translated op f e =
    if is_eof e
    then e
    else path_error op f.name (
        if is_bucket_not_exist e || is_object_not_exist e
        then not_exist
        else inner_error e (as_path_error e))

-- What the bucket says of a name: the root is a directory, then comes an object of that name, then,
-- if the name has no extension, a directory.
abbrev pub dir_answer : Handle → Option Error → Result FileInfo
dir_answer f none = ok (record { attrs = dir_attrs (String.◌++◌ f.name "/") })
dir_answer f (some e) = err (path_error "stat" f.name not_exist)

abbrev pub object_answer : Env → Handle → Result ObjectAttrs → Result FileInfo
object_answer env f (ok a) = ok (record { attrs = a })
object_answer env f (err e) =
    if is_object_not_exist e
    then (if not (text_eq (ext f.name) "")
        then err (path_error "stat" f.name not_exist)
        else dir_answer f (env.backend.list_first (dir_prefix env.fs f.name)))
    else err (translated "stat" f e)

unfoldable pub answer : Env → Handle → Result FileInfo
answer env f =
    if text_eq f.name ""
    then ok (record { attrs = dir_attrs "/" })
    else object_answer env f (env.backend.attrs (object_key env.fs f.name))

abbrev cached_answer : Env → Handle → Option Attrs → Result FileInfo
cached_answer env f none = answer env f
cached_answer env f (some sentinel_not_found) = err (path_error "stat" f.name not_exist)
cached_answer env f (some (object a)) = ok (record { attrs = a })

unfoldable pub expected : Env → Handle → Option AttrCache → Result FileInfo
expected env f none = answer env f
expected env f (some c) = cached_answer env f (visible env.now f.full_path c)

-- The callback for what the cache shows: a hit or a miss.
abbrev pub report_lookup : Env → Option Attrs → World → World
report_lookup env none w = report env.fs.hooks.on_cache_miss cache_miss w
report_lookup env (some a) w = report env.fs.hooks.on_cache_hit cache_hit w

abbrev pub is_lookup : Effect → Bool
is_lookup cache_hit = true
is_lookup cache_miss = true
is_lookup x = false

-- What a predicate on worlds must allow for, to hold throughout the calls of `Stat` on a file: no step
-- on the cache panics, and none breaks it.
pub record IsKept (env : Env) (f : Handle) (P : World → Type 0) : Type 0 where
  pub reported : (b : Bool) (x : Effect) (w : World) → is_lookup x ≡ false → P w → P (report b x w)
  pub looked_up :
      (c : AttrCache) (w : World)
      → P w
      → w.cache ≡ some c
      → (c' : AttrCache) × (Cache.get env.now f.full_path c
          ≡ some (c', visible env.now f.full_path c))
        × P (report_lookup env (visible env.now f.full_path c) (record w { cache = some c' }))
  pub remembered :
      (a : Attrs) (w : World)
      → P w
      → (w' : World) × (cache_set env f.full_path a w ≡ some w') × P w'
  pub denied :
      (i : ℕ) (w : World) → P w → (w' : World) × (cache_not_found env i f w ≡ some w') × P w'

abbrev Outcome : (World → Type 0) → Option (World × Result FileInfo) → Result FileInfo → Type 0
Outcome P m r = (w' : World) × (m ≡ some (w', r)) × P w'

pub report-cache : (b : Bool) (x : Effect) (w : World) → (report b x w).cache ≡ w.cache
report-cache true x w = refl
report-cache false x w = refl

module _ (env : Env) (f : Handle) (P : World → Type 0) (keep : IsKept env f P) where
  pub translate_error_keeps :
      (op : String) (e : Error) (w : World)
      → P w
      → (w' : World) × (translate_error env f op e w ≡ some (w', translated op f e)) × P w'
  unfolding translate_error translated
  translate_error_keeps op e w h = elim (Bool-cases (is_eof e)) [
    | inl y ↦ (w, rw y, h)
    | inr n ↦ elim (Bool-cases (is_bucket_not_exist e || is_object_not_exist e)) [
      | inl gone ↦
          let (w', run, s) = keep.denied 1 w h in
          let x = object_not_found env.fs.bucket_name f.full_path op in
          (
            report env.fs.hooks.on_event x w',
            rw (n, gone, run),
            keep.reported env.fs.hooks.on_event x w' refl s,
          )
      | inr here ↦
          rw (n, here)
            (elim (Option-cases (as_path_error e)) [
              | inl none_found ↦ (
                report env.fs.hooks.on_event (backend_error env.fs.bucket_name f.full_path op e) w,
                rw none_found,
                keep.reported env.fs.hooks.on_event
                    (backend_error env.fs.bucket_name f.full_path op e) w refl h,
              )
              | inr (inner, found) ↦ (w, rw found, h)
            ])
    ]
  ]

  not_exist_translated :
      (op : String) → translated op f object_not_exist ≡ path_error op f.name not_exist
  unfolding translated root
  not_exist_translated op = refl

  fail_Outcome :
      (e : Error) (w : World)
      → P w
      → Outcome P (fail env f "stat" e w) (err (translated "stat" f e))
  fail_Outcome e w h = let (w', run, s) = translate_error_keeps "stat" e w h in (w', rw run, s)

  fail_not_exist :
      (w : World)
      → P w
      → Outcome P (fail env f "stat" object_not_exist w) (err (path_error "stat" f.name not_exist))
  fail_not_exist w h = rw (not_exist_translated "stat") at (fail_Outcome object_not_exist w h)

  remember_Outcome :
      (a : ObjectAttrs) (w : World)
      → P w
      → Outcome P (remember env f a w) (ok (record { attrs = a }))
  remember_Outcome a w h = let (w', run, s) = keep.remembered (object a) w h in (w', rw run, s)

  after_probe_Outcome :
      (m : Option Error) (w : World) → P w → Outcome P (after_probe env f m w) (dir_answer f m)
  after_probe_Outcome none w h = remember_Outcome (dir_attrs (String.◌++◌ f.name "/")) w h
  after_probe_Outcome (some e) w h = elim (Bool-cases (is_done e)) [
    | inl y ↦
        let (w', run, s) = keep.denied 0 w h in
        let (u, run', t) = fail_not_exist w' s in (u, rw (y, run) run', t)
    | inr n ↦ let (u, run', t) = fail_not_exist w h in (u, rw n run', t)
  ]

  after_attrs_Outcome :
      (r : Result ObjectAttrs) (w : World)
      → P w
      → Outcome P (after_attrs env f r w) (object_answer env f r)
  unfolding probe_dir
  after_attrs_Outcome (ok a) w h = remember_Outcome a w h
  after_attrs_Outcome (err e) w h = elim (Bool-cases (is_object_not_exist e)) [
    | inr other ↦ rw other (fail_Outcome e w h)
    | inl gone ↦ rw gone (elim (Bool-cases (text_eq (ext f.name) "")) [
      | inr file ↦ rw file (fail_not_exist w h)
      | inl bare ↦
          let m = env.backend.list_first (dir_prefix env.fs f.name) in
          rw bare (
            after_probe_Outcome m (report env.fs.hooks.on_gcs_op (gcs_op "list" m) w)
              (keep.reported env.fs.hooks.on_gcs_op (gcs_op "list" m) w refl h))
    ])
  ]

  pub stat_backend-answer : (w : World) → P w → Outcome P (stat_backend env f w) (answer env f)
  unfolding stat_backend answer
  stat_backend-answer w h = elim (Bool-cases (text_eq f.name "")) [
    | inl at_root ↦ rw at_root (remember_Outcome (dir_attrs "/") w h)
    | inr below ↦
        let r = env.backend.attrs (object_key env.fs f.name) in
        let x = gcs_op "attrs" (error_of r) in
        rw below (
          after_attrs_Outcome r (report env.fs.hooks.on_gcs_op x w)
            (keep.reported env.fs.hooks.on_gcs_op x w refl h))
  ]

  after_get_Outcome :
      (m : Option Attrs) (c : AttrCache) (w : World)
      → P (report_lookup env m (record w { cache = some c }))
      → Outcome P (after_get env f w (c, m)) (cached_answer env f m)
  after_get_Outcome none c w v = stat_backend-answer _ v
  after_get_Outcome (some sentinel_not_found) c w v = fail_not_exist _ v
  after_get_Outcome (some (object a)) c w v = (_, refl, v)

  stat_at :
      (m : Option AttrCache) (w : World)
      → w.cache ≡ m
      → P w
      → Outcome P (stat_cached env f w m) (expected env f m)
  unfolding expected
  stat_at none w here h = stat_backend-answer w h
  stat_at (some c) w here h =
      let (c', run, v) = keep.looked_up c w h here in
      let (w', run', s) = after_get_Outcome (visible env.now f.full_path c) c' w v in
      (w', rw run run', s)

  pub stat_keeps : (w : World) → P w → Outcome P (stat env f w) (expected env f w.cache)
  unfolding stat
  stat_keeps w h = stat_at w.cache w refl h
