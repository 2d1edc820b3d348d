-- ===== src/Fs.antt =====
-- pkg/gcs/fs/gcsfs.go: the filesystem over a bucket, `Open`, `Sub`, `Stat` and `translateError`.
-- What a call changes is the attribute cache, which is shared, and what it reports to the callbacks;
-- both are the fields of `World`. `none` is a panic.
pub mod Errors
pub mod Caching
pub mod Answering
pub mod Stating
pub mod Keeping
pub mod Negative
pub mod Polling
pub mod Refreshing
pub mod Remembering
pub mod Listing
pub mod Paging
pub mod Confining
pub mod Contexts
mod Examples
mod RefreshingTests
use mathlib.Core.List.{reverse}
use text.Mathlib.Text.{◌==◌ as text_eq}
use Prim.Native.String
use caddy_fs_gcs.Base.{
  ℕ, ◌+◌, ◌^◌, String, Bool, true, false, not, ◌||◌, ◌&&◌, Option, none, some, List, [], ◌∷◌, ◌>>=◌,
  ltb, if◌then◌else◌,
}
use caddy_fs_gcs.Cache.{AttrCache, ObjectAttrs, Attrs, sentinel_not_found, object}
use caddy_fs_gcs.Cache
use caddy_fs_gcs.Paths.{join_path, trim_slash_suffix, valid_path, ext, base}
use Errors.{
  Error, object_not_exist, not_exist, invalid, path_error, Result, ok, err, is_eof, is_done,
  is_object_not_exist, is_bucket_not_exist, as_path_error,
}

-- Which callbacks are set.
pub record Hooks : Type 0 where
  pub on_event : Bool
  pub on_cache_hit : Bool
  pub on_cache_miss : Bool
  pub on_gcs_op : Bool
  pub on_stream_bytes : Bool

pub record GcsFs : Type 0 where
  pub bucket_name : String
  pub prefix : String
  pub hooks : Hooks

-- A call of a callback.
pub data Effect : Type 0 where
  cache_hit cache_miss : Effect
  gcs_op : (op : String) → Option Error → Effect
  stream_bytes : ℕ → Effect
  object_not_found : (bucket object op : String) → Effect
  backend_error : (bucket object op : String) → Error → Effect

-- `none` is a filesystem without a cache; the log has the latest call first.
pub record World : Type 0 where
  pub cache : Option AttrCache
  pub log : List Effect

-- The answers of Cloud Storage during a call: `Attrs` of an object, and the error of the first
-- `Next` of a listing below a prefix.
pub record Backend : Type 0 where
  pub attrs : String → Result ObjectAttrs
  pub list_first : String → Option Error

abbrev pub report : Bool → Effect → World → World
report true e w = record w { log = e ∷ w.log }
report false e w = w

-- The fields of a `gcsFile` that `Open` sets and nothing changes.
pub record Handle : Type 0 where
  pub name : String
  pub full_path : String

pub record FileInfo : Type 0 where
  pub attrs : ObjectAttrs

unfoldable pub open_file : GcsFs → String → Result Handle
open_file fs name =
    if valid_path name
    then (let name' = trim_slash_suffix (if text_eq name "." then "" else name) in
        ok (record { name = name'; full_path = join_path fs.prefix name' }))
    else err (path_error "open" name invalid)

unfoldable pub sub : GcsFs → String → GcsFs
sub fs dir = record fs { prefix = join_path fs.prefix dir }

-- The key of `object(name)` in the bucket.
abbrev pub object_key : GcsFs → String → String
object_key fs name = join_path fs.prefix name

-- What a call depends on beside its arguments: the readings of the clock when the cache is read and
-- when it is written, and the choices of the i-th eviction.
pub record Env : Type 0 where
  pub fs : GcsFs
  pub backend : Backend
  pub now : ℕ
  pub later : ℕ
  pub pick : ℕ → ℕ → ℕ → ℕ

abbrev set_cached : Env → String → Attrs → Option AttrCache → Option (Option AttrCache)
set_cached env key a none = some none
set_cached env key a (some c) = do
  c' ← Cache.set_attrs (env.pick 0) env.later key a c
  some (some c')

-- `if f.fs.cache != nil { f.fs.cache.set(cacheKey, attrs) }`
unfoldable pub cache_set : Env → String → Attrs → World → Option World
cache_set env key a w = do c ← set_cached env key a w.cache; some (record w { cache = c })

abbrev set_cached_not_found : Env → ℕ → String → Option AttrCache → Option (Option AttrCache)
set_cached_not_found env i key none = some none
set_cached_not_found env i key (some c) = do
  c' ← Cache.set_not_found (env.pick i) env.later key c
  some (some c')

-- `cacheNotFound`, as the i-th one of a call
unfoldable pub cache_not_found : Env → ℕ → Handle → World → Option World
cache_not_found env i f w = do
  c ← set_cached_not_found env i f.full_path w.cache
  some (record w { cache = c })

abbrev translate_other : Env → Handle → String → Error → Option Error → World → World × Error
translate_other env f op e none w = (
  report env.fs.hooks.on_event (backend_error env.fs.bucket_name f.full_path op e) w,
  path_error op f.name e,
)
translate_other env f op e (some inner) w = (w, path_error op f.name inner)

-- `translateError` of an error that is not nil
unfoldable pub translate_error : Env → Handle → String → Error → World → Option (World × Error)
translate_error env f op e w =
    if is_eof e
    then some (w, e)
    else if is_bucket_not_exist e || is_object_not_exist e
    then (do
      w' ← cache_not_found env 1 f w
      some (
        report env.fs.hooks.on_event (object_not_found env.fs.bucket_name f.full_path op) w',
        path_error op f.name not_exist,
      ))
    else some (translate_other env f op e (as_path_error e) w)

-- `return nil, f.translateError(op, err)`
abbrev pub fail {ℓ} :
    {A : Type ℓ} → Env → Handle → String → Error → World → Option (World × Result A)
fail env f op e w = translate_error env f op e w >>= λ (w', e'). some (w', err e')

-- `dirPrefix` of the directory probe, and the prefix of `iteratorFor`
unfoldable pub dir_prefix : GcsFs → String → String
dir_prefix fs name =
    let p = join_path fs.prefix name in if text_eq p "" then "" else String.◌++◌ p "/"

abbrev dir_attrs : String → ObjectAttrs
dir_attrs prefix = record { name = ""; prefix = prefix; size = 0; updated = 0 }

-- Cache the attributes and return them.
abbrev remember : Env → Handle → ObjectAttrs → World → Option (World × Result FileInfo)
remember env f a w = do
  w' ← cache_set env f.full_path (object a) w
  some (w', ok (record { attrs = a }))

abbrev after_probe : Env → Handle → Option Error → World → Option (World × Result FileInfo)
after_probe env f none w = remember env f (dir_attrs (String.◌++◌ f.name "/")) w
after_probe env f (some e) w = do
  w' ← (if is_done e then cache_not_found env 0 f w else some w)
  fail env f "stat" object_not_exist w'

-- The check for a directory.
unfoldable pub probe_dir : Env → Handle → World → Option (World × Result FileInfo)
probe_dir env f w =
    if not (text_eq (ext f.name) "")
    then fail env f "stat" object_not_exist w
    else (let e = env.backend.list_first (dir_prefix env.fs f.name) in
        after_probe env f e (report env.fs.hooks.on_gcs_op (gcs_op "list" e) w))

abbrev error_of {ℓ} : {A : Type ℓ} → Result A → Option Error
error_of (ok a) = none
error_of (err e) = some e

abbrev after_attrs : Env → Handle → Result ObjectAttrs → World → Option (World × Result FileInfo)
after_attrs env f (ok a) w = remember env f a w
after_attrs env f (err e) w =
    if is_object_not_exist e then probe_dir env f w else fail env f "stat" e w

-- `Stat` past the cache.
unfoldable pub stat_backend : Env → Handle → World → Option (World × Result FileInfo)
stat_backend env f w =
    if text_eq f.name ""
    then remember env f (dir_attrs "/") w
    else (let r = env.backend.attrs (object_key env.fs f.name) in
        after_attrs env f r (report env.fs.hooks.on_gcs_op (gcs_op "attrs" (error_of r)) w))

abbrev after_get :
    Env → Handle → World → AttrCache × Option Attrs → Option (World × Result FileInfo)
after_get env f w (c, none) =
    stat_backend env f (report env.fs.hooks.on_cache_miss cache_miss (record w { cache = some c }))
after_get env f w (c, some sentinel_not_found) =
    fail env f "stat" object_not_exist
      (report env.fs.hooks.on_cache_hit cache_hit (record w { cache = some c }))
after_get env f w (c, some (object a)) = some (
  report env.fs.hooks.on_cache_hit cache_hit (record w { cache = some c }),
  ok (record { attrs = a }),
)

abbrev stat_cached : Env → Handle → World → Option AttrCache → Option (World × Result FileInfo)
stat_cached env f w none = stat_backend env f w
stat_cached env f w (some c) = Cache.get env.now f.full_path c >>= after_get env f w

-- `(*gcsFile).Stat`
unfoldable pub stat : Env → Handle → World → Option (World × Result FileInfo)
stat env f w = stat_cached env f w w.cache

-- `(*gcsFS).Stat`; the `Close` of a file that was never read does nothing.
unfoldable pub fs_stat : Env → String → World → Option (World × Result FileInfo)
fs_stat env name w = elim (open_file env.fs name) [ err e ↦ some (w, err e) | ok f ↦ stat env f w ]

-- The methods of `gcsFileInfo`.
abbrev pub is_dir : FileInfo → Bool
is_dir fi = not (text_eq fi.attrs.prefix "")

unfoldable pub name_of : FileInfo → String
name_of fi = if not (text_eq fi.attrs.prefix "") then base fi.attrs.prefix else base fi.attrs.name

-- `fs.ModeDir`
abbrev mode_dir : ℕ
mode_dir = 2 ^ 31

unfoldable pub mode : FileInfo → ℕ
mode fi = if is_dir fi then mode_dir + 0o555 else 0o444
