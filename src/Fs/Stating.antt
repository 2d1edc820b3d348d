-- ===== src/Fs/Stating.antt =====
-- pkg/gcs/fs/gcsfs.go: the result of `Stat`, against the bucket and what the cache shows.
use caddy_fs_gcs.Base.{◌≡◌, Option, none, String, Bool, true, false, some, arith}
use caddy_fs_gcs.Cache.{AttrCache, Attrs, ObjectAttrs, sentinel_not_found, object}
use caddy_fs_gcs.Cache
use caddy_fs_gcs.Cache.Valid.{IsValid}
use caddy_fs_gcs.Cache.Reading.{visible, get-Got}
use caddy_fs_gcs.Fs.Errors.{Error}
use caddy_fs_gcs.Fs.{
  World, Handle, Env, Effect, report, translate_error, stat, cache_hit, cache_miss,
}
use caddy_fs_gcs.Fs.Caching.{Chosen, IsSound, cache_set-Written, cache_not_found-Written}
use caddy_fs_gcs.Fs.Answering.{
  IsKept, report_lookup, translated, expected, stat_keeps, translate_error_keeps,
}

pub report-IsSound : (b : Bool) (x : Effect) (w : World) → IsSound w → IsSound (report b x w)
report-IsSound true x w h = h
report-IsSound false x w h = h

module _ (env : Env) (chosen : Chosen env) (f : Handle) where
  looked_up-IsSound :
      (m : Option Attrs) (c : AttrCache) (w : World)
      → IsValid c
      → IsSound (report_lookup env m (record w { cache = some c }))
  looked_up-IsSound none c w v =
      report-IsSound env.fs.hooks.on_cache_miss cache_miss _ (λ d p. ground (arith, v))
  looked_up-IsSound (some a) c w v =
      report-IsSound env.fs.hooks.on_cache_hit cache_hit _ (λ d p. ground (arith, v))

  IsSound-IsKept : IsKept env f IsSound
  IsSound-IsKept = record {
    reported = λ b x w other h. report-IsSound b x w h;
    looked_up = λ c w h here.
        let (c', run, g) = Cache.Reading.get-Got env.now f.full_path c (h c here) in
        (c', run, looked_up-IsSound (visible env.now f.full_path c) c' w g.valid);
    remembered = λ a w h.
        let (w', run, s) = cache_set-Written env chosen f.full_path a w h in (w', run, s.sound);
    denied = λ i w h.
        let (w', run, s) = cache_not_found-Written env chosen i f w h in (w', run, s.sound);
  }

  -- On a filesystem whose cache, if there is one, is consistent, `Stat` does not panic and leaves the
  -- cache consistent. It returns the attributes that the cache shows for the path, or "not exist" if
  -- that is the sentinel; if the cache shows nothing, or there is none, it returns what the bucket
  -- says: a directory for the root, the object of that name, the translated error if asking for it
  -- failed otherwise than by "not exist", a directory if the name has no extension and the listing
  -- below it has an entry, and "not exist" in every other case.
  pub stat-expected :
      (w : World)
      → IsSound w
      → (w' : World) × (stat env f w ≡ some (w', expected env f w.cache)) × IsSound w'
  stat-expected w h = stat_keeps env f IsSound IsSound-IsKept w h

  -- `translateError` does not panic.
  pub translate_error-translated :
      (op : String) (e : Error) (w : World)
      → IsSound w
      → (w' : World) × (translate_error env f op e w ≡ some (w', translated op f e)) × IsSound w'
  translate_error-translated op e w h = translate_error_keeps env f IsSound IsSound-IsKept op e w h
