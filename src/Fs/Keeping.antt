-- ===== src/Fs/Keeping.antt =====
-- pkg/gcs/fs/gcsfs.go: what the calls of the cache's methods keep, the calls of `Stat` keep.
use caddy_fs_gcs.Base.{
  ℕ, ◌≡◌, ◌⊎◌, inl, inr, refl, Bool, true, false, Option, none, some, List, ◌∷◌, pos, ◌+ℤ◌, sym,
}
use mathlib.Core.Path.{subst}
use caddy_fs_gcs.Cache.{AttrCache, Attrs, sentinel_not_found}
use caddy_fs_gcs.Cache
use caddy_fs_gcs.Cache.Valid.{IsValid}
use caddy_fs_gcs.Cache.Storing.{Stored, set_attrs-Stored, set_not_found-Stored}
use caddy_fs_gcs.Cache.Reading.{visible, Got, get-Got}
use caddy_fs_gcs.Fs.{
  World, Handle, Env, Effect, report, cache_set, cache_not_found, cache_hit, cache_miss,
}
use caddy_fs_gcs.Fs.Answering.{IsKept, report_lookup, is_lookup, report-cache}
use caddy_fs_gcs.Fs.Caching.{Chosen}

-- A predicate on the calls of the callbacks so far and on the cache, if there is one, that `get` with its
-- callback, `set` and `setNotFound`, as `Stat` calls them, and the other callbacks keep.
pub record IsCacheKept (env : Env) (f : Handle) (Q : List Effect → Option AttrCache → Type 0)
    : Type 0 where
  pub valid : (log : List Effect) (c : AttrCache) → Q log (some c) → IsValid c
  pub reported :
      (x : Effect) (log : List Effect) (m : Option AttrCache)
      → is_lookup x ≡ false
      → Q log m
      → Q (x ∷ log) m
  pub got :
      (log : List Effect) (c c' : AttrCache) (v : IsValid c)
      → Got env.now f.full_path c v c'
      → Q log (some c)
      → Q
          (report_lookup env
            (visible env.now f.full_path c)
            (record { cache = some c'; log = log })).log
          (some c')
  pub written :
      (a : Attrs) (l : ℕ) (log : List Effect) (c c' : AttrCache)
      → (l ≡ c.ttl) ⊎ (l ≡ c.neg_ttl)
      → Stored env.later f.full_path
          (record { attrs = a; expires_at = pos env.later +ℤ pos l })
          c
          c'
      → Q log (some c)
      → Q log (some c')

abbrev pub InWorld : (List Effect → Option AttrCache → Type 0) → World → Type 0
InWorld Q w = Q w.log w.cache

module _ (env : Env) (chosen : Chosen env) (f : Handle)
    (Q : List Effect → Option AttrCache → Type 0) (keep : IsCacheKept env f Q) where
  set_keeps :
      (a : Attrs) (log : List Effect) (m : Option AttrCache)
      → Q log m
      → (w' : World) × (cache_set env f.full_path a (record { cache = m; log = log }) ≡ some w')
        × InWorld Q w'
  unfolding cache_set
  set_keeps a log none q = (record { cache = none; log = log }, refl, q)
  set_keeps a log (some c) q =
      let (c', run, s) =
        set_attrs-Stored (env.pick 0) (chosen 0) env.later f.full_path a c (keep.valid log c q) in
      (
        record { cache = some c'; log = log },
        rw run refl,
        keep.written a c.ttl log c c' (inl refl) s q,
      )

  deny_keeps :
      (i : ℕ) (log : List Effect) (m : Option AttrCache)
      → Q log m
      → (w' : World) × (cache_not_found env i f (record { cache = m; log = log }) ≡ some w')
        × InWorld Q w'
  unfolding cache_not_found
  deny_keeps i log none q = (record { cache = none; log = log }, refl, q)
  deny_keeps i log (some c) q =
      let (c', run, s) =
        set_not_found-Stored (env.pick i) (chosen i) env.later f.full_path c (keep.valid log c q) in
      (
        record { cache = some c'; log = log },
        rw run refl,
        keep.written sentinel_not_found c.neg_ttl log c c' (inr refl) s q,
      )

  report_keeps :
      (b : Bool) (x : Effect) (w : World)
      → is_lookup x ≡ false
      → InWorld Q w
      → InWorld Q (report b x w)
  report_keeps true x w other q = keep.reported x w.log w.cache other q
  report_keeps false x w other q = q

  lookup_cache : (m : Option Attrs) (w : World) → (report_lookup env m w).cache ≡ w.cache
  lookup_cache none w = report-cache env.fs.hooks.on_cache_miss cache_miss w
  lookup_cache (some a) w = report-cache env.fs.hooks.on_cache_hit cache_hit w

  get_keeps :
      (c : AttrCache) (w : World)
      → InWorld Q w
      → w.cache ≡ some c
      → (c' : AttrCache) × (Cache.get env.now f.full_path c
          ≡ some (c', visible env.now f.full_path c))
        × InWorld Q
            (report_lookup env (visible env.now f.full_path c) (record w { cache = some c' }))
  get_keeps c w h here =
      let q : Q w.log (some c) = subst (Q w.log) here h in
      let v = keep.valid w.log c q in
      let (c', run, g) = get-Got env.now f.full_path c v in
      let seen = visible env.now f.full_path c in
      let after = report_lookup env seen (record w { cache = some c' }) in
      let same : after.cache ≡ some c' = lookup_cache seen (record w { cache = some c' }) in
      (c', run, subst (Q after.log) (sym same) (keep.got w.log c c' v g q))

  pub InWorld-IsKept : IsKept env f (InWorld Q)
  InWorld-IsKept = record {
    reported = report_keeps;
    looked_up = get_keeps;
    remembered = λ a w h. set_keeps a w.log w.cache h;
    denied = λ i w h. deny_keeps i w.log w.cache h;
  }
