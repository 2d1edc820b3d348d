-- ===== src/Fs/Caching.antt =====
-- pkg/gcs/fs/gcsfs.go: what the calls that write to the shared cache, `cache.set`, `cacheNotFound` and
-- `translateError`, leave there.
use caddy_fs_gcs.Base.{ℕ, ◌≡◌, refl, String, Option, none, some, arith, lookup, pos, ◌+ℤ◌, List}
use caddy_fs_gcs.Cache.{AttrCache, AttrEntry, Attrs, sentinel_not_found}
use caddy_fs_gcs.Cache.Valid.{IsValid}
use caddy_fs_gcs.Cache.Scanning.{InRange}
use caddy_fs_gcs.Cache.Storing.{Stored, set_attrs-Stored, set_not_found-Stored}
use caddy_fs_gcs.Fs.{World, Handle, Env, Effect, cache_set, cache_not_found}

-- The random choices of a call are those that `rand.IntN` can make.
abbrev pub Chosen : Env → Type 0
Chosen env = (i : ℕ) → InRange (env.pick i)

-- The cache of a filesystem, if it has one, is consistent.
abbrev pub IsSound : World → Type 0
IsSound w = (c : AttrCache) → w.cache ≡ some c → IsValid c

-- What the cache shows of a key after a write of an entry, if there is a cache.
abbrev pub Holds : String → AttrEntry → World → Type 0
Holds key e w = (c : AttrCache) → w.cache ≡ some c → lookup key c.entries ≡ some e

-- The entry that a write makes with the lifetime of the cache before it.
abbrev pub entry_of : Env → World → Attrs → (AttrCache → ℕ) → AttrEntry
entry_of env w a lifetime = record {
  attrs = a;
  expires_at = pos env.later +ℤ pos (elim w.cache [ none ↦ 0 | some c ↦ lifetime c ]);
}

-- What a write to the cache leaves.
pub record Written (key : String) (e : AttrEntry) (w w' : World) : Type 0 where
  pub sound : IsSound w'
  pub holds : Holds key e w'
  pub same_log : w'.log ≡ w.log
  pub still_cached : (c : AttrCache) → w.cache ≡ some c → (c' : AttrCache) × (w'.cache ≡ some c')
  pub uncached : w.cache ≡ none → w'.cache ≡ none
  pub same_neg_ttl :
      (c c' : AttrCache) → w.cache ≡ some c → w'.cache ≡ some c' → c'.neg_ttl ≡ c.neg_ttl

cached_Written :
    (now : ℕ) (key : String) (e : AttrEntry) (c c' : AttrCache) (w : World)
    → w.cache ≡ some c
    → Stored now key e c c'
    → Written key e w (record w { cache = some c' })
cached_Written now key e c c' w h s = record {
  sound = λ d p. ground (arith, s.valid);
  holds = λ d p. ground (arith, s.stored);
  same_log = refl;
  still_cached = λ d p. (c', refl);
  uncached = λ p. ground arith;
  same_neg_ttl = λ d d' p q. ground (arith, s.same.same_neg_ttl);
}

uncached_Written :
    (key : String) (e : AttrEntry) (w : World)
    → w.cache ≡ none
    → Written key e w (record w { cache = none })
uncached_Written key e w h = record {
  sound = λ c p. absurd (ground arith);
  holds = λ c p. absurd (ground arith);
  same_log = refl;
  still_cached = λ c p. absurd (ground arith);
  uncached = λ p. refl;
  same_neg_ttl = λ c c' p q. ground arith;
}

module _ (env : Env) (chosen : Chosen env) where
  set_at :
      (key : String) (a : Attrs) (log : List Effect) (m : Option AttrCache)
      → IsSound (record { cache = m; log = log })
      → (w' : World) × (cache_set env key a (record { cache = m; log = log }) ≡ some w')
        × Written key
            (entry_of env (record { cache = m; log = log }) a (λ c. c.ttl))
            (record { cache = m; log = log })
            w'
  unfolding cache_set
  set_at key a log none h =
      (record { cache = none; log = log }, refl, uncached_Written key _ _ refl)
  set_at key a log (some c) h =
      let (c', run, s) = set_attrs-Stored (env.pick 0) (chosen 0) env.later key a c (h c refl) in
      (
        record { cache = some c'; log = log },
        rw run,
        cached_Written env.later key _ c c' (record { cache = some c; log = log }) refl s,
      )

  -- `cache.set` on the shared cache does not panic.
  pub cache_set-Written :
      (key : String) (a : Attrs) (w : World)
      → IsSound w
      → (w' : World) × (cache_set env key a w ≡ some w')
        × Written key (entry_of env w a (λ c. c.ttl)) w w'
  cache_set-Written key a w h = set_at key a w.log w.cache h

  not_found_at :
      (i : ℕ) (f : Handle) (log : List Effect) (m : Option AttrCache)
      → IsSound (record { cache = m; log = log })
      → (w' : World) × (cache_not_found env i f (record { cache = m; log = log }) ≡ some w')
        × Written f.full_path
            (entry_of env (record { cache = m; log = log }) sentinel_not_found (λ c. c.neg_ttl))
            (record { cache = m; log = log })
            w'
  unfolding cache_not_found
  not_found_at i f log none h =
      (record { cache = none; log = log }, refl, uncached_Written f.full_path _ _ refl)
  not_found_at i f log (some c) h =
      let (c', run, s) =
        set_not_found-Stored (env.pick i) (chosen i) env.later f.full_path c (h c refl) in
      (
        record { cache = some c'; log = log },
        rw run,
        cached_Written env.later f.full_path _ c c' (record { cache = some c; log = log }) refl s,
      )

  -- Nor does `setNotFound`.
  pub cache_not_found-Written :
      (i : ℕ) (f : Handle) (w : World)
      → IsSound w
      → (w' : World) × (cache_not_found env i f w ≡ some w')
        × Written f.full_path (entry_of env w sentinel_not_found (λ c. c.neg_ttl)) w w'
  cache_not_found-Written i f w h = not_found_at i f w.log w.cache h
