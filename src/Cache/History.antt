-- ===== src/Cache/History.antt =====
-- pkg/gcs/fs/attrcache.go: goroutines that share a cache. A step is one critical section of one
-- call, so a list of steps is any interleaving of any number of calls of `get`, `set` and
-- `setNotFound`; each step has its own reading of the clock and its own random choices.
use caddy_fs_gcs.Base.{
  ℕ, ◌≡◌, ◌≤◌, ◌<◌, ◌∙◌, refl, String, List, [], ◌∷◌, Option, some, arith, length, ◌>>=◌,
}
use caddy_fs_gcs.Cache.{
  AttrCache, Attrs, Found, absent, stale, fresh, add_one, read, reap, set_attrs, set_not_found,
  new_attr_cache,
}
use caddy_fs_gcs.Cache.Valid.{IsValid, new_attr_cache-IsValid}
use caddy_fs_gcs.Cache.Scanning.{InRange}
use caddy_fs_gcs.Cache.Storing.{set_attrs-Stored, set_not_found-Stored}
use caddy_fs_gcs.Cache.Reading.{reap-Reaped}

pub data Step : Type 0 where
  reads : ℕ → String → Step
  reaps : ℕ → String → Step
  sets : (ℕ → ℕ → ℕ) → ℕ → String → Attrs → Step
  sets_not_found : (ℕ → ℕ → ℕ) → ℕ → String → Step

-- A stale entry is counted after its second section.
abbrev pub count_read : AttrCache → Found → AttrCache
count_read c absent = record c { misses = add_one c.misses }
count_read c stale = c
count_read c (fresh a) = record c { hits = add_one c.hits }

unfoldable pub step : Step → AttrCache → Option AttrCache
step (reads now key) c = some (count_read c (read now key c))
step (reaps now key) c = do c' ← reap now key c; some (record c' { misses = add_one c'.misses })
step (sets int_n now key a) c = set_attrs int_n now key a c
step (sets_not_found int_n now key) c = set_not_found int_n now key c

unfoldable pub run : List Step → AttrCache → Option AttrCache
run [] c = some c
run (s ∷ steps) c = step s c >>= run steps

-- The random choices of a step are those that `rand.IntN` can make.
abbrev pub Chosen : Step → Type 0
Chosen (reads now key) = Unit {0}
Chosen (reaps now key) = Unit {0}
Chosen (sets int_n now key a) = InRange int_n
Chosen (sets_not_found int_n now key) = InRange int_n

abbrev pub AllChosen : List Step → Type 0
AllChosen [] = Unit {0}
AllChosen (s ∷ steps) = Chosen s × AllChosen steps

pub record Sound (max : ℕ) (c : AttrCache) : Type 0 where
  pub valid : IsValid c
  pub limit : c.max_entries ≡ max
  pub bounded : length c.entries ≤ max

recount :
    (c : AttrCache) (hits misses : ℕ)
    → IsValid c
    → IsValid (record c { hits = hits; misses = misses })
recount c hits misses v = record {
  indexed = v.indexed;
  same_keys = v.same_keys;
  distinct = v.distinct;
  sized = v.sized;
}

recount-Sound :
    (max : ℕ) (c : AttrCache) (hits misses : ℕ)
    → Sound max c
    → Sound max (record c { hits = hits; misses = misses })
recount-Sound max c hits misses h = record {
  valid = recount c hits misses h.valid;
  limit = h.limit;
  bounded = h.bounded;
}

count_read-Sound : (max : ℕ) (c : AttrCache) (f : Found) → Sound max c → Sound max (count_read c f)
count_read-Sound max c absent h = recount-Sound max c c.hits (add_one c.misses) h
count_read-Sound max c stale h = h
count_read-Sound max c (fresh a) h = recount-Sound max c (add_one c.hits) c.misses h

step-Sound :
    (max : ℕ) (s : Step) (c : AttrCache)
    → 0 < max
    → Chosen s
    → Sound max c
    → (c' : AttrCache) × (step s c ≡ some c') × Sound max c'
unfolding step
step-Sound max (reads now key) c pos ok h =
    (count_read c (read now key c), refl, count_read-Sound max c (read now key c) h)
step-Sound max (reaps now key) c pos ok h =
    let (c', run, r) = reap-Reaped now key c h.valid in
    (
      record c' { misses = add_one c'.misses },
      rw run,
      recount-Sound max c' c'.hits (add_one c'.misses) (record {
        valid = r.valid;
        limit = r.same.same_max ∙ h.limit;
        bounded = omega (arith, r.shrunk, h.bounded);
      }),
    )
step-Sound max (sets int_n now key a) c pos ok h =
    let (c', run, w) = set_attrs-Stored int_n ok now key a c h.valid in
    (
      c',
      run,
      record {
        valid = w.valid;
        limit = w.same.same_max ∙ h.limit;
        bounded = omega (
          arith,
          h.limit,
          w.same.same_max,
          w.bounded (omega (arith, h.limit)) (omega (arith, h.limit, h.bounded)),
        );
      },
    )
step-Sound max (sets_not_found int_n now key) c pos ok h =
    let (c', run, w) = set_not_found-Stored int_n ok now key c h.valid in
    (
      c',
      run,
      record {
        valid = w.valid;
        limit = w.same.same_max ∙ h.limit;
        bounded = omega (
          arith,
          h.limit,
          w.same.same_max,
          w.bounded (omega (arith, h.limit)) (omega (arith, h.limit, h.bounded)),
        );
      },
    )

pub run-Sound :
    (max : ℕ) (steps : List Step) (c : AttrCache)
    → 0 < max
    → AllChosen steps
    → Sound max c
    → (c' : AttrCache) × (run steps c ≡ some c') × Sound max c'
unfolding run
run-Sound max [] c pos ok h = (c, refl, h)
run-Sound max (s ∷ steps) c pos ok h =
    let (d, one, k) = step-Sound max s c pos ok.0 h in
    let (c', rest, l) = run-Sound max steps d pos ok.1 k in (c', rw one rest, l)

-- From a new cache with a positive limit, no interleaving of the critical sections of any calls
-- panics; it leaves a cache whose slice and maps agree and that holds at most `maxEntries` entries.
pub run-new_attr_cache :
    (ttl max : ℕ) (steps : List Step)
    → 0 < max
    → AllChosen steps
    → (c' : AttrCache) × (run steps (new_attr_cache ttl max) ≡ some c') × Sound max c'
unfolding new_attr_cache
run-new_attr_cache ttl max steps pos ok =
    run-Sound max steps (new_attr_cache ttl max) pos ok
      (record { valid = new_attr_cache-IsValid ttl max; limit = refl; bounded = omega arith })
