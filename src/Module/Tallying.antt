-- ===== src/Module/Tallying.antt =====
-- pkg/gcs/fs/module.go: the counters of the cache against the metrics that the callbacks record.
use text.Mathlib.Text.{◌==◌ as text_eq}
use caddy_fs_gcs.Base.{
  ℕ, ◌%◌, ◌^◌, ◌≡◌, refl, ap, ◌∙◌, inl, inr, String, true, false, Option, none, some, List, [], ◌∷◌,
  ℤ, arith, Bool-cases,
}
use caddy_fs_gcs.Cache.{AttrCache, Attrs, new_attr_cache}
use caddy_fs_gcs.Cache.Valid.{IsValid, new_attr_cache-IsValid}
use caddy_fs_gcs.Cache.Reading.{Counted}
use caddy_fs_gcs.Metrics.{Metrics, Otel, Measurement, gcs_cache_hits, gcs_cache_misses, init}
use caddy_fs_gcs.Metrics.Measuring.{Delivers, init-AllLive}
use caddy_fs_gcs.Fs.Errors.{Result}
use caddy_fs_gcs.Fs.{
  World, Handle, Env, FileInfo, Effect, cache_hit, cache_miss, gcs_op, stream_bytes,
  object_not_found, backend_error, sub,
}
use caddy_fs_gcs.Fs.Answering.{report_lookup, is_lookup, stat_keeps, expected}
use caddy_fs_gcs.Fs.Caching.{Chosen}
use caddy_fs_gcs.Fs.Keeping.{IsCacheKept, InWorld, InWorld-IsKept}
use caddy_fs_gcs.Fs.Refreshing.{Call, stat_all}
use caddy_fs_gcs.Module.{Config, Environment, file_system}
use caddy_fs_gcs.Module.Reporting.{recorded, perform_all, counted}
use caddy_fs_gcs.Module.Releasing.{Instance, cache_stats}
use caddy_fs_gcs.Module.Counting.{
  measured, perform_all-measured, hit, miss, sum_of, counted-hit, counted-miss, counted-recorded,
}

-- The counters of the cache are those of the callbacks, as 64-bit numbers.
record Tallied (log : List Effect) (c : AttrCache) : Type 0 where
  valid : IsValid c
  hits : c.hits ≡ sum_of hit log % 2 ^ 64
  misses : c.misses ≡ sum_of miss log % 2 ^ 64

-- The cache is there, and its counters are.
abbrev TalliedIn : List Effect → Option AttrCache → Type 0
TalliedIn log none = ⊥
TalliedIn log (some c) = Tallied log c

module _ (env : Env) (f : Handle) (on_hit : env.fs.hooks.on_cache_hit ≡ true)
    (on_miss : env.fs.hooks.on_cache_miss ≡ true) where
  got_tally :
      (now : ℕ) (key : String) (m : Option Attrs) (log : List Effect) (c c' : AttrCache)
      (v : IsValid c)
      → IsValid c'
      → Counted now key c v m c'
      → Tallied log c
      → Tallied (report_lookup env m (record { cache = some c'; log = log })).log c'
  unfolding sum_of
  got_tally now key none log c c' v v' n t =
      rw on_miss (record {
        valid = v';
        hits = omega (arith, n, t.hits);
        misses = omega (arith, n, t.misses);
      })
  got_tally now key (some a) log c c' v v' n t =
      rw on_hit (record {
        valid = v';
        hits = omega (arith, n, t.hits);
        misses = omega (arith, n, t.misses);
      })

  tally_reported :
      (x : Effect) (log : List Effect) (c : AttrCache)
      → is_lookup x ≡ false
      → Tallied log c
      → Tallied (x ∷ log) c
  unfolding sum_of
  tally_reported cache_hit log c other t = cc
  tally_reported cache_miss log c other t = cc
  tally_reported (gcs_op op e) log c other t = record {
    valid = t.valid;
    hits = omega (arith, t.hits);
    misses = omega (arith, t.misses);
  }
  tally_reported (stream_bytes n) log c other t = record {
    valid = t.valid;
    hits = omega (arith, t.hits);
    misses = omega (arith, t.misses);
  }
  tally_reported (object_not_found b o op) log c other t = record {
    valid = t.valid;
    hits = omega (arith, t.hits);
    misses = omega (arith, t.misses);
  }
  tally_reported (backend_error b o op e) log c other t = record {
    valid = t.valid;
    hits = omega (arith, t.hits);
    misses = omega (arith, t.misses);
  }

  tallied_reported :
      (x : Effect) (log : List Effect) (m : Option AttrCache)
      → is_lookup x ≡ false
      → TalliedIn log m
      → TalliedIn (x ∷ log) m
  tallied_reported x log none other t = elim t [ ]
  tallied_reported x log (some c) other t = tally_reported x log c other t

  Tallied-kept : IsCacheKept env f TalliedIn
  Tallied-kept = record {
    valid = λ log c t. t.valid;
    reported = tallied_reported;
    got = λ log c c' v g t. got_tally env.now f.full_path _ log c c' v g.valid g.counted t;
    written = λ a l log c c' either s t. record {
      valid = s.valid;
      hits = s.same.same_hits ∙ t.hits;
      misses = s.same.same_misses ∙ t.misses;
    };
  }

hooks_on :
    (env : Environment) (c : Config)
    → ((file_system env c).hooks.on_cache_hit ≡ true)
      × ((file_system env c).hooks.on_cache_miss ≡ true)
unfolding file_system sub
hooks_on env c = elim (Bool-cases (text_eq c.path_prefix "")) [
  | inl y ↦ rw y (refl, refl)
  | inr n ↦ rw n (refl, refl)
]

-- The calls are made on the filesystem of a module, with choices that `rand.IntN` can make.
abbrev pub OnModule : Environment → Config → List Call → Type 0
OnModule env c [] = Unit {0}
OnModule env c (call ∷ calls) =
    (call.env.fs ≡ file_system env c) × Chosen call.env × OnModule env c calls

module _ (env : Environment) (c : Config) where
  stat_all_tallies :
      (calls : List Call) (w : World)
      → OnModule env c calls
      → InWorld TalliedIn w
      → (w' : World) × (rs : List (Result FileInfo)) × (stat_all calls w ≡ some (w', rs))
        × InWorld TalliedIn w'
  unfolding stat_all
  stat_all_tallies [] w on t = (w, [], refl, t)
  stat_all_tallies (call ∷ calls) w (same, chosen, on) t =
      let (hit_on, miss_on) = hooks_on env c in
      let kept =
        Tallied-kept call.env call.file (ap (λ fs. fs.hooks.on_cache_hit) same ∙ hit_on)
          (ap (λ fs. fs.hooks.on_cache_miss) same ∙ miss_on) in
      let (w₁, run, t₁) =
        stat_keeps call.env call.file (InWorld TalliedIn)
          (InWorld-IsKept call.env chosen call.file TalliedIn kept) w t in
      let (w', rs, run', t') = stat_all_tallies calls w₁ on t₁ in
      (w', expected call.env call.file w.cache ∷ rs, rw (run, run') refl, t')

stats-counted :
    {Client : Type 0} (inst : Instance Client) (log : List Effect) (m : Option AttrCache)
    → TalliedIn log m
    → cache_stats (record inst { cache = m }) ≡ (sum_of hit log % 2 ^ 64, sum_of miss log % 2 ^ 64)
unfolding cache_stats
stats-counted inst log none t = elim t [ ]
stats-counted inst log (some c) t = rw (t.hits, t.misses) refl

started-Tallied : (ttl max : ℕ) → Tallied [] (new_attr_cache ttl max)
unfolding new_attr_cache sum_of
started-Tallied ttl max = record {
  valid = new_attr_cache-IsValid ttl max;
  hits = refl;
  misses = refl;
}

-- The counters that `CacheStats` reports agree with the metrics: after a first `Init` without an error
-- and any calls of `Stat` on the filesystem of a module, which starts with an empty cache, the callbacks
-- have recorded everything without a panic, and `CacheStats` is what they have added to the counters
-- of cache hits and of cache misses, as 64-bit numbers. It is assumed that a constructor of
-- OpenTelemetry which returns no error returns an instrument.
pub stat_all-tallies :
    {Client : Type 0} (otel : Otel) (m m' : Metrics) (env : Environment) (c : Config) (ttl max : ℕ)
    (durations : ℕ → ℤ) (calls : List Call) (inst : Instance Client)
    → Delivers otel
    → m.init_once.done ≡ false
    → init otel m ≡ some (m', none)
    → OnModule env c calls
    → (w' : World) × (rs : List (Result FileInfo)) × (ms : List Measurement) × (stat_all calls
          (record { cache = some (new_attr_cache ttl max); log = [] })
        ≡ some (w', rs))
      × (perform_all m' (recorded c.bucket_name durations w'.log) ≡ some ms)
      × (cache_stats (record inst { cache = w'.cache })
          ≡ (counted gcs_cache_hits ms % 2 ^ 64, counted gcs_cache_misses ms % 2 ^ 64))
stat_all-tallies otel m m' env c ttl max durations calls inst delivers d e on =
    let live = init-AllLive otel delivers m m' d e in
    let (w', rs, run, t) =
      stat_all_tallies env c calls (record { cache = some (new_attr_cache ttl max); log = [] }) on
        (started-Tallied ttl max) in
    let bucket = c.bucket_name in
    (
      w',
      rs,
      measured (recorded bucket durations w'.log),
      run,
      perform_all-measured m' (recorded bucket durations w'.log) live,
      rw
          (
            counted-recorded gcs_cache_hits hit bucket durations (counted-hit bucket) w'.log,
            counted-recorded gcs_cache_misses miss bucket durations (counted-miss bucket) w'.log,
          )
          (stats-counted inst w'.log w'.cache t),
    )
