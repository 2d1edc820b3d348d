-- ===== src/Fs/Negative.antt =====
-- pkg/gcs/fs/gcsfs.go: what a `Stat` that finds nothing leaves in the cache for the next one.
use text.Mathlib.Text.{◌==◌ as text_eq}
use caddy_fs_gcs.Base.{
  ℕ, ◌≡◌, ◌∙◌, Bool, true, false, Option, none, some, arith, lookup, Bool-cases, inl, inr, pos,
  ◌+ℤ◌,
}
use caddy_fs_gcs.Cache.{AttrCache, sentinel_not_found}
use caddy_fs_gcs.Cache.Valid.{IsValid}
use caddy_fs_gcs.Cache.Reading.{visible, get-Got}
use caddy_fs_gcs.Paths.{ext}
use caddy_fs_gcs.Fs.Errors.{
  Error, Result, err, object_not_exist, not_exist, path_error, root, is_done, is_object_not_exist,
}
use caddy_fs_gcs.Fs.{
  World, Handle, Env, Effect, FileInfo, report, translate_error, fail, dir_prefix, object_key,
  after_probe, probe_dir, stat_backend, stat, gcs_op, cache_hit, cache_miss, object_not_found,
  cache_not_found,
}
use caddy_fs_gcs.Fs.Answering.{report-cache}
use caddy_fs_gcs.Fs.Stating.{report-IsSound}
use caddy_fs_gcs.Fs.Caching.{Chosen, IsSound, Written, entry_of, cache_not_found-Written}

-- The cache shows that the path does not exist, until the time given.
pub record Denied (f : Handle) (until lifetime : ℕ) (w : World) : Type 0 where
  pub cache : AttrCache
  pub here : w.cache ≡ some cache
  pub entry :
      lookup f.full_path cache.entries
      ≡ some (record { attrs = sentinel_not_found; expires_at = pos until +ℤ pos lifetime })
  pub same_neg_ttl : cache.neg_ttl ≡ lifetime

abbrev pub Denies : Env → Handle → AttrCache → Option (World × Result FileInfo) → Type 0
Denies env f c m =
    (w' : World) × (m ≡ some (w', err (path_error "stat" f.name not_exist)))
    × Denied f env.later c.neg_ttl w'

report-Denied :
    (b : Bool) (x : Effect) (f : Handle) (t l : ℕ) (w : World)
    → Denied f t l w
    → Denied f t l (report b x w)
report-Denied true x f t l w d = record {
  cache = d.cache;
  here = d.here;
  entry = d.entry;
  same_neg_ttl = d.same_neg_ttl;
}
report-Denied false x f t l w d = d

-- The shape of the entry that `setNotFound` makes in the cache `d`.
not_found_Denied :
    (env : Env) (f : Handle) (w w' : World) (d : AttrCache)
    → w.cache ≡ some d
    → Written f.full_path (entry_of env w sentinel_not_found (λ d. d.neg_ttl)) w w'
    → Denied f env.later d.neg_ttl w'
not_found_Denied env f w w' d h s =
    let (c', e) = s.still_cached d h in
    record {
      cache = c';
      here = e;
      entry = ground (arith, s.holds c' e);
      same_neg_ttl = s.same_neg_ttl d c' h e;
    }

module _ (env : Env) (chosen : Chosen env) (f : Handle) where
  -- "Not exist" from any place in `Stat` is remembered, since `translateError` remembers it.
  fail-Denied :
      (d : AttrCache) (w : World)
      → IsSound w
      → w.cache ≡ some d
      → Denies env f d (fail env f "stat" object_not_exist w)
  unfolding translate_error root
  fail-Denied d w h e =
      let (w', run, s) = cache_not_found-Written env chosen 1 f w h in
      let x = object_not_found env.fs.bucket_name f.full_path "stat" in
      (
        report env.fs.hooks.on_event x w',
        rw run,
        report-Denied env.fs.hooks.on_event x f env.later d.neg_ttl w'
            (not_found_Denied env f w w' d e s),
      )

  after_done-Denied :
      (d : AttrCache) (e : Error) (w w' : World)
      → is_done e ≡ true
      → cache_not_found env 0 f w ≡ some w'
      → IsSound w'
      → Denied f env.later d.neg_ttl w'
      → Denies env f d (after_probe env f (some e) w)
  after_done-Denied d e w w' y run h n =
      let (u, run', t) = fail-Denied n.cache w' h n.here in
      (u, rw (y, run) run', rw n.same_neg_ttl at t)

  after_probe-Denied :
      (d : AttrCache) (e : Error) (w : World)
      → IsSound w
      → w.cache ≡ some d
      → Denies env f d (after_probe env f (some e) w)
  after_probe-Denied d e w h c = elim (Bool-cases (is_done e)) [
    | inl y ↦
        let (w', run, s) = cache_not_found-Written env chosen 0 f w h in
        after_done-Denied d e w w' y run s.sound (not_found_Denied env f w w' d c s)
    | inr n ↦ let (u, run, t) = fail-Denied d w h c in (u, rw n run, t)
  ]

  denied_backend :
      (d : AttrCache) (w : World) (e x : Error)
      → IsSound w
      → w.cache ≡ some d
      → text_eq f.name "" ≡ false
      → env.backend.attrs (object_key env.fs f.name) ≡ err e
      → is_object_not_exist e ≡ true
      → env.backend.list_first (dir_prefix env.fs f.name) ≡ some x
      → Denies env f d (stat_backend env f w)
  unfolding stat_backend probe_dir
  denied_backend d w e x h c below attrs gone listing =
      let op = env.fs.hooks.on_gcs_op in
      let w₁ = report op (gcs_op "attrs" (some e)) w in
      let h₁ = report-IsSound op (gcs_op "attrs" (some e)) w h in
      let c₁ = report-cache op (gcs_op "attrs" (some e)) w ∙ c in
      rw (below, attrs, gone)
        (elim (Bool-cases (text_eq (ext f.name) "")) [
          | inr file ↦ rw file (fail-Denied d w₁ h₁ c₁)
          | inl bare ↦
              rw (bare, listing)
                (after_probe-Denied d x (report op (gcs_op "list" (some x)) w₁)
                  (report-IsSound op (gcs_op "list" (some x)) w₁ h₁)
                  (report-cache op (gcs_op "list" (some x)) w₁ ∙ c₁))
        ])

  replace_cache : (c : AttrCache) (w : World) → IsValid c → IsSound (record w { cache = some c })
  replace_cache c w v d p = ground (arith, v)

  -- `Stat` of a path other than the root that the cache does not show, where the bucket has no such
  -- object and the listing below it ends in any error, be it the iterator's end or a failure of the
  -- service: the result is "not exist", and the cache denies the path until `later + negTTL`.
  pub stat-Denied :
      (c : AttrCache) (w : World) (e x : Error)
      → IsSound w
      → w.cache ≡ some c
      → text_eq f.name "" ≡ false
      → visible env.now f.full_path c ≡ none
      → env.backend.attrs (object_key env.fs f.name) ≡ err e
      → is_object_not_exist e ≡ true
      → env.backend.list_first (dir_prefix env.fs f.name) ≡ some x
      → Denies env f c (stat env f w)
  unfolding stat replace_cache
  stat-Denied c w e x h here below unseen attrs gone listing =
      let (c', run, g) = get-Got env.now f.full_path c (h c here) in
      let miss = env.fs.hooks.on_cache_miss in
      let w' : World = record w { cache = some c' } in
      let (u, run', t) =
        denied_backend c' (report miss cache_miss w') e x
          (report-IsSound miss cache_miss w' (replace_cache c' w g.valid))
          (report-cache miss cache_miss w') below attrs gone listing in
      (u, rw (here, run, unseen) run', rw g.same_neg_ttl at t)

  -- A `Stat` of a path that the cache denies returns "not exist" and starts its time anew: the cache
  -- denies the path until `later + negTTL`, whatever the bucket holds.
  pub stat-renews :
      (c : AttrCache) (w : World)
      → IsSound w
      → w.cache ≡ some c
      → visible env.now f.full_path c ≡ some sentinel_not_found
      → Denies env f c (stat env f w)
  unfolding stat replace_cache
  stat-renews c w h here denied =
      let (c', run, g) = get-Got env.now f.full_path c (h c here) in
      let hit = env.fs.hooks.on_cache_hit in
      let w' : World = record w { cache = some c' } in
      let (u, run', t) =
        fail-Denied c' (report hit cache_hit w')
          (report-IsSound hit cache_hit w' (replace_cache c' w g.valid))
          (report-cache hit cache_hit w') in
      (u, rw (here, run, denied) run', rw g.same_neg_ttl at t)
