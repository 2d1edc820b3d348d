-- ===== src/Fs/Remembering.antt =====
-- pkg/gcs/fs/gcsfs.go: what a `Stat` that succeeds leaves in the cache for the next one.
use text.Mathlib.Text.{◌==◌ as text_eq}
use caddy_fs_gcs.Base.{
  ◌+◌, ◌^◌, ◌<◌, ◌≤◌, ◌≡◌, refl, ◌∙◌, Bool, true, false, Option, none, some, arith, lookup,
  Bool-cases, inl, inr, pos, ◌+ℤ◌, +ℤ-pos,
}
use caddy_fs_gcs.Cache.{AttrCache, ObjectAttrs, object}
use caddy_fs_gcs.Cache.Reading.{visible, get-Got}
use caddy_fs_gcs.Paths.{ext}
use caddy_fs_gcs.Fs.Errors.{Error, Result, ok, err, is_object_not_exist}
use caddy_fs_gcs.Fs.{
  World, Handle, Env, FileInfo, report, remember, dir_prefix, object_key, after_probe, after_attrs,
  probe_dir, stat_backend, stat, error_of, gcs_op, cache_hit, cache_miss,
}
use caddy_fs_gcs.Fs.Answering.{report-cache, answer, dir_answer, object_answer}
use caddy_fs_gcs.Fs.Stating.{report-IsSound}
use caddy_fs_gcs.Fs.Caching.{Chosen, IsSound, cache_set-Written}

-- The world in which a call ends by remembering what it returns.
abbrev Remembers : Env → Handle → FileInfo → World → Option (World × Result FileInfo) → Type 0
Remembers env f fi w m =
    (w₁ : World) × (w₁.cache ≡ w.cache)
    × (IsSound w → IsSound w₁)
    × (m ≡ remember env f fi.attrs w₁)

module _ (env : Env) (f : Handle) (fi : FileInfo) where
  probe-Remembers :
      (m : Option Error) (w : World)
      → dir_answer f m ≡ ok fi
      → Remembers env f fi w (after_probe env f m w)
  probe-Remembers none w h = (w, refl, λ s. s, ground arith)
  probe-Remembers (some x) w h = absurd (ground arith)

  attrs-Remembers :
      (r : Result ObjectAttrs) (w : World)
      → object_answer env f r ≡ ok fi
      → Remembers env f fi w (after_attrs env f r w)
  unfolding probe_dir
  attrs-Remembers (ok a) w h = (w, refl, λ s. s, ground arith)
  attrs-Remembers (err e) w h = elim (Bool-cases (is_object_not_exist e)) [
    | inr other ↦ absurd (ground arith)
    | inl gone ↦ elim (Bool-cases (text_eq (ext f.name) "")) [
      | inr file ↦ absurd (ground arith)
      | inl bare ↦
          let m = env.backend.list_first (dir_prefix env.fs f.name) in
          let op = env.fs.hooks.on_gcs_op in
          let (w₁, same, sound, e') =
            probe-Remembers m (report op (gcs_op "list" m) w) (ground arith) in
          (
            w₁,
            same ∙ report-cache op (gcs_op "list" m) w,
            λ s. sound (report-IsSound op (gcs_op "list" m) w s),
            rw (gone, bare) e',
          )
    ]
  ]

  -- A `Stat` past the cache that succeeds ends by remembering what it returns.
  stat_backend-Remembers :
      (w : World) → answer env f ≡ ok fi → Remembers env f fi w (stat_backend env f w)
  unfolding stat_backend answer
  stat_backend-Remembers w h = elim (Bool-cases (text_eq f.name "")) [
    | inl at_root ↦ (w, refl, λ s. s, ground arith)
    | inr below ↦
        let r = env.backend.attrs (object_key env.fs f.name) in
        let op = env.fs.hooks.on_gcs_op in
        let x = gcs_op "attrs" (error_of r) in
        let (w₁, same, sound, e) = attrs-Remembers r (report op x w) (ground arith) in
        (w₁, same ∙ report-cache op x w, λ s. sound (report-IsSound op x w s), rw below e)
  ]

module _ (env : Env) (chosen : Chosen env) (f : Handle) (fi : FileInfo) where
  -- What the cache holds after that.
  stat_backend-Holds :
      (c : AttrCache) (w : World)
      → IsSound w
      → w.cache ≡ some c
      → answer env f ≡ ok fi
      → (w' : World) × (c' : AttrCache) × (stat_backend env f w ≡ some (w', ok fi))
        × (w'.cache ≡ some c')
        × IsSound w'
        × (lookup f.full_path c'.entries
            ≡ some (record { attrs = object fi.attrs; expires_at = pos env.later +ℤ pos c.ttl }))
  stat_backend-Holds c w h here e =
      let (w₁, same, sound, run) = stat_backend-Remembers env f fi w e in
      let (w', run', s) = cache_set-Written env chosen f.full_path (object fi.attrs) w₁ (sound h) in
      let here₁ = same ∙ here in
      let (c', here') = s.still_cached c here₁ in
      (w', c', rw run (ground (arith, run')), here', s.sound, ground (arith, s.holds c' here'))

-- A `Stat` that the cache answers reports a hit and asks the bucket for nothing.
stat-hit :
    (env : Env) (f : Handle) (fi : FileInfo) (c : AttrCache) (w : World)
    → IsSound w
    → w.cache ≡ some c
    → visible env.now f.full_path c ≡ some (object fi.attrs)
    → (w' : World) × (stat env f w ≡ some (w', ok fi))
      × (w'.log ≡ (report env.fs.hooks.on_cache_hit cache_hit w).log)
unfolding stat
stat-hit env f fi c w h here seen =
    let (c', run, g) = get-Got env.now f.full_path c (h c here) in
    (
      report env.fs.hooks.on_cache_hit cache_hit (record w { cache = some c' }),
      rw (here, run, seen),
      report-log env.fs.hooks.on_cache_hit (some c') w,
    )
  where
    report-log :
        (b : Bool) (m : Option AttrCache) (w : World)
        → (report b cache_hit (record w { cache = m })).log ≡ (report b cache_hit w).log
    report-log true m w = refl
    report-log false m w = refl

module _ (env : Env) (chosen : Chosen env) (f : Handle) (fi : FileInfo) where
  stat-first :
      (c : AttrCache) (w : World)
      → IsSound w
      → w.cache ≡ some c
      → visible env.now f.full_path c ≡ none
      → answer env f ≡ ok fi
      → (w' : World) × (c' : AttrCache) × (stat env f w ≡ some (w', ok fi))
        × (w'.cache ≡ some c')
        × IsSound w'
        × (lookup f.full_path c'.entries
            ≡ some (record { attrs = object fi.attrs; expires_at = pos env.later +ℤ pos c.ttl }))
  unfolding stat
  stat-first c w h here unseen e =
      let (c₁, run, g) = get-Got env.now f.full_path c (h c here) in
      let miss = env.fs.hooks.on_cache_miss in
      let w₁ : World = record { cache = some c₁; log = w.log } in
      let sound : IsSound w₁ = λ d p. ground (arith, g.valid) in
      let (w', c', run', here', sound', holds) =
        stat_backend-Holds env chosen f fi c₁ (report miss cache_miss w₁)
          (report-IsSound miss cache_miss w₁ sound) (report-cache miss cache_miss w₁) e in
      (w', c', rw (here, run, unseen) run', here', sound', rw g.same_ttl at holds)

  -- What the bucket has answered once is answered from the cache for as long as `ttl` says: if the
  -- cache does not show a path and the bucket's answer is a file or a directory, then `Stat` returns
  -- it, and a second `Stat` at most `ttl` after the entry was written returns it again, whatever the
  -- bucket would say by then, and reports nothing but a cache hit.
  pub stat-again :
      (env' : Env) (c : AttrCache) (w : World)
      → IsSound w
      → w.cache ≡ some c
      → visible env.now f.full_path c ≡ none
      → answer env f ≡ ok fi
      → env.later + c.ttl < 2 ^ 63
      → env'.now ≤ env.later + c.ttl
      → (w' w'' : World) × (stat env f w ≡ some (w', ok fi))
        × (stat env' f w' ≡ some (w'', ok fi))
        × (w''.log ≡ (report env'.fs.hooks.on_cache_hit cache_hit w').log)
  unfolding visible
  stat-again env' c w h here unseen e bound soon =
      let (w', c', run, here', sound, holds) = stat-first c w h here unseen e in
      let seen : visible env'.now f.full_path c' ≡ some (object fi.attrs) =
        rw (holds, +ℤ-pos env.later c.ttl bound) (ground arith) in
      let (w'', run', log) = stat-hit env' f fi c' w' sound here' seen in (w', w'', run, run', log)
