-- ===== src/Fs/Polling.antt =====
-- pkg/gcs/fs/gcsfs.go: a client that asks for a missing path again and again.
use caddy_fs_gcs.Base.{
  ℕ, ◌+◌, ◌^◌, ◌<◌, ◌≤◌, ◌≡◌, refl, Option, some, arith, ◌>>=◌, List, [], ◌∷◌, map, +ℤ-pos,
}
use caddy_fs_gcs.Cache.{AttrCache, sentinel_not_found}
use caddy_fs_gcs.Cache.Reading.{visible}
use caddy_fs_gcs.Fs.Errors.{Result, err, not_exist, path_error}
use caddy_fs_gcs.Fs.{World, Handle, Env, FileInfo, stat}
use caddy_fs_gcs.Fs.Stating.{stat-expected}
use caddy_fs_gcs.Fs.Caching.{Chosen, IsSound}
use caddy_fs_gcs.Fs.Negative.{Denied, stat-renews}

-- A client that asks for a path again and again: one `Env` for each call.
unfoldable pub polls : List Env → Handle → World → Option (World × List (Result FileInfo))
polls [] f w = some (w, [])
polls (env ∷ envs) f w = do (w', r) ← stat env f w; (w'', rs) ← polls envs f w'; some (w'', r ∷ rs)

-- Each call reads the clock at most `lifetime` after the call before it wrote the cache.
abbrev pub Spaced : ℕ → ℕ → List Env → Type 0
Spaced lifetime t [] = Unit {0}
Spaced lifetime t (env ∷ envs) =
    Chosen env × (env.now ≤ t + lifetime) × (t + lifetime < 2 ^ 63) × Spaced lifetime env.later envs

Denied-visible :
    (f : Handle) (t l now : ℕ) (w : World) (d : Denied f t l w)
    → now ≤ t + l
    → t + l < 2 ^ 63
    → visible now f.full_path d.cache ≡ some sentinel_not_found
unfolding visible
Denied-visible f t l now w d h bound = rw (d.entry, +ℤ-pos t l bound) (ground arith)

-- The sound world after a denied `Stat`.
denied_IsSound :
    (env : Env) (chosen : Chosen env) (f : Handle) (c : AttrCache) (w w' : World)
    → IsSound w
    → stat env f w ≡ some (w', err (path_error "stat" f.name not_exist))
    → IsSound w'
denied_IsSound env chosen f c w w' h e =
    let (u, run, s) = stat-expected env chosen f w h in ground (arith, s)

-- While the cache denies a path, a client that asks for it again within `negTTL` of its last answer,
-- each time, is told "not exist" for ever: no answer of the bucket, such as the object that has been
-- created meanwhile, reaches it.
pub polls-Denied :
    (envs : List Env) (f : Handle) (t l : ℕ) (w : World)
    → IsSound w
    → Denied f t l w
    → Spaced l t envs
    → (w' : World) × (polls envs f w
        ≡ some (w', map (λ env. err (path_error "stat" f.name not_exist)) envs))
unfolding polls
polls-Denied [] f t l w h d s = (w, refl)
polls-Denied (env ∷ envs) f t l w h d (chosen, soon, bound, rest) =
    let (w₁, run, d₁) =
      stat-renews env chosen f d.cache w h d.here (Denied-visible f t l env.now w d soon bound) in
    let sound = denied_IsSound env chosen f d.cache w w₁ h run in
    let (w', run') = polls-Denied envs f env.later l w₁ sound (rw d.same_neg_ttl at d₁) rest in
    (w', rw (run, run'))
