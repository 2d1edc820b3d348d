-- ===== src/Fs/Refreshing.antt =====
-- pkg/gcs/fs/gcsfs.go: calls of `Stat`, and how long what they leave in the cache stays there.
use mathlib.Core.Path.{subst}
use caddy_fs_gcs.Base.{
  ℕ, ◌+◌, ◌^◌, ◌<◌, ◌≤◌, ◌≡◌, ◌⊎◌, refl, String, true, false, Option, none, some, List, [], ◌∷◌,
  arith, lookup, pos, ◌+ℤ◌, +ℤ-pos, ltb_ℤ, ◌>>=◌, inl, inr, Option-cases, text_dec, some_injective,
  sym, ◌∙◌,
}
use caddy_fs_gcs.Cache.{AttrCache, AttrEntry, Attrs, expired}
use caddy_fs_gcs.Cache.Valid.{IsValid}
use caddy_fs_gcs.Cache.Storing.{Stored}
use caddy_fs_gcs.Cache.Reading.{visible}
use caddy_fs_gcs.Fs.Errors.{Result}
use caddy_fs_gcs.Fs.{World, Handle, Env, Effect, FileInfo, stat}
use caddy_fs_gcs.Fs.Keeping.{IsCacheKept, InWorld, InWorld-IsKept}
use caddy_fs_gcs.Fs.Answering.{answer, expected, stat_keeps}
use caddy_fs_gcs.Fs.Stating.{stat-expected}
use caddy_fs_gcs.Fs.Caching.{Chosen, IsSound}

-- The entry has expired at every time after `t`.
abbrev EndsBy : ℕ → AttrEntry → Type 0
EndsBy t e = ltb_ℤ (pos t) e.expires_at ≡ false

-- A cache whose lifetimes are at most `life` and whose entries all expire by the time `t`.
pub record IsFresh (life t : ℕ) (c : AttrCache) : Type 0 where
  pub valid : IsValid c
  pub short : c.ttl ≤ life
  pub short_neg : c.neg_ttl ≤ life
  pub ends : (k : String) (e : AttrEntry) → lookup k c.entries ≡ some e → EndsBy t e

-- The cache of a filesystem, if it has one, is such a cache.
abbrev pub EndsIn : ℕ → ℕ → List Effect → Option AttrCache → Type 0
EndsIn life t log none = Unit {0}
EndsIn life t log (some c) = IsFresh life t c

abbrev pub EndsAll : ℕ → ℕ → World → Type 0
EndsAll life t = InWorld (EndsIn life t)

reported_ends :
    (life t : ℕ) (x : Effect) (log : List Effect) (m : Option AttrCache)
    → EndsIn life t log m
    → EndsIn life t (x ∷ log) m
reported_ends life t x log none v = tt
reported_ends life t x log (some c) v = v

module _ (life t : ℕ) (bound : t < 2 ^ 63) where
  entry_ends :
      (a : Attrs) (later l : ℕ)
      → later + l ≤ t
      → EndsBy t (record { attrs = a; expires_at = pos later +ℤ pos l })
  entry_ends a later l h = rw (+ℤ-pos later l (omega arith)) (ground arith)

  Stored-IsFresh :
      (now : ℕ) (key : String) (e : AttrEntry) (c c' : AttrCache)
      → Stored now key e c c'
      → EndsBy t e
      → IsFresh life t c
      → IsFresh life t c'
  Stored-IsFresh now key e c c' s h v = record {
    valid = s.valid;
    short = ground (arith, s.same.same_ttl, v.short);
    short_neg = ground (arith, s.same.same_neg_ttl, v.short_neg);
    ends = λ k d p. elim (text_dec k key) [
      | yes same ↦
          let at_key : lookup key c'.entries ≡ some d = rw same at p in
          subst (EndsBy t) (some_injective (sym s.stored ∙ at_key)) h
      | no other ↦ v.ends k d (s.kept k d other p)
    ];
  }

  -- An entry is written with one of the cache's lifetimes.
  short_enough :
      (c : AttrCache) (l : ℕ) → (l ≡ c.ttl) ⊎ (l ≡ c.neg_ttl) → IsFresh life t c → l ≤ life
  short_enough c l (inl e) v = ground (arith, e, v.short)
  short_enough c l (inr e) v = ground (arith, e, v.short_neg)

  fresh_kept : (env : Env) (f : Handle) → env.later + life ≤ t → IsCacheKept env f (EndsIn life t)
  fresh_kept env f early = record {
    valid = λ log c v. v.valid;
    reported = λ x log m other v. reported_ends life t x log m v;
    got = λ log c c' valid g v. record {
      valid = g.valid;
      short = ground (arith, g.same_ttl, v.short);
      short_neg = ground (arith, g.same_neg_ttl, v.short_neg);
      ends = λ k e p. v.ends k e (g.kept k e p);
    };
    written = λ a l log c c' either s v.
        Stored-IsFresh env.later f.full_path _ c c' s
          (entry_ends a env.later l (omega (arith, short_enough c l either v))) v;
  }

-- A `Stat` after every entry has expired.
expired_view :
    (t now : ℕ) (key : String) (e : AttrEntry) → EndsBy t e → t < now → expired now e ≡ true
expired_view t now key e h late = ground arith

fresh_view :
    (life t now : ℕ) (key : String) (c : AttrCache)
    → IsFresh life t c
    → t < now
    → visible now key c ≡ none
unfolding visible
fresh_view life t now key c v late = elim (Option-cases (lookup key c.entries)) [
  | inl absent ↦ rw absent refl
  | inr (e, here) ↦ rw (here, expired_view t now key e (v.ends key e here) late) refl
]

expected-answer :
    (life t : ℕ) (env : Env) (f : Handle) (log : List Effect) (m : Option AttrCache)
    → EndsIn life t log m
    → t < env.now
    → expected env f m ≡ answer env f
unfolding expected
expected-answer life t env f log none h late = refl
expected-answer life t env f log (some c) h late =
    rw (fresh_view life t env.now f.full_path c h late) refl

ends_sound :
    (life t : ℕ) (log : List Effect) (m : Option AttrCache)
    → EndsIn life t log m
    → IsSound (record { cache = m; log = log })
ends_sound life t log none h c p = absurd (ground arith)
ends_sound life t log (some c) h d p = ground (arith, h.valid)

-- Calls of `Stat`, one after the other.
pub record Call : Type 0 where
  pub env : Env
  pub file : Handle

unfoldable pub stat_all : List Call → World → Option (World × List (Result FileInfo))
stat_all [] w = some (w, [])
stat_all (call ∷ calls) w = do
  (w', r) ← stat call.env call.file w
  (w'', rs) ← stat_all calls w'
  some (w'', r ∷ rs)

-- Each call makes choices that `rand.IntN` can make, and writes the cache at most at `t - life`.
abbrev pub Early : ℕ → ℕ → List Call → Type 0
Early life t [] = Unit {0}
Early life t (call ∷ calls) = Chosen call.env × (call.env.later + life ≤ t) × Early life t calls

stat_all_keeps :
    (life t : ℕ)
    → t < 2 ^ 63
    → (calls : List Call) (w : World) → Early life t calls
    → EndsAll life t w
    → (w' : World) × (rs : List (Result FileInfo)) × (stat_all calls w ≡ some (w', rs))
      × EndsAll life t w'
unfolding stat_all
stat_all_keeps life t bound [] w early h = (w, [], refl, h)
stat_all_keeps life t bound (call ∷ calls) w (chosen, early, rest) h =
    let (w₁, run, h₁) =
      stat_keeps call.env call.file (EndsAll life t)
        (InWorld-IsKept call.env chosen call.file (EndsIn life t)
          (fresh_kept life t bound call.env call.file early))
        w h in
    let (w', rs, run', h') = stat_all_keeps life t bound calls w₁ rest h₁ in
    (w', expected call.env call.file w.cache ∷ rs, rw (run, run') refl, h')

-- What the bucket says is seen at last: on a filesystem without a cache, or with a consistent one whose
-- two lifetimes are at most `life` and whose entries expire by `t`, any calls of `Stat` on any
-- paths return, if each writes the cache by `t - life`, and after them a `Stat` of any path whose
-- reading of the clock is past `t` returns what the bucket says at that time, whatever any call
-- has cached.
pub stat_all-refreshes :
    (life t : ℕ) (calls : List Call) (env : Env) (f : Handle) (w : World)
    → t < 2 ^ 63
    → Early life t calls
    → EndsAll life t w
    → Chosen env
    → t < env.now
    → (w' w'' : World) × (rs : List (Result FileInfo)) × (stat_all calls w ≡ some (w', rs))
      × (stat env f w' ≡ some (w'', answer env f))
stat_all-refreshes life t calls env f w bound early h chosen late =
    let (w', rs, run, h') = stat_all_keeps life t bound calls w early h in
    let (w'', run', s) = stat-expected env chosen f w' (ends_sound life t w'.log w'.cache h') in
    (w', w'', rs, run, rw (expected-answer life t env f w'.log w'.cache h' late) at run')
