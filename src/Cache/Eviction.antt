-- ===== src/Cache/Eviction.antt =====
-- pkg/gcs/fs/attrcache.go: `evictIfNeeded`, whatever entries `rand.IntN` picks.
use caddy_fs_gcs.Base.{
  ℕ, suc, ◌-◌, ◌≡◌, ◌≤◌, ◌<◌, ◌⊎◌, inl, inr, refl, ◌∙◌, ap, String, none, some, true, false, arith,
  lookup, length, min, ltb, get_elem?-lt, lookup-erase, Option-cases, Bool-cases,
}
use caddy_fs_gcs.Cache.{
  AttrCache, AttrEntry, Scan, expired, scan, evict_oldest, evict_if_needed, evict_sample_size,
}
use caddy_fs_gcs.Cache.Valid.{IsValid, SameConfig, SameConfig-refl}
use caddy_fs_gcs.Cache.Removal.{Removed, evict_at-Removed}
use caddy_fs_gcs.Cache.Scanning.{Scanned, Progress, InRange, scan-Scanned}

-- What a call of `evictIfNeeded` leaves.
pub record Evicted (now : ℕ) (c c' : AttrCache) : Type 0 where
  pub valid : IsValid c'
  pub same : SameConfig c c'
  pub shrunk : length c'.entries ≤ length c.entries
  pub room :
      c.max_entries ≤ length c.entries → 0 < length c.entries → length c'.entries < length c.entries
  pub kept :
      (k : String) (e : AttrEntry) → lookup k c'.entries ≡ some e → lookup k c.entries ≡ some e
  pub spared :
      ((k : String) (e : AttrEntry)
        → lookup k c.entries ≡ some e
        → expired now e ≡ false
        → lookup k c'.entries ≡ some e)
      ⊎ ((k : String) × Removed k c c')

module _ (now : ℕ) (c : AttrCache) where
  unchanged-Evicted :
      IsValid c → (c.max_entries ≤ length c.entries → ¬ (0 < length c.entries)) → Evicted now c c
  unchanged-Evicted v none_needed = record {
    valid = v;
    same = SameConfig-refl c;
    shrunk = omega arith;
    room = λ p q. absurd (none_needed p q);
    kept = λ k e h. h;
    spared = inl (λ k e h x. h);
  }

  start : ℕ → Scan
  start n = record { cache = c; n = n; evicted = false; oldest = none }

  start-Scanned : IsValid c → Scanned now c (start (length c.keys))
  unfolding start
  start-Scanned v = record {
    valid = v;
    count = refl;
    same = SameConfig-refl c;
    untouched = λ p. refl;
    shrunk = omega arith;
    smaller = λ p. ground arith;
    in_range = λ i x p. ground arith;
    kept = λ k e h. h;
    live_kept = λ k e h x. h;
  }

  Scanned-Evicted :
      IsValid c → (s : Scan) → Scanned now c s → s.evicted ≡ true → Evicted now c s.cache
  Scanned-Evicted v s h e = record {
    valid = h.valid;
    same = h.same;
    shrunk = omega (arith, h.shrunk, v.sized, h.valid.sized);
    room = λ p q. omega (arith, h.smaller e, v.sized, h.valid.sized);
    kept = h.kept;
    spared = inl h.live_kept;
  }

  Removed-Evicted : IsValid c → (k : String) (c' : AttrCache) → Removed k c c' → Evicted now c c'
  Removed-Evicted v k c' r = record {
    valid = r.valid;
    same = r.same;
    shrunk = omega (arith, r.shorter, v.sized, r.valid.sized);
    room = λ p q. omega (arith, r.shorter, v.sized, r.valid.sized);
    kept = λ j e h. ground (arith, r.entries, lookup-erase k j c.entries);
    spared = inr (k, r);
  }

  -- After the loop: nothing was expired in the sample, so the candidate goes.
  evict_oldest-Evicted :
      (s : Scan)
      → IsValid c
      → Scanned now c s
      → Progress s
      → 0 < length c.keys
      → (c' : AttrCache) × (evict_oldest s s.oldest ≡ some c') × Evicted now c c'
  evict_oldest-Evicted s v h p pos = elim (Bool-cases s.evicted) [
    | inl e ↦ (s.cache, ground arith, Scanned-Evicted v s h e)
    | inr e ↦ elim (Option-cases s.oldest) [
      | inl o ↦ absurd (ground arith)
      | inr ((i, x), o) ↦
          let u = h.untouched e in
          let n : s.n ≡ length c.keys = h.count ∙ ap (λ d. length d.keys) u in
          let (k, f) = get_elem?-lt c.keys i (h.in_range i x o) in
          let last = length c.keys - 1 in
          let (c', run, r) = evict_at-Removed c v i k f last (omega arith) in
          let top : suc last ≡ s.n = omega arith in
          (c', rw (o, u, f, ← top) (ground (arith, run)), Removed-Evicted v k c' r)
    ]
  ]

module _ (int_n : ℕ → ℕ → ℕ) (in_range : InRange int_n) (now : ℕ) (c : AttrCache) where
  evict_full :
      (rounds : ℕ)
      → IsValid c
      → c.max_entries ≤ length c.entries
      → 0 < length c.keys
      → min evict_sample_size (length c.keys) ≡ suc rounds
      → (c' : AttrCache) × (evict_if_needed int_n now c ≡ some c') × Evicted now c c'
  unfolding evict_if_needed start
  evict_full rounds v full pos e =
      let n = length c.keys in
      let t : ltb (length c.entries) c.max_entries ≡ false = ground arith in
      let (s, run, h, p) =
        scan-Scanned int_n in_range now c rounds (start now c n) (start-Scanned now c v) pos in
      let (c', run', w) = evict_oldest-Evicted now c s v h p pos in (c', rw (t, e, run) run', w)

  -- Whatever keys it samples, `evictIfNeeded` does not panic on a consistent cache, and leaves a
  -- consistent cache with the same configuration and counters: if the cache was full and not empty,
  -- an entry is gone, and never is there a new one or a changed one; either every entry that has not
  -- expired remains, or one entry is removed and all others remain.
  pub evict_if_needed-Evicted :
      IsValid c → (c' : AttrCache) × (evict_if_needed int_n now c ≡ some c') × Evicted now c c'
  unfolding evict_if_needed scan
  evict_if_needed-Evicted v = elim (Bool-cases (ltb (length c.entries) c.max_entries)) [
    | inl room ↦ (c, rw room, unchanged-Evicted now c v (λ p. ground arith))
    | inr full ↦ elim (Bool-cases (ltb 0 (length c.keys))) [
      | inl some_key ↦
          evict_full (min evict_sample_size (length c.keys) - 1) v (ground arith) (ground arith)
            (ground arith)
      | inr no_key ↦
          let e : length c.keys ≡ 0 = ground arith in
          (c, rw (full, e), unchanged-Evicted now c v (λ p q. omega (arith, v.sized, e)))
    ]
  ]
