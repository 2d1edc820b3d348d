-- ===== src/Cache/Scanning.antt =====
-- pkg/gcs/fs/attrcache.go: the loop of `evictIfNeeded`, whatever entries `rand.IntN` picks.
use caddy_fs_gcs.Base.{
  ℕ, zero, suc, ◌-◌, ◌≡◌, ◌≢◌, ◌≤◌, ◌<◌, ◌⊎◌, inl, inr, refl, String, none, some, true, false,
  arith, lookup, length, get_elem?, ◌==◌, ℤ, get_elem?-lt, lookup-erase, Option-cases, Bool-cases,
}
use caddy_fs_gcs.Cache.{AttrCache, AttrEntry, Scan, expired, older, scan_step, scan, scan_entry}
use caddy_fs_gcs.Cache.Valid.{IsValid, SameConfig, SameConfig-trans}
use caddy_fs_gcs.Cache.Removal.{Removed, evict_at-Removed}

-- What the sampling loop has done so far: it has removed expired entries, and nothing else.
pub record Scanned (now : ℕ) (c : AttrCache) (s : Scan) : Type 0 where
  pub valid : IsValid s.cache
  pub count : s.n ≡ length s.cache.keys
  pub same : SameConfig c s.cache
  pub untouched : s.evicted ≡ false → s.cache ≡ c
  pub shrunk : length s.cache.keys ≤ length c.keys
  pub smaller : s.evicted ≡ true → length s.cache.keys < length c.keys
  pub in_range : (i : ℕ) (x : ℤ) → s.oldest ≡ some (i, x) → i < length c.keys
  pub kept :
      (k : String) (e : AttrEntry) → lookup k s.cache.entries ≡ some e → lookup k c.entries ≡ some e
  pub live_kept :
      (k : String) (e : AttrEntry)
      → lookup k c.entries ≡ some e
      → expired now e ≡ false
      → lookup k s.cache.entries ≡ some e

abbrev pub Progress : Scan → Type 0
Progress s = (s.evicted ≡ true) ⊎ (s.oldest ≢ none)

module _ (now : ℕ) (c : AttrCache) (s : Scan) (h : Scanned now c s) where
  drop_Scanned :
      (k : String) (e : AttrEntry) (c' : AttrCache)
      → lookup k s.cache.entries ≡ some e
      → expired now e ≡ true
      → Removed k s.cache c'
      → Scanned now c (record s { cache = c'; n = s.n - 1; evicted = true })
  drop_Scanned k e c' f x r = record {
    valid = r.valid;
    count = omega (arith, h.count, r.shorter);
    same = SameConfig-trans h.same r.same;
    untouched = λ p. ground arith;
    shrunk = omega (arith, h.shrunk, r.shorter);
    smaller = λ p. omega (arith, h.shrunk, r.shorter);
    in_range = λ i y p. h.in_range i y p;
    kept = λ j d p. ground (arith, r.entries, lookup-erase k j s.cache.entries, h.kept j d);
    live_kept =
        λ j d p q. ground (arith, r.entries, lookup-erase k j s.cache.entries, h.live_kept j d);
  }

  look_Scanned :
      (idx : ℕ) (e : AttrEntry)
      → idx < s.n
      → Scanned now c (record s { oldest = older idx e s.oldest })
  look_Scanned idx e f = record {
    valid = h.valid;
    count = h.count;
    same = h.same;
    untouched = h.untouched;
    shrunk = h.shrunk;
    smaller = h.smaller;
    in_range = λ i y p. ground (arith, h.in_range i y, h.count, h.shrunk);
    kept = h.kept;
    live_kept = h.live_kept;
  }

  older-ne-none : (idx : ℕ) (e : AttrEntry) → older idx e s.oldest ≢ none
  older-ne-none idx e = ground arith

  -- One round of the loop does not panic, and finds a victim or a candidate.
  scan_entry-Scanned :
      (last idx : ℕ) (k : String) (e : AttrEntry)
      → s.n ≡ suc last
      → idx < s.n
      → get_elem? s.cache.keys idx ≡ some k
      → lookup k s.cache.entries ≡ some e
      → (s' : Scan) × (scan_entry now idx k s (lookup k s.cache.entries) ≡ some s')
        × Scanned now c s'
        × Progress s'
  scan_entry-Scanned last idx k e n lt f g = elim (Bool-cases (expired now e)) [
    | inl x ↦
        let (c', run, r) = evict_at-Removed s.cache h.valid idx k f last (omega (arith, h.count)) in
        (
          record s { cache = c'; n = s.n - 1; evicted = true },
          ground (arith, run),
          drop_Scanned k e c' g x r,
          inl refl,
        )
    | inr x ↦ (
      record s { oldest = older idx e s.oldest },
      ground arith,
      look_Scanned idx e lt,
      inr (older-ne-none idx e),
    )
  ]

-- A key of the slice has an entry.
pub entry_of_key :
    (c : AttrCache) (i : ℕ) (k : String)
    → IsValid c
    → get_elem? c.keys i ≡ some k
    → (e : AttrEntry) × (lookup k c.entries ≡ some e)
entry_of_key c i k v h = elim (Option-cases (lookup k c.entries)) [
  | inl e ↦ absurd (ground (arith, v.same_keys k, v.indexed.index_of k i h))
  | inr found ↦ found
]

-- What the documentation of `rand.IntN` promises.
abbrev pub InRange : (ℕ → ℕ → ℕ) → Type 0
InRange int_n = (j n : ℕ) → 0 < n → int_n j n < n

module _ (int_n : ℕ → ℕ → ℕ) (in_range : InRange int_n) (now : ℕ) (c : AttrCache) where
  scan_step-Scanned :
      (j : ℕ) (s : Scan)
      → Scanned now c s
      → 0 < s.n
      → (s' : Scan) × (scan_step int_n now j s ≡ some s') × Scanned now c s' × Progress s'
  unfolding scan_step
  scan_step-Scanned j s h pos =
      let idx = int_n j s.n in
      let lt = in_range j s.n pos in
      let (k, f) = get_elem?-lt s.cache.keys idx (omega (arith, h.count)) in
      let (e, g) = entry_of_key s.cache idx k h.valid f in
      let (s', run, v, p) = scan_entry-Scanned now c s h (s.n - 1) idx k e (omega arith) lt f g in
      (s', rw f run, v, p)

  -- The loop does not panic, however many rounds it makes.
  pub scan-Scanned :
      (rounds : ℕ) (s : Scan)
      → Scanned now c s
      → 0 < s.n
      → (s' : Scan) × (scan int_n now (suc rounds) s ≡ some s') × Scanned now c s' × Progress s'
  unfolding scan
  scan-Scanned zero s h pos =
      let (s', run, v, p) = scan_step-Scanned zero s h pos in (s', rw run (ground arith), v, p)
  scan-Scanned (suc rounds) s h pos =
      let (s', run, v, p) = scan_step-Scanned (suc rounds) s h pos in
      elim (Bool-cases (s'.n == 0)) [
        | inl gone ↦ (s', rw run (ground arith), v, p)
        | inr more ↦
            let (t, run', w, q) = scan-Scanned rounds s' v (ground arith) in
            (t, rw run (ground (arith, run')), w, q)
      ]
