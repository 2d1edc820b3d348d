-- ===== src/Cache.antt =====
-- pkg/gcs/fs/attrcache.go: the attribute cache. Each critical section of a method is a function on
-- the cache's state (`get` has two, `read` and `reap`); the clock's reading is an argument. Where
-- the Go code could panic (a slice index out of range) the result is an `Option`.
pub mod Valid
pub mod Removal
pub mod Scanning
pub mod Eviction
pub mod Storing
pub mod Reading
pub mod History
pub mod Recalling
pub mod Clock
mod Examples
use caddy_fs_gcs.Base.{
  ℕ, zero, suc, ◌+◌, ◌-◌, ◌/◌, ◌%◌, ◌^◌, min, ◌++◌, String, Bool, true, false, not, ◌&&◌, Option,
  none, some, List, [], ◌∷◌, ◌>>=◌, ltb, ◌==◌, if◌then◌else◌, Dict, lookup, insert, erase, length,
  get_elem?, set, take, ℤ, pos, ltb_ℤ, ◌+ℤ◌,
}

-- The fields of `storage.ObjectAttrs` that the code reads.
pub record ObjectAttrs : Type 0 where
  pub name : String
  pub prefix : String
  pub size : ℕ
  pub updated : ℕ

-- A `*storage.ObjectAttrs` in the cache: the pointer `sentinelNotFound`, or another one.
pub data Attrs : Type 0 where
  sentinel_not_found : Attrs
  object : ObjectAttrs → Attrs

abbrev pub is_negative : Attrs → Bool
is_negative sentinel_not_found = true
is_negative (object a) = false

pub record AttrEntry : Type 0 where
  pub attrs : Attrs
  pub expires_at : ℤ

-- Durations and clock readings are not negative, and are counted in nanoseconds.
pub record AttrCache : Type 0 where
  pub entries : Dict AttrEntry
  pub keys : List String
  pub key_index : Dict ℕ
  pub ttl : ℕ
  pub neg_ttl : ℕ
  pub max_entries : ℕ
  pub hits : ℕ
  pub misses : ℕ

abbrev pub second : ℕ
second = 10 ^ 9

abbrev pub neg_ttl_divisor : ℕ
neg_ttl_divisor = 10

abbrev pub min_neg_ttl : ℕ
min_neg_ttl = second

abbrev pub evict_sample_size : ℕ
evict_sample_size = 20

unfoldable pub new_attr_cache : ℕ → ℕ → AttrCache
new_attr_cache ttl max_entries =
    let neg_ttl = ttl / neg_ttl_divisor in
    record {
      entries = [];
      keys = [];
      key_index = [];
      ttl = ttl;
      neg_ttl = if ltb neg_ttl min_neg_ttl then min_neg_ttl else neg_ttl;
      max_entries = max_entries;
      hits = 0;
      misses = 0;
    }

-- `now > expiresAt`
abbrev pub expired : ℕ → AttrEntry → Bool
expired now e = ltb_ℤ e.expires_at (pos now)

-- The slices and maps after `keys[idx] = keys[last]; keyIndex[keys[idx]] = idx`, if `idx != last`.
unfoldable pub move_last : ℕ → ℕ → AttrCache → Option AttrCache
move_last idx last c =
    if idx == last
    then some c
    else (get_elem? c.keys last >>= λ moved.
        some (record c { keys = set c.keys idx moved; key_index = insert moved idx c.key_index }))

-- An index past the slice panics, and so does an empty slice, whose `last` is -1.
abbrev remove_at : String → AttrCache → Option ℕ → Option AttrCache
remove_at key c none = some c
remove_at key c (some idx) =
    let last = length c.keys - 1 in
    do
      _ ← get_elem? c.keys idx
      c' ← move_last idx last c
      some (record c' { keys = take last c'.keys; key_index = erase key c'.key_index })

unfoldable pub remove_key : String → AttrCache → Option AttrCache
remove_key key c = remove_at key c (lookup key c.key_index)

-- `Add(1)` on an `atomic.Int64`, as a bit pattern.
abbrev pub add_one : ℕ → ℕ
add_one n = (n + 1) % 2 ^ 64

abbrev miss : AttrCache → AttrCache
miss c = record c { misses = add_one c.misses }

-- What the first, read-locked section of `get` finds.
pub data Found : Type 0 where
  absent : Found
  stale : Found
  fresh : Attrs → Found

abbrev find_entry : ℕ → Option AttrEntry → Found
find_entry now none = absent
find_entry now (some e) = if expired now e then stale else fresh e.attrs

-- The first section of `get`, up to the write lock, with the counters that it adds to.
unfoldable pub read : ℕ → String → AttrCache → Found
read now key c = find_entry now (lookup key c.entries)

abbrev reap_entry : ℕ → String → AttrCache → Option AttrEntry → Option AttrCache
reap_entry now key c none = some c
reap_entry now key c (some e) =
    if expired now e then remove_key key (record c { entries = erase key c.entries }) else some c

-- The second section of `get`, under the write lock: the entry is checked again.
unfoldable pub reap : ℕ → String → AttrCache → Option AttrCache
reap now key c = reap_entry now key c (lookup key c.entries)

abbrev get_found : ℕ → String → AttrCache → Found → Option (AttrCache × Option Attrs)
get_found now key c absent = some (miss c, none)
get_found now key c stale = do c' ← reap now key c; some (miss c', none)
get_found now key c (fresh a) = some (record c { hits = add_one c.hits }, some a)

-- `get`, with no other goroutine between its sections; `none` inside is the result `(nil, false)`.
unfoldable pub get : ℕ → String → AttrCache → Option (AttrCache × Option Attrs)
get now key c = get_found now key c (read now key c)

-- The removal that `evictIfNeeded` writes out, at a slice of `n` keys.
unfoldable pub evict_at : ℕ → ℕ → String → AttrCache → Option AttrCache
evict_at n idx k c = do
  let last = n - 1
  c' ←
      move_last idx last (record c { entries = erase k c.entries; key_index = erase k c.key_index })
  some (record c' { keys = take last c'.keys })

-- The variables of the sampling loop; `oldest` is `oldestIdx` with `oldestExpiry`, and none is -1.
pub record Scan : Type 0 where
  pub cache : AttrCache
  pub n : ℕ
  pub evicted : Bool
  pub oldest : Option (ℕ × ℤ)

abbrev older : ℕ → AttrEntry → Option (ℕ × ℤ) → Option (ℕ × ℤ)
older idx e none = some (idx, e.expires_at)
older idx e (some (i, expiry)) =
    if ltb_ℤ e.expires_at expiry then some (idx, e.expires_at) else some (i, expiry)

abbrev scan_entry : ℕ → ℕ → String → Scan → Option AttrEntry → Option Scan
scan_entry now idx k s none = some s
scan_entry now idx k s (some e) =
    if expired now e
    then (do
      c' ← evict_at s.n idx k s.cache
      some (record s { cache = c'; n = s.n - 1; evicted = true }))
    else some (record s { oldest = older idx e s.oldest })

-- What follows the loop.
abbrev evict_oldest : Scan → Option (ℕ × ℤ) → Option AttrCache
evict_oldest s none = some s.cache
evict_oldest s (some (idx, expiry)) =
    if not s.evicted && ltb 0 s.n
    then (do k ← get_elem? s.cache.keys idx; evict_at s.n idx k s.cache)
    else some s.cache

-- `if _, exists := c.entries[key]; !exists`
abbrev track_key : String → AttrCache → Option AttrEntry → AttrCache
track_key key c none = record c {
  key_index = insert key (length c.keys) c.key_index;
  keys = c.keys ++ key ∷ [];
}
track_key key c (some e) = c

-- `int_n j n` is the result of the j-th call of `rand.IntN`, with argument n.
module _ (int_n : ℕ → ℕ → ℕ) where
  unfoldable pub scan_step : ℕ → ℕ → Scan → Option Scan
  scan_step now j s = do
    k ← get_elem? s.cache.keys (int_n j s.n)
    scan_entry now (int_n j s.n) k s (lookup k s.cache.entries)

  -- `samples` rounds; the loop returns early when the last key is gone.
  unfoldable pub scan : ℕ → ℕ → Scan → Option Scan
  scan now zero s = some s
  scan now (suc samples) s = scan_step now samples s >>= λ s'. elim (s'.n == 0) [
    | true ↦ some s'
    | false ↦ scan now samples s'
  ]

  unfoldable pub evict_if_needed : ℕ → AttrCache → Option AttrCache
  evict_if_needed now c = if ltb (length c.entries) c.max_entries then some c else (do
    let n = length c.keys
    s ←
        scan now (min evict_sample_size n)
          (record { cache = c; n = n; evicted = false; oldest = none })
    evict_oldest s s.oldest)

  -- The body that `set` and `setNotFound` share, with the entry's attributes and lifetime.
  unfoldable pub store : ℕ → String → Attrs → ℕ → AttrCache → Option AttrCache
  store now key attrs lifetime c = do
    c₁ ← evict_if_needed now c
    let c₂ = track_key key c₁ (lookup key c₁.entries)
    some (record c₂ {
      entries =
          insert key (record { attrs = attrs; expires_at = pos now +ℤ pos lifetime }) c₂.entries;
    })

  unfoldable pub set_attrs : ℕ → String → Attrs → AttrCache → Option AttrCache
  set_attrs now key attrs c = store now key attrs c.ttl c

  unfoldable pub set_not_found : ℕ → String → AttrCache → Option AttrCache
  set_not_found now key c = store now key sentinel_not_found c.neg_ttl c

abbrev pub len : AttrCache → ℕ
len c = length c.entries

abbrev pub stats : AttrCache → ℕ × ℕ
stats c = (c.hits, c.misses)

-- `stop`: the clock is shared, and goes on.
abbrev pub stop : AttrCache → AttrCache
stop c = c
