-- ===== src/Cache/Storing.antt =====
-- pkg/gcs/fs/attrcache.go: `set` and `setNotFound`, which evict first and then write the entry.
use caddy_fs_gcs.Base.{
  ℕ, ◌+◌, ◌≡◌, ◌≢◌, ◌≤◌, ◌<◌, ◌⊎◌, inl, inr, ◌++◌, ap, dec_lt, ◌∙◌, String, List, [], ◌∷◌, none,
  some, some_injective, false, true, ltb, arith, Dict, lookup, insert, length, pos, ◌+ℤ◌,
  lt_of_get_elem?, lookup-insert, length-insert, insert-Distinct, length-append, get_elem?-append,
  lookup-erase, Option-cases,
}
use caddy_fs_gcs.Cache.{
  AttrCache, AttrEntry, Attrs, sentinel_not_found, expired, track_key, evict_if_needed, store,
  set_attrs, set_not_found,
}
use caddy_fs_gcs.Cache.Valid.{Indexed, IsValid, IsBounded, SameConfig, SameConfig-trans}
use caddy_fs_gcs.Cache.Scanning.{InRange}
use caddy_fs_gcs.Cache.Eviction.{Evicted, evict_if_needed-Evicted}

-- A new key goes to the end of the slice.
append-Indexed :
    (keys : List String) (index : Dict ℕ) (key : String)
    → Indexed keys index
    → lookup key index ≡ none
    → Indexed (keys ++ key ∷ []) (insert key (length keys) index)
append-Indexed keys index key v fresh = record {
  at_index = λ j i h. ground (
    arith,
    lookup-insert key j (length keys) index,
    v.at_index j i,
    lt_of_get_elem? keys i j,
    get_elem?-append keys key i,
  );
  index_of = λ j i h.
      ground (
        arith,
        lookup-insert key j (length keys) index,
        v.index_of j i,
        get_elem?-append keys key i,
      );
}

write : String → AttrEntry → AttrCache → AttrCache
write key e c =
    let c' = track_key key c (lookup key c.entries) in
    record c' { entries = insert key e c'.entries }

write-IsValid : (key : String) (e : AttrEntry) (c : AttrCache) → IsValid c → IsValid (write key e c)
unfolding write
write-IsValid key e c v = elim (Option-cases (lookup key c.entries)) [
  | inl new ↦
      rw (new, write, track_key)
        (record {
          indexed =
              append-Indexed c.keys c.key_index key v.indexed (ground (arith, v.same_keys key));
          same_keys = λ j. ground (
            arith,
            v.same_keys j,
            lookup-insert key j e c.entries,
            lookup-insert key j (length c.keys) c.key_index,
          );
          distinct = insert-Distinct key e c.entries v.distinct;
          sized =
              ground (
                arith,
                new,
                v.sized,
                length-insert key e c.entries,
                length-append c.keys (key ∷ []),
              );
        })
  | inr (d, old) ↦
      rw (old, write, track_key)
        (record {
          indexed = v.indexed;
          same_keys = λ j. ground (arith, v.same_keys j, old, lookup-insert key j e c.entries);
          distinct = insert-Distinct key e c.entries v.distinct;
          sized = ground (arith, old, v.sized, length-insert key e c.entries);
        })
]

write-entries :
    (key : String) (e : AttrEntry) (c : AttrCache)
    → (write key e c).entries ≡ insert key e c.entries
unfolding write
write-entries key e c = ground arith

write-SameConfig : (key : String) (e : AttrEntry) (c : AttrCache) → SameConfig c (write key e c)
unfolding write
write-SameConfig key e c = ground arith

-- What a call of `set` or `setNotFound` for `key` leaves, with the entry `e`.
pub record Stored (now : ℕ) (key : String) (e : AttrEntry) (c c' : AttrCache) : Type 0 where
  pub valid : IsValid c'
  pub same : SameConfig c c'
  pub bounded : 0 < c.max_entries → IsBounded c → IsBounded c'
  pub stored : lookup key c'.entries ≡ some e
  pub kept :
      (k : String) (d : AttrEntry)
      → k ≢ key
      → lookup k c'.entries ≡ some d
      → lookup k c.entries ≡ some d
  pub spared :
      ((k : String) (d : AttrEntry)
        → k ≢ key
        → lookup k c.entries ≡ some d
        → expired now d ≡ false
        → lookup k c'.entries ≡ some d)
      ⊎ ((victim : String) × ((k : String)
            → k ≢ key
            → k ≢ victim
            → lookup k c'.entries ≡ lookup k c.entries))

-- A write that evicts nothing.
pub record Roomy (key : String) (c c' : AttrCache) : Type 0 where
  pub grown : length c'.entries ≤ length c.entries + 1
  pub others : (k : String) → k ≢ key → lookup k c'.entries ≡ lookup k c.entries

module _ (now : ℕ) (key : String) (e : AttrEntry) (c d : AttrCache) where
  length-write : length (write key e d).entries ≤ length d.entries + 1
  length-write = ground (arith, ap length (write-entries key e d), length-insert key e d.entries)

  other_entry : (k : String) → k ≢ key → lookup k (write key e d).entries ≡ lookup k d.entries
  other_entry k ne = rw (write-entries key e d) (ground (arith, lookup-insert key k e d.entries))

  same_limit : Evicted now c d → (write key e d).max_entries ≡ c.max_entries
  same_limit w = (write-SameConfig key e d).same_max ∙ w.same.same_max

  write-Stored : Evicted now c d → Stored now key e c (write key e d)
  write-Stored w = record {
    valid = write-IsValid key e d w.valid;
    same = SameConfig-trans w.same (write-SameConfig key e d);
    bounded = λ p q. elim (dec_lt (length c.entries) c.max_entries) [
      | yes free ↦ omega (arith, length-write, w.shrunk, same_limit w)
      | no full ↦ omega (arith, length-write, w.room (omega arith) (omega arith), same_limit w)
    ];
    stored = rw (write-entries key e d) (ground (arith, lookup-insert key key e d.entries));
    kept = λ k f ne h. w.kept k f (rw (other_entry k ne) at h);
    spared = elim w.spared [
      | inl all ↦ inl (λ k f ne h x. rw (other_entry k ne) (all k f h x))
      | inr (victim, r) ↦ inr (
        victim,
        λ k ne other.
            rw (other_entry k ne, r.entries) (ground (arith, lookup-erase victim k c.entries)),
      )
    ];
  }

module _ (int_n : ℕ → ℕ → ℕ) (in_range : InRange int_n) (now : ℕ) (key : String) where
  pub store-Stored :
      (attrs : Attrs) (lifetime : ℕ) (c : AttrCache)
      → IsValid c
      → (c' : AttrCache) × (store int_n now key attrs lifetime c ≡ some c')
        × Stored now key (record { attrs = attrs; expires_at = pos now +ℤ pos lifetime }) c c'
  unfolding store write
  store-Stored attrs lifetime c v =
      let (d, run, w) = evict_if_needed-Evicted int_n in_range now c v in
      let e : AttrEntry = record { attrs = attrs; expires_at = pos now +ℤ pos lifetime } in
      (write key e d, rw run, write-Stored now key e c d w)

  -- Below the limit nothing is evicted.
  pub store-Roomy :
      (attrs : Attrs) (lifetime : ℕ) (c c' : AttrCache)
      → length c.entries < c.max_entries
      → store int_n now key attrs lifetime c ≡ some c'
      → Roomy key c c'
  unfolding store evict_if_needed write
  store-Roomy attrs lifetime c c' room ran =
      let e : AttrEntry = record { attrs = attrs; expires_at = pos now +ℤ pos lifetime } in
      let full : ltb (length c.entries) c.max_entries ≡ true = ground arith in
      let same : write key e c ≡ c' = some_injective (rw full at ran) in
      let h : Roomy key c (write key e c) = record {
        grown = length-write now key e c c;
        others = other_entry now key e c c;
      } in
      rw same at h

  -- `set`
  pub set_attrs-Stored :
      (attrs : Attrs) (c : AttrCache)
      → IsValid c
      → (c' : AttrCache) × (set_attrs int_n now key attrs c ≡ some c')
        × Stored now key (record { attrs = attrs; expires_at = pos now +ℤ pos c.ttl }) c c'
  unfolding set_attrs
  set_attrs-Stored attrs c v = store-Stored attrs c.ttl c v

  -- `setNotFound`
  pub set_not_found-Stored :
      (c : AttrCache)
      → IsValid c
      → (c' : AttrCache) × (set_not_found int_n now key c ≡ some c')
        × Stored now key
            (record { attrs = sentinel_not_found; expires_at = pos now +ℤ pos c.neg_ttl })
            c
            c'
  unfolding set_not_found
  set_not_found-Stored c v = store-Stored sentinel_not_found c.neg_ttl c v

  -- Whatever entries the eviction samples, `set` and `setNotFound` do not panic: they leave a consistent
  -- cache that holds the new entry, the attributes until `now + ttl` or the sentinel until
  -- `now + negTTL`, and that is within its limit if it was and the limit is not 0; every other
  -- entry that remains is as it was, and either every entry that had not expired remains, or all
  -- but one entry remain.
  pub set-Stored :
      (attrs : Attrs) (c : AttrCache)
      → IsValid c
      → ((c' : AttrCache) × (set_attrs int_n now key attrs c ≡ some c')
          × Stored now key (record { attrs = attrs; expires_at = pos now +ℤ pos c.ttl }) c c')
        × ((c' : AttrCache) × (set_not_found int_n now key c ≡ some c')
            × Stored now key
                (record { attrs = sentinel_not_found; expires_at = pos now +ℤ pos c.neg_ttl })
                c
                c')
  set-Stored attrs c v = (set_attrs-Stored attrs c v, set_not_found-Stored c v)
