-- ===== src/Cache/Reading.antt =====
-- pkg/gcs/fs/attrcache.go: `get`, against what the map shows at the clock's reading.
use caddy_fs_gcs.Base.{
  ℕ, ◌+◌, ◌-◌, ◌^◌, ◌≡◌, ◌≤◌, ◌<◌, ◌∙◌, inl, inr, refl, sym, ap, ltb, String, Option, none, some,
  true, false, arith, lookup, erase, length, pos, ◌+ℤ◌, +ℤ-pos, if◌then◌else◌, lookup-erase,
  lt_of_get_elem?, Option-cases, Bool-cases,
}
use caddy_fs_gcs.Cache.{
  AttrCache, AttrEntry, Attrs, add_one, expired, read, reap, get, set_attrs, set_not_found,
  sentinel_not_found, remove_key,
}
use caddy_fs_gcs.Cache.Valid.{IsValid, SameConfig, SameConfig-refl}
use caddy_fs_gcs.Cache.Removal.{Removed, remove_key-Removed}
use caddy_fs_gcs.Cache.Scanning.{InRange}
use caddy_fs_gcs.Cache.Storing.{set_attrs-Stored, set_not_found-Stored}

abbrev pub live : ℕ → Option AttrEntry → Option Attrs
live now none = none
live now (some e) = if expired now e then none else some e.attrs

-- The attributes that the map shows for a key: those of an entry that has not expired.
unfoldable pub visible : ℕ → String → AttrCache → Option Attrs
visible now k c = live now (lookup k c.entries)

module _ (now : ℕ) (key : String) (c : AttrCache) (v : IsValid c) where
  index_of_entry :
      (e : AttrEntry) → lookup key c.entries ≡ some e → (i : ℕ) × (lookup key c.key_index ≡ some i)
  index_of_entry e h = elim (Option-cases (lookup key c.key_index)) [
    | inl f ↦ absurd (ground (arith, v.same_keys key))
    | inr found ↦ found
  ]

  remove_entry :
      (e : AttrEntry)
      → lookup key c.entries ≡ some e
      → (c' : AttrCache) × (remove_key key (record c { entries = erase key c.entries }) ≡ some c')
        × Removed key c c'
  remove_entry e h =
      let (i, f) = index_of_entry e h in
      let here = v.indexed.at_index key i f in
      let lt = lt_of_get_elem? c.keys i key here in
      remove_key-Removed c v i key here (length c.keys - 1) (omega (arith, lt))

  -- What the second section of `get` leaves.
  pub record Reaped (c' : AttrCache) : Type 0 where
    pub valid : IsValid c'
    pub same : SameConfig c c'
    pub same_view : (k : String) → visible now k c' ≡ visible now k c
    pub shrunk : length c'.entries ≤ length c.entries
    pub kept :
        (k : String) (e : AttrEntry) → lookup k c'.entries ≡ some e → lookup k c.entries ≡ some e

  unchanged-Reaped : Reaped c
  unchanged-Reaped = record {
    valid = v;
    same = SameConfig-refl c;
    same_view = λ k. refl;
    shrunk = omega arith;
    kept = λ k e h. h;
  }

  Removed-Reaped :
      (e : AttrEntry) (c' : AttrCache)
      → lookup key c.entries ≡ some e
      → expired now e ≡ true
      → Removed key c c'
      → Reaped c'
  unfolding visible
  Removed-Reaped e c' h x r = record {
    valid = r.valid;
    same = r.same;
    same_view = λ k. ground (arith, r.entries, lookup-erase key k c.entries);
    shrunk = omega (arith, r.shorter, r.valid.sized, v.sized);
    kept = λ k d p. ground (arith, r.entries, lookup-erase key k c.entries);
  }

  -- The second section does not panic, and drops nothing that can be read.
  pub reap-Reaped : (c' : AttrCache) × (reap now key c ≡ some c') × Reaped c'
  unfolding reap
  reap-Reaped = elim (Option-cases (lookup key c.entries)) [
    | inl h ↦ (c, rw h, unchanged-Reaped)
    | inr (e, h) ↦ elim (Bool-cases (expired now e)) [
      | inl x ↦
          let (c', run, r) = remove_entry e h in (c', rw (h, x) run, Removed-Reaped e c' h x r)
      | inr x ↦ (c, rw (h, x), unchanged-Reaped)
    ]
  ]

  pub Reaped-spares :
      (c' : AttrCache) (k : String) (e : AttrEntry)
      → Reaped c'
      → lookup k c.entries ≡ some e
      → expired now e ≡ false
      → lookup k c'.entries ≡ some e
  unfolding visible
  Reaped-spares c' k e r p x =
      let seen : live now (lookup k c'.entries) ≡ some e.attrs = r.same_view k ∙ rw (p, x) refl in
      elim (Option-cases (lookup k c'.entries)) [
        | inl gone ↦ absurd (ground (arith, rw gone at seen))
        | inr (d, here) ↦ here ∙ sym (r.kept k d here) ∙ p
      ]

  -- A hit counts as one hit, anything else as one miss.
  abbrev pub Counted : Option Attrs → AttrCache → Type 0
  Counted none c' = (c'.hits ≡ c.hits) × (c'.misses ≡ add_one c.misses)
  Counted (some a) c' = (c'.hits ≡ add_one c.hits) × (c'.misses ≡ c.misses)

  -- What a call of `get` leaves.
  pub record Got (c' : AttrCache) : Type 0 where
    pub valid : IsValid c'
    pub same_view : (k : String) → visible now k c' ≡ visible now k c
    pub shrunk : length c'.entries ≤ length c.entries
    pub kept :
        (k : String) (e : AttrEntry) → lookup k c'.entries ≡ some e → lookup k c.entries ≡ some e
    pub counted : Counted (visible now key c) c'
    pub same_ttl : c'.ttl ≡ c.ttl
    pub same_neg_ttl : c'.neg_ttl ≡ c.neg_ttl
    pub same_max : c'.max_entries ≡ c.max_entries

  count_miss :
      (c' : AttrCache)
      → visible now key c ≡ none
      → Reaped c'
      → Got (record c' { misses = add_one c'.misses })
  unfolding visible
  count_miss c' none_seen r = record {
    valid = record {
      indexed = r.valid.indexed;
      same_keys = r.valid.same_keys;
      distinct = r.valid.distinct;
      sized = r.valid.sized;
    };
    same_view = r.same_view;
    shrunk = r.shrunk;
    kept = r.kept;
    counted = rw none_seen (r.same.same_hits, ap add_one r.same.same_misses);
    same_ttl = r.same.same_ttl;
    same_neg_ttl = r.same.same_neg_ttl;
    same_max = r.same.same_max;
  }

  count_hit : (a : Attrs) → visible now key c ≡ some a → Got (record c { hits = add_one c.hits })
  unfolding visible
  count_hit a seen = record {
    valid = record {
      indexed = v.indexed;
      same_keys = v.same_keys;
      distinct = v.distinct;
      sized = v.sized;
    };
    same_view = λ k. refl;
    shrunk = omega arith;
    kept = λ k e h. h;
    counted = rw seen (refl, refl);
    same_ttl = refl;
    same_neg_ttl = refl;
    same_max = refl;
  }

  -- `get` does not panic on a consistent cache. It returns the attributes of the key's entry if the
  -- map holds one that has not expired, and nothing otherwise; it leaves a consistent cache of the same settings in
  -- which every key shows what it showed, with no more entries than before, and it adds one to the
  -- hits or to the misses.
  pub get-Got : (c' : AttrCache) × (get now key c ≡ some (c', visible now key c)) × Got c'
  unfolding get read visible
  get-Got = elim (Option-cases (lookup key c.entries)) [
    | inl h ↦ (record c { misses = add_one c.misses }, rw h, count_miss c (rw h) unchanged-Reaped)
    | inr (e, h) ↦ elim (Bool-cases (expired now e)) [
      | inl x ↦
          let (c', run, r) = reap-Reaped in
          (record c' { misses = add_one c'.misses }, rw (h, x, run), count_miss c' (rw (h, x)) r)
      | inr x ↦ (record c { hits = add_one c.hits }, rw (h, x), count_hit e.attrs (rw (h, x)))
    ]
  ]

module _ (int_n : ℕ → ℕ → ℕ) (in_range : InRange int_n) (now later : ℕ) (key : String) where
  stored_view :
      (attrs : Attrs) (lifetime : ℕ) (c' : AttrCache)
      → now + lifetime < 2 ^ 63
      → lookup key c'.entries
        ≡ some (record { attrs = attrs; expires_at = pos now +ℤ pos lifetime })
      → visible later key c' ≡ (if ltb (now + lifetime) later then none else some attrs)
  unfolding visible
  stored_view attrs lifetime c' h e = rw (e, +ℤ-pos now lifetime h) (ground arith)

  get-set_attrs :
      (attrs : Attrs) (c : AttrCache)
      → IsValid c
      → now + c.ttl < 2 ^ 63
      → (c₁ c₂ : AttrCache) × (set_attrs int_n now key attrs c ≡ some c₁)
        × (get later key c₁ ≡ some (c₂, if ltb (now + c.ttl) later then none else some attrs))
  get-set_attrs attrs c v h =
      let (c₁, run, w) = set_attrs-Stored int_n in_range now key attrs c v in
      let (c₂, run', g) = get-Got later key c₁ w.valid in
      (c₁, c₂, run, rw (← stored_view attrs c.ttl c₁ h w.stored) run')

  get-set_not_found :
      (c : AttrCache)
      → IsValid c
      → now + c.neg_ttl < 2 ^ 63
      → (c₁ c₂ : AttrCache) × (set_not_found int_n now key c ≡ some c₁)
        × (get later key c₁
            ≡ some (c₂, if ltb (now + c.neg_ttl) later then none else some sentinel_not_found))
  get-set_not_found c v h =
      let (c₁, run, w) = set_not_found-Stored int_n in_range now key c v in
      let (c₂, run', g) = get-Got later key c₁ w.valid in
      (c₁, c₂, run, rw (← stored_view sentinel_not_found c.neg_ttl c₁ h w.stored) run')

  -- After `set` at `now`, a `get` of the key at `later` returns the attributes if `later` is at most
  -- `now + ttl`, and nothing if it is more, and after `setNotFound` it returns the sentinel if `later`
  -- is at most `now + negTTL`, and nothing if it is more, provided that these sums are `int64`s.
  pub get-set :
      (attrs : Attrs) (c : AttrCache)
      → IsValid c
      → now + c.ttl < 2 ^ 63
      → now + c.neg_ttl < 2 ^ 63
      → ((c₁ c₂ : AttrCache) × (set_attrs int_n now key attrs c ≡ some c₁)
          × (get later key c₁ ≡ some (c₂, if ltb (now + c.ttl) later then none else some attrs)))
        × ((c₁ c₂ : AttrCache) × (set_not_found int_n now key c ≡ some c₁)
            × (get later key c₁
                ≡ some (c₂, if ltb (now + c.neg_ttl) later then none else some sentinel_not_found)))
  get-set attrs c v h h' = (get-set_attrs attrs c v h, get-set_not_found c v h')
