-- ===== src/Cache/Valid.antt =====
-- pkg/gcs/fs/attrcache.go: what links the fields of an attribute cache between critical sections.
-- `keyIndex` inverts the slice `keys`, and the map `entries` holds exactly those keys.
use caddy_fs_gcs.Base.{
  ℕ, ◌≡◌, ◌≤◌, refl, ◌∙◌, String, List, some, arith, Dict, lookup, has, Distinct, length, get_elem?,
}
use caddy_fs_gcs.Cache.{AttrCache, new_attr_cache}

pub record Indexed (keys : List String) (index : Dict ℕ) : Type 0 where
  pub at_index : (k : String) (i : ℕ) → lookup k index ≡ some i → get_elem? keys i ≡ some k
  pub index_of : (k : String) (i : ℕ) → get_elem? keys i ≡ some k → lookup k index ≡ some i

pub record IsValid (c : AttrCache) : Type 0 where
  pub indexed : Indexed c.keys c.key_index
  pub same_keys : (k : String) → has k c.entries ≡ has k c.key_index
  pub distinct : Distinct c.entries
  pub sized : length c.entries ≡ length c.keys

-- The limit that `evictIfNeeded` is there to keep.
abbrev pub IsBounded : AttrCache → Type 0
IsBounded c = length c.entries ≤ c.max_entries

pub new_attr_cache-IsValid : (ttl max : ℕ) → IsValid (new_attr_cache ttl max)
unfolding new_attr_cache lookup
new_attr_cache-IsValid ttl max = record {
  indexed = record { at_index = λ k i h. ground arith; index_of = λ k i h. ground arith };
  same_keys = λ k. refl;
  distinct = tt;
  sized = refl;
}

-- What no removal touches.
pub record SameConfig (c c' : AttrCache) : Type 0 where
  pub same_ttl : c'.ttl ≡ c.ttl
  pub same_neg_ttl : c'.neg_ttl ≡ c.neg_ttl
  pub same_max : c'.max_entries ≡ c.max_entries
  pub same_hits : c'.hits ≡ c.hits
  pub same_misses : c'.misses ≡ c.misses

pub SameConfig-refl : (c : AttrCache) → SameConfig c c
SameConfig-refl c = record {
  same_ttl = refl;
  same_neg_ttl = refl;
  same_max = refl;
  same_hits = refl;
  same_misses = refl;
}

pub SameConfig-trans : {a b c : AttrCache} → SameConfig a b → SameConfig b c → SameConfig a c
SameConfig-trans p q = record {
  same_ttl = q.same_ttl ∙ p.same_ttl;
  same_neg_ttl = q.same_neg_ttl ∙ p.same_neg_ttl;
  same_max = q.same_max ∙ p.same_max;
  same_hits = q.same_hits ∙ p.same_hits;
  same_misses = q.same_misses ∙ p.same_misses;
}
