-- ===== src/Cache/Removal.antt =====
-- pkg/gcs/fs/attrcache.go: the swap-removal of a key, as `removeKey` and `evictIfNeeded` write it.
use caddy_fs_gcs.Base.{
  ℕ, suc, ◌≡◌, ◌≢◌, refl, String, List, none, some, false, arith, Dict, lookup, insert, erase, has,
  ite, length, get_elem?, set, take, text_dec, lt_of_get_elem?, get_elem?-set, get_elem?-take,
  get_elem?-lt, ℕ_discrete, lookup-insert, lookup-erase, length-erase, erase-Distinct, length-set,
  length-take,
}
use caddy_fs_gcs.Cache.{AttrCache, move_last, evict_at, remove_key}
use caddy_fs_gcs.Cache.Valid.{Indexed, IsValid, SameConfig}

module _ (keys : List String) (index index' : Dict ℕ) (v : Indexed keys index) (k : String) where
  -- The last key goes.
  pub take-Indexed :
      (last : ℕ)
      → suc last ≡ length keys
      → get_elem? keys last ≡ some k
      → ((j : String) → lookup j index' ≡ ite (text_dec j k) none (lookup j index))
      → Indexed (take last keys) index'
  take-Indexed last n e law = record {
    at_index = λ j i h.
        ground (arith, law j, v.at_index j i, lt_of_get_elem? keys i j, get_elem?-take keys i last);
    index_of = λ j i h.
        ground (arith, law j, v.index_of j i, v.index_of k last e, get_elem?-take keys i last);
  }

  -- Another key goes, and the last one takes its place.
  pub swap-Indexed :
      (idx last : ℕ) (moved : String)
      → suc last ≡ length keys
      → idx ≢ last
      → get_elem? keys idx ≡ some k
      → get_elem? keys last ≡ some moved
      → ((j : String)
          → lookup j index'
            ≡ ite (text_dec j k) none (ite (text_dec j moved) (some idx) (lookup j index)))
      → Indexed (take last (set keys idx moved)) index'
  swap-Indexed idx last moved n ne e f law = record {
    at_index = λ j i h. ground (
      arith,
      law j,
      v.at_index j i,
      lt_of_get_elem? keys i j,
      lt_of_get_elem? keys idx k e,
      get_elem?-take (set keys idx moved) i last,
      get_elem?-set keys i idx moved,
    );
    index_of = λ j i h. ground (
      arith,
      law j,
      v.index_of j i,
      v.index_of k idx e,
      v.index_of moved last f,
      lt_of_get_elem? keys idx k e,
      get_elem?-take (set keys idx moved) i last,
      get_elem?-set keys i idx moved,
    );
  }

-- What the removal of the key `k` leaves.
pub record Removed (k : String) (c c' : AttrCache) : Type 0 where
  pub valid : IsValid c'
  pub entries : c'.entries ≡ erase k c.entries
  pub shorter : suc (length c'.keys) ≡ length c.keys
  pub same : SameConfig c c'

-- An entry is dropped together with its key.
has-erase {ℓ} :
    {V : Type ℓ} (k j : String) (m : Dict V)
    → has j (erase k m) ≡ ite (text_dec j k) false (has j m)
has-erase k j m = ground (arith, lookup-erase k j m)

module _ (c : AttrCache) (v : IsValid c) (idx : ℕ) (k : String) where
  length-erase_key :
      get_elem? c.keys idx ≡ some k → suc (length (erase k c.entries)) ≡ length c.keys
  length-erase_key e = ground (
    arith,
    v.sized,
    v.same_keys k,
    v.indexed.index_of k idx e,
    length-erase k c.entries v.distinct,
  )

  -- Whatever slice and index come out, if they fit each other and the erased key.
  pub Removed-intro :
      (keys' : List String) (index' : Dict ℕ)
      → get_elem? c.keys idx ≡ some k
      → Indexed keys' index'
      → suc (length keys') ≡ length c.keys
      → ((j : String) → has j index' ≡ ite (text_dec j k) false (has j c.key_index))
      → Removed k c (record c { entries = erase k c.entries; keys = keys'; key_index = index' })
  Removed-intro keys' index' e ix shorter law = record {
    valid = record {
      indexed = ix;
      same_keys = λ j. ground (arith, law j, has-erase k j c.entries, v.same_keys j);
      distinct = erase-Distinct k c.entries v.distinct;
      sized = omega (arith, length-erase_key e);
    };
    entries = refl;
    shorter = shorter;
    same = record {
      same_ttl = refl;
      same_neg_ttl = refl;
      same_max = refl;
      same_hits = refl;
      same_misses = refl;
    };
  }

  module _ (here : get_elem? c.keys idx ≡ some k) where
    last_key :
        (last : ℕ)
        → suc last ≡ length c.keys
        → (moved : String) × (get_elem? c.keys last ≡ some moved)
    last_key last n = get_elem?-lt c.keys last (omega arith)

    moved-ne :
        (last : ℕ) (moved : String) → idx ≢ last → get_elem? c.keys last ≡ some moved → moved ≢ k
    moved-ne last moved ne f =
        ground (arith, v.indexed.index_of moved last f, v.indexed.index_of k idx here)

    evict_law :
        (last : ℕ) (moved j : String)
        → idx ≢ last
        → get_elem? c.keys last ≡ some moved
        → lookup j (insert moved idx (erase k c.key_index))
          ≡ ite (text_dec j k) none (ite (text_dec j moved) (some idx) (lookup j c.key_index))
    evict_law last moved j ne f = ground (
      arith,
      moved-ne last moved ne f,
      lookup-insert moved j idx (erase k c.key_index),
      lookup-erase k j c.key_index,
    )

    remove_law :
        (last : ℕ) (moved j : String)
        → idx ≢ last
        → get_elem? c.keys last ≡ some moved
        → lookup j (erase k (insert moved idx c.key_index))
          ≡ ite (text_dec j k) none (ite (text_dec j moved) (some idx) (lookup j c.key_index))
    remove_law last moved j ne f = ground (
      arith,
      lookup-insert moved j idx c.key_index,
      lookup-erase k j (insert moved idx c.key_index),
    )

    has_law :
        (last : ℕ) (moved j : String) (index' : Dict ℕ)
        → get_elem? c.keys last ≡ some moved
        → lookup j index'
          ≡ ite (text_dec j k) none (ite (text_dec j moved) (some idx) (lookup j c.key_index))
        → has j index' ≡ ite (text_dec j k) false (has j c.key_index)
    has_law last moved j index' f law = ground (arith, law, v.indexed.index_of moved last f)

    -- `evictIfNeeded` removes the key at an index without a panic.
    pub evict_at-Removed :
        (last : ℕ)
        → suc last ≡ length c.keys
        → (c' : AttrCache) × (evict_at (suc last) idx k c ≡ some c') × Removed k c c'
    unfolding evict_at move_last
    evict_at-Removed last n = elim (ℕ_discrete idx last) [
      | yes p ↦ (
        record c {
          entries = erase k c.entries;
          keys = take last c.keys;
          key_index = erase k c.key_index;
        },
        ground arith,
        Removed-intro (take last c.keys) (erase k c.key_index) here
            (take-Indexed c.keys c.key_index (erase k c.key_index) v.indexed k last n
              (rw (← p) here) (λ j. lookup-erase k j c.key_index))
            (omega (arith, length-take last c.keys)) (λ j. has-erase k j c.key_index),
      )
      | no p ↦
          let (moved, f) = last_key last n in
          let index' = insert moved idx (erase k c.key_index) in
          (
            record c {
              entries = erase k c.entries;
              keys = take last (set c.keys idx moved);
              key_index = index';
            },
            ground arith,
            Removed-intro (take last (set c.keys idx moved)) index' here
                (swap-Indexed c.keys c.key_index index' v.indexed k idx last moved n p here f
                  (λ j. evict_law last moved j p f))
                (omega
                  (arith, length-take last (set c.keys idx moved), length-set c.keys idx moved))
                (λ j. has_law last moved j index' f (evict_law last moved j p f)),
          )
    ]

    -- `removeKey`, called when the entry is gone already, removes the key without a panic.
    pub remove_key-Removed :
        (last : ℕ)
        → suc last ≡ length c.keys
        → (c' : AttrCache) × (remove_key k (record c { entries = erase k c.entries }) ≡ some c')
          × Removed k c c'
    unfolding remove_key move_last
    remove_key-Removed last n = elim (ℕ_discrete idx last) [
      | yes p ↦ (
        record c {
          entries = erase k c.entries;
          keys = take last c.keys;
          key_index = erase k c.key_index;
        },
        ground (arith, here, v.indexed.index_of k idx here),
        Removed-intro (take last c.keys) (erase k c.key_index) here
            (take-Indexed c.keys c.key_index (erase k c.key_index) v.indexed k last n
              (rw (← p) here) (λ j. lookup-erase k j c.key_index))
            (omega (arith, length-take last c.keys)) (λ j. has-erase k j c.key_index),
      )
      | no p ↦
          let (moved, f) = last_key last n in
          let index' = erase k (insert moved idx c.key_index) in
          (
            record c {
              entries = erase k c.entries;
              keys = take last (set c.keys idx moved);
              key_index = index';
            },
            ground (arith, here, v.indexed.index_of k idx here),
            Removed-intro (take last (set c.keys idx moved)) index' here
                (swap-Indexed c.keys c.key_index index' v.indexed k idx last moved n p here f
                  (λ j. remove_law last moved j p f))
                (omega
                  (arith, length-take last (set c.keys idx moved), length-set c.keys idx moved))
                (λ j. has_law last moved j index' f (remove_law last moved j p f)),
          )
    ]
