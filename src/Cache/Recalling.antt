-- ===== src/Cache/Recalling.antt =====
-- pkg/gcs/fs/attrcache.go: the cache against a memory that forgets nothing, which holds for each key the
-- entry that was written last.
pub mod Roomy
use text.Mathlib.Text.{◌==◌ as text_eq}
use text.Mathlib.TextEquality.{eq_iff}
use caddy_fs_gcs.Base.{
  ℕ, ◌≡◌, ◌≢◌, ◌∙◌, ◌⊎◌, refl, sym, ap, inl, inr, String, List, [], ◌∷◌, Bool, true, false, Option,
  none, some, arith, ◌>>=◌, pos, ◌+ℤ◌, Dict, lookup, if◌then◌else◌, Bool-cases, Option-cases,
  text_dec,
}
use caddy_fs_gcs.Cache.{
  AttrCache, AttrEntry, Attrs, Found, absent, stale, fresh, sentinel_not_found, expired, read, reap,
  get, set_attrs, set_not_found, new_attr_cache, add_one,
}
use caddy_fs_gcs.Cache.Valid.{IsValid, new_attr_cache-IsValid}
use caddy_fs_gcs.Cache.Storing.{Stored, set_attrs-Stored, set_not_found-Stored}
use caddy_fs_gcs.Cache.Reading.{Reaped, reap-Reaped, visible, live, get-Got}
use caddy_fs_gcs.Cache.History.{
  Step, reads, reaps, sets, sets_not_found, count_read, step, run, Chosen, AllChosen,
}

-- The entry that was last written for each key.
abbrev pub Memory : Type 0
Memory = String → Option AttrEntry

abbrev pub written : ℕ → Attrs → ℕ → AttrEntry
written now a lifetime = record { attrs = a; expires_at = pos now +ℤ pos lifetime }

abbrev pub put : String → AttrEntry → Memory → Memory
put key e m k = if text_eq k key then some e else m k

pub put_same : (key k : String) (e : AttrEntry) (m : Memory) → k ≡ key → put key e m k ≡ some e
put_same key k e m same = ground (arith, eq_iff k key)

pub put_other : (key k : String) (e : AttrEntry) (m : Memory) → k ≢ key → put key e m k ≡ m k
put_other key k e m other = ground (arith, eq_iff k key)

-- A step of a cache with the lifetimes `ttl` and `neg_ttl`, on the memory.
unfoldable pub recall_step : ℕ → ℕ → Step → Memory → Memory
recall_step ttl neg_ttl (reads now key) m = m
recall_step ttl neg_ttl (reaps now key) m = m
recall_step ttl neg_ttl (sets int_n now key a) m = put key (written now a ttl) m
recall_step ttl neg_ttl (sets_not_found int_n now key) m =
    put key (written now sentinel_not_found neg_ttl) m

unfoldable pub recall : ℕ → ℕ → List Step → Memory → Memory
recall ttl neg_ttl [] m = m
recall ttl neg_ttl (s ∷ steps) m = recall ttl neg_ttl steps (recall_step ttl neg_ttl s m)

-- What the cache holds, the memory holds.
pub record Recalls (ttl neg_ttl : ℕ) (c : AttrCache) (m : Memory) : Type 0 where
  pub valid : IsValid c
  pub same_ttl : c.ttl ≡ ttl
  pub same_neg_ttl : c.neg_ttl ≡ neg_ttl
  pub held : (k : String) (e : AttrEntry) → lookup k c.entries ≡ some e → m k ≡ some e

module _ (ttl neg_ttl : ℕ) where
  pub recount-Recalls :
      (hits misses : ℕ) (c : AttrCache) (m : Memory)
      → Recalls ttl neg_ttl c m
      → Recalls ttl neg_ttl (record c { hits = hits; misses = misses }) m
  recount-Recalls hits misses c m r = record {
    valid = record {
      indexed = r.valid.indexed;
      same_keys = r.valid.same_keys;
      distinct = r.valid.distinct;
      sized = r.valid.sized;
    };
    same_ttl = r.same_ttl;
    same_neg_ttl = r.same_neg_ttl;
    held = r.held;
  }

  read-Recalls :
      (c : AttrCache) (m : Memory) (f : Found)
      → Recalls ttl neg_ttl c m
      → Recalls ttl neg_ttl (count_read c f) m
  read-Recalls c m absent r = recount-Recalls c.hits (add_one c.misses) c m r
  read-Recalls c m stale r = r
  read-Recalls c m (fresh a) r = recount-Recalls (add_one c.hits) c.misses c m r

  pub put_held :
      (now : ℕ) (key : String) (e : AttrEntry) (c c' : AttrCache) (m : Memory)
      → Stored now key e c c'
      → Recalls ttl neg_ttl c m
      → Recalls ttl neg_ttl c' (put key e m)
  put_held now key e c c' m s r = record {
    valid = s.valid;
    same_ttl = s.same.same_ttl ∙ r.same_ttl;
    same_neg_ttl = s.same.same_neg_ttl ∙ r.same_neg_ttl;
    held = λ k d p. elim (text_dec k key) [
      | yes same ↦ put_same key k e m same ∙ sym s.stored ∙ rw same at p
      | no other ↦ put_other key k e m other ∙ r.held k d (s.kept k d other p)
    ];
  }

  pub Reaped-Recalls :
      (now : ℕ) (key : String) (c c' : AttrCache) (m : Memory)
      → (r : Recalls ttl neg_ttl c m) → Reaped now key c r.valid c'
      → Recalls ttl neg_ttl c' m
  Reaped-Recalls now key c c' m r d = record {
    valid = d.valid;
    same_ttl = d.same.same_ttl ∙ r.same_ttl;
    same_neg_ttl = d.same.same_neg_ttl ∙ r.same_neg_ttl;
    held = λ k e p. r.held k e (d.kept k e p);
  }

  step-Recalls :
      (s : Step) (c : AttrCache) (m : Memory)
      → Chosen s
      → Recalls ttl neg_ttl c m
      → (c' : AttrCache) × (step s c ≡ some c')
        × Recalls ttl neg_ttl c' (recall_step ttl neg_ttl s m)
  unfolding step recall_step
  step-Recalls (reads now key) c m h r =
      (count_read c (read now key c), refl, read-Recalls c m (read now key c) r)
  step-Recalls (reaps now key) c m h r =
      let (c', ran, d) = reap-Reaped now key c r.valid in
      (
        record c' { misses = add_one c'.misses },
        rw ran refl,
        recount-Recalls c'.hits (add_one c'.misses) c' m (Reaped-Recalls now key c c' m r d),
      )
  step-Recalls (sets int_n now key a) c m h r =
      let (c', ran, s) = set_attrs-Stored int_n h now key a c r.valid in
      (c', ran, rw r.same_ttl at (put_held now key (written now a c.ttl) c c' m s r))
  step-Recalls (sets_not_found int_n now key) c m h r =
      let (c', ran, s) = set_not_found-Stored int_n h now key c r.valid in
      (
        c',
        ran,
        rw r.same_neg_ttl at
            (put_held now key (written now sentinel_not_found c.neg_ttl) c c' m s r),
      )

  run-Recalls :
      (steps : List Step) (c : AttrCache) (m : Memory)
      → AllChosen steps
      → Recalls ttl neg_ttl c m
      → (c' : AttrCache) × (run steps c ≡ some c')
        × Recalls ttl neg_ttl c' (recall ttl neg_ttl steps m)
  unfolding run recall
  run-Recalls [] c m ok r = (c, refl, r)
  run-Recalls (s ∷ steps) c m ok r =
      let (d, one, k) = step-Recalls s c m ok.0 r in
      let (c', rest, l) = run-Recalls steps d (recall_step ttl neg_ttl s m) ok.1 k in
      (c', rw one rest, l)

  visible-Recalls :
      (now : ℕ) (key : String) (c : AttrCache) (m : Memory)
      → Recalls ttl neg_ttl c m
      → (visible now key c ≡ none) ⊎ (visible now key c ≡ live now (m key))
  unfolding visible
  visible-Recalls now key c m r = elim (Option-cases (lookup key c.entries)) [
    | inl h ↦ inl (rw h refl)
    | inr (e, h) ↦ inr (rw (h, r.held key e h) refl)
  ]

-- The lifetime of negative entries of a new cache.
abbrev pub new_neg_ttl : ℕ → ℕ
new_neg_ttl ttl = (new_attr_cache ttl 0).neg_ttl

pub new-Recalls : (ttl max : ℕ) → Recalls ttl (new_neg_ttl ttl) (new_attr_cache ttl max) (λ k. none)
unfolding new_attr_cache lookup
new-Recalls ttl max = record {
  valid = new_attr_cache-IsValid ttl max;
  same_ttl = refl;
  same_neg_ttl = refl;
  held = λ k e p. absurd (ground (arith, p));
}

-- From a new cache, with random choices in range, no interleaving of the critical sections of any calls
-- panics, and a `get` after it does not either; the `get` returns nothing, or what a memory shows that
-- evicts nothing and holds for each key the entry written last, if that has not expired at the
-- clock's reading.
pub run-recall :
    (ttl max : ℕ) (steps : List Step) (now : ℕ) (key : String)
    → AllChosen steps
    → (c c' : AttrCache) × (a : Option Attrs) × (run steps (new_attr_cache ttl max) ≡ some c)
      × (get now key c ≡ some (c', a))
      × ((a ≡ none) ⊎ (a ≡ live now (recall ttl (new_neg_ttl ttl) steps (λ k. none) key)))
unfolding new_attr_cache
run-recall ttl max steps now key ok =
    let m = recall ttl (new_neg_ttl ttl) steps (λ k. none) in
    let (c, ran, r) =
      run-Recalls ttl (new_neg_ttl ttl) steps (new_attr_cache ttl max) (λ k. none) ok
        (new-Recalls ttl max) in
    let (c', got, g) = get-Got now key c r.valid in
    (c, c', visible now key c, ran, got, visible-Recalls ttl (new_neg_ttl ttl) now key c m r)
