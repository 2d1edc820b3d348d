-- ===== src/Cache/Recalling/Roomy.antt =====
-- pkg/gcs/fs/attrcache.go: the cache against the memory, when it never reaches its limit and the clock
-- does not go back.
use caddy_fs_gcs.Base.{
  ℕ, suc, ◌+◌, ◌≡◌, ◌≤◌, ◌∙◌, refl, sym, inl, inr, String, List, [], ◌∷◌, false, none, some, arith,
  length, lookup, Option-cases, Bool-cases, text_dec,
}
use caddy_fs_gcs.Cache.{
  AttrCache, AttrEntry, Found, absent, stale, fresh, sentinel_not_found, expired, read, reap, get,
  set_attrs, set_not_found, new_attr_cache, add_one,
}
use caddy_fs_gcs.Cache.Storing.{Stored, Roomy, store-Roomy, set_attrs-Stored, set_not_found-Stored}
use caddy_fs_gcs.Cache.Reading.{reap-Reaped, Reaped-spares, visible, live, get-Got}
use caddy_fs_gcs.Cache.History.{
  Step, reads, reaps, sets, sets_not_found, count_read, step, run, Chosen, AllChosen,
}
use caddy_fs_gcs.Cache.Recalling.{
  Memory, put, put_same, put_other, written, recall_step, recall, Recalls, recount-Recalls,
  Reaped-Recalls, new-Recalls, put_held, new_neg_ttl,
}

abbrev pub time : Step → ℕ
time (reads now key) = now
time (reaps now key) = now
time (sets int_n now key a) = now
time (sets_not_found int_n now key) = now

-- No reading of the clock, `start` the first and `end` the last, is before an earlier one.
abbrev pub InOrder : ℕ → List Step → ℕ → Type 0
InOrder start [] end = start ≤ end
InOrder start (s ∷ steps) end = (start ≤ time s) × InOrder (time s) steps end

later_expired :
    (now later : ℕ) (e : AttrEntry) → now ≤ later → expired later e ≡ false → expired now e ≡ false
later_expired now later e le x = ground arith

module _ (ttl neg_ttl : ℕ) where
  -- The cache holds what the memory holds and has not expired, and `room` entries more fit into it.
  record Agrees (now room : ℕ) (c : AttrCache) (m : Memory) : Type 0 where
    recalls : Recalls ttl neg_ttl c m
    complete :
        (k : String) (e : AttrEntry)
        → m k ≡ some e
        → expired now e ≡ false
        → lookup k c.entries ≡ some e
    roomy : length c.entries + room ≤ c.max_entries

  recount-Agrees :
      (now later room hits misses : ℕ) (c : AttrCache) (m : Memory)
      → now ≤ later
      → Agrees now (suc room) c m
      → Agrees later room (record c { hits = hits; misses = misses }) m
  recount-Agrees now later room hits misses c m le h = record {
    recalls = recount-Recalls ttl neg_ttl hits misses c m h.recalls;
    complete = λ k e p x. h.complete k e p (later_expired now later e le x);
    roomy = omega (arith, h.roomy);
  }

  read-Agrees :
      (now later room : ℕ) (c : AttrCache) (m : Memory) (f : Found)
      → now ≤ later
      → Agrees now (suc room) c m
      → Agrees later room (count_read c f) m
  read-Agrees now later room c m absent le h =
      recount-Agrees now later room c.hits (add_one c.misses) c m le h
  read-Agrees now later room c m stale le h = recount-Agrees now later room c.hits c.misses c m le h
  read-Agrees now later room c m (fresh a) le h =
      recount-Agrees now later room (add_one c.hits) c.misses c m le h

  put-Agrees :
      (now later room : ℕ) (key : String) (e : AttrEntry) (c c' : AttrCache) (m : Memory)
      → now ≤ later
      → Stored later key e c c'
      → Roomy key c c'
      → Agrees now (suc room) c m
      → Agrees later room c' (put key e m)
  put-Agrees now later room key e c c' m le s r h = record {
    recalls = put_held ttl neg_ttl later key e c c' m s h.recalls;
    complete = λ k d p x. elim (text_dec k key) [
      | yes same ↦ rw same (s.stored ∙ sym (put_same key k e m same) ∙ p)
      | no other ↦
          r.others k other
          ∙ h.complete k d (sym (put_other key k e m other) ∙ p) (later_expired now later d le x)
    ];
    roomy = omega (arith, h.roomy, r.grown, s.same.same_max);
  }

  reap-Agrees :
      (now later room : ℕ) (key : String) (c : AttrCache) (m : Memory)
      → now ≤ later
      → Agrees now (suc room) c m
      → (c' : AttrCache) × (reap later key c ≡ some c')
        × Agrees later room (record c' { misses = add_one c'.misses }) m
  reap-Agrees now later room key c m le h =
      let (c', ran, d) = reap-Reaped later key c h.recalls.valid in
      let same : Recalls ttl neg_ttl c' m =
        Reaped-Recalls ttl neg_ttl later key c c' m h.recalls d in
      (
        c',
        ran,
        record {
          recalls = recount-Recalls ttl neg_ttl c'.hits (add_one c'.misses) c' m same;
          complete = λ k e p x.
              Reaped-spares later key c h.recalls.valid c' k e d
                (h.complete k e p (later_expired now later e le x)) x;
          roomy = omega (arith, h.roomy, d.shrunk, d.same.same_max);
        },
      )

  step-Agrees :
      (s : Step) (now room : ℕ) (c : AttrCache) (m : Memory)
      → Chosen s
      → now ≤ time s
      → Agrees now (suc room) c m
      → (c' : AttrCache) × (step s c ≡ some c')
        × Agrees (time s) room c' (recall_step ttl neg_ttl s m)
  unfolding step recall_step set_attrs set_not_found
  step-Agrees (reads later key) now room c m ok le h = (
    count_read c (read later key c),
    refl,
    read-Agrees now later room c m (read later key c) le h,
  )
  step-Agrees (reaps later key) now room c m ok le h =
      let (c', ran, d) = reap-Agrees now later room key c m le h in
      (record c' { misses = add_one c'.misses }, rw ran refl, d)
  step-Agrees (sets int_n later key a) now room c m ok le h =
      let (c', ran, s) = set_attrs-Stored int_n ok later key a c h.recalls.valid in
      let r = store-Roomy int_n ok later key a c.ttl c c' (omega (arith, h.roomy)) ran in
      (
        c',
        ran,
        rw h.recalls.same_ttl at
            (put-Agrees now later room key (written later a c.ttl) c c' m le s r h),
      )
  step-Agrees (sets_not_found int_n later key) now room c m ok le h =
      let (c', ran, s) = set_not_found-Stored int_n ok later key c h.recalls.valid in
      let r =
        store-Roomy int_n ok later key sentinel_not_found c.neg_ttl c c' (omega (arith, h.roomy))
          ran in
      (
        c',
        ran,
        rw h.recalls.same_neg_ttl at (
            put-Agrees now later room key (written later sentinel_not_found c.neg_ttl) c c' m le s r
              h),
      )

  run-Agrees :
      (steps : List Step) (start end : ℕ) (c : AttrCache) (m : Memory)
      → AllChosen steps
      → InOrder start steps end
      → Agrees start (length steps) c m
      → (c' : AttrCache) × (last : ℕ) × (run steps c ≡ some c')
        × (last ≤ end)
        × Agrees last 0 c' (recall ttl neg_ttl steps m)
  unfolding run recall
  run-Agrees [] start end c m ok le h = (c, start, refl, le, h)
  run-Agrees (s ∷ steps) start end c m ok le h =
      let (d, one, k) = step-Agrees s start (length steps) c m ok.0 le.0 h in
      let (c', last, rest, e, l) =
        run-Agrees steps (time s) end d (recall_step ttl neg_ttl s m) ok.1 le.1 k in
      (c', last, rw one rest, e, l)

  visible-Agrees :
      (last now room : ℕ) (key : String) (c : AttrCache) (m : Memory)
      → last ≤ now
      → Agrees last room c m
      → visible now key c ≡ live now (m key)
  unfolding visible
  visible-Agrees last now room key c m le h = elim (Option-cases (lookup key c.entries)) [
    | inr (e, here) ↦ rw (here, h.recalls.held key e here) refl
    | inl gone ↦ elim (Option-cases (m key)) [
      | inl none_written ↦ rw (gone, none_written) refl
      | inr (e, found) ↦ elim (Bool-cases (expired now e)) [
        | inl past ↦ rw (gone, found, past) refl
        | inr valid ↦
            let here = h.complete key e found (later_expired last now e le valid) in
            absurd (ground (arith, sym gone ∙ here))
      ]
    ]
  ]

-- From a new cache whose limit is at least the number of steps, with a clock that does not go back and
-- random choices in range, no interleaving of the critical sections of any calls panics, and a `get`
-- after it returns exactly what a memory shows that evicts nothing: the attributes that were written
-- last for the key, if they have not expired at the clock's reading, and nothing otherwise.
pub get-recall :
    (ttl max : ℕ) (steps : List Step) (now : ℕ) (key : String)
    → AllChosen steps
    → InOrder 0 steps now
    → length steps ≤ max
    → (c c' : AttrCache) × (run steps (new_attr_cache ttl max) ≡ some c)
      × (get now key c ≡ some (c', live now (recall ttl (new_neg_ttl ttl) steps (λ k. none) key)))
unfolding new_attr_cache lookup
get-recall ttl max steps now key ok order fits =
    let m = recall ttl (new_neg_ttl ttl) steps (λ k. none) in
    let (c, last, ran, le, h) =
      run-Agrees ttl (new_neg_ttl ttl) steps 0 now (new_attr_cache ttl max) (λ k. none) ok order
        (record {
          recalls = new-Recalls ttl max;
          complete = λ k e p x. absurd (ground (arith, p));
          roomy = omega (arith, fits);
        }) in
    let (c', got, g) = get-Got now key c h.recalls.valid in
    let seen = visible-Agrees ttl (new_neg_ttl ttl) last now 0 key c m le h in
    (c, c', ran, rw seen at got)
