-- ===== src/Cache/Examples.antt =====
-- pkg/gcs/fs/attrcache.go: runs of the cache on concrete inputs.
use caddy_fs_gcs.Base.{
  ℕ, ◌+◌, text_dec, Bool-cases, ◌≡◌, ◌⊎◌, ◌∙◌, ◌^◌, ◌>>=◌, refl, sym, String, List, [], ◌∷◌, Option,
  none, some, arith, lookup, insert, erase, some_injective, ltb, pos, ◌+ℤ◌, wrap64, if◌then◌else◌,
}
use caddy_fs_gcs.Cache.{
  AttrCache, AttrEntry, Attrs, object, sentinel_not_found, new_attr_cache, store, set_attrs,
  set_not_found, get, read, reap, remove_key, move_last, evict_at, evict_if_needed, scan, scan_step,
}
use caddy_fs_gcs.Cache.Valid.{IsValid}
use caddy_fs_gcs.Cache.Scanning.{InRange}
use caddy_fs_gcs.Cache.Eviction.{Evicted, evict_if_needed-Evicted}
use caddy_fs_gcs.Cache.Storing.{Stored, set-Stored}
use caddy_fs_gcs.Cache.Reading.{live, visible, Got, get-Got, get-set}
use caddy_fs_gcs.Cache.History.{
  Step, reads, reaps, sets, sets_not_found, step, run, AllChosen, Sound, run-new_attr_cache,
}
use caddy_fs_gcs.Cache.Recalling.{recall_step, recall, new_neg_ttl, run-recall}
use caddy_fs_gcs.Cache.Recalling.Roomy.{get-recall}
use caddy_fs_gcs.Cache.Clock
use caddy_fs_gcs.Cache.Clock.{
  ClockStep, enters, makes, launches, finishes, stops, ticks, leaves, process_start, enter,
  make_channel, launch, finish, stop_shared_clock, tick, leave, waits, remove,
}
use caddy_fs_gcs.Cache.Clock.Ticking.{IsDriven, Orderly, run-IsDriven}

program : Unit {0}
unfolding ◌+ℤ◌ wrap64 new_attr_cache store set_attrs set_not_found get read reap remove_key
    move_last evict_at evict_if_needed scan scan_step lookup insert erase step run recall_step
    recall visible text_dec Bool-cases
program = tt

-- The first key of the slice, always.
abbrev first_key : ℕ → ℕ → ℕ
first_key j n = 0

first_key-InRange : InRange first_key
first_key-InRange j n h = h

abbrev page : String → Attrs
page name = object (record { name = name; prefix = ""; size = 5; updated = 1 })

abbrev entry : String → ℕ → AttrEntry
entry name t = record { attrs = page name; expires_at = pos t }

-- A cache with a limit of 2 that is full; its entries expire at 110 and at 120.
abbrev full_cache : AttrCache
full_cache = record {
  entries = ("a.html", entry "a.html" 110) ∷ ("b.html", entry "b.html" 120) ∷ [];
  keys = "a.html" ∷ "b.html" ∷ [];
  key_index = ("a.html", 0) ∷ ("b.html", 1) ∷ [];
  ttl = 100;
  neg_ttl = 10 ^ 9;
  max_entries = 2;
  hits = 0;
  misses = 0;
}

abbrev fill : List Step
fill = sets first_key 10 "a.html" (page "a.html") ∷ sets first_key 20 "b.html" (page "b.html") ∷ []

filled : run fill (new_attr_cache 100 2) ≡ some full_cache
unfolding program
filled = refl

full_cache-IsValid : IsValid full_cache
full_cache-IsValid =
    let (c, ran, h) =
      run-new_attr_cache 100 2 fill (omega arith) (first_key-InRange, (first_key-InRange, tt)) in
    rw (some_injective (sym ran ∙ filled)) at h.valid

-- A third key drives out the entry that the scan finds to be the oldest.
evicted :
    (set_attrs first_key 30 "c.html" (page "c.html") full_cache >>= λ c. some c.keys)
    ≡ some ("b.html" ∷ "c.html" ∷ [])
unfolding program
evicted = refl

abbrev busy : List Step
busy =
    sets first_key 10 "a.html" (page "a.html")
    ∷ reads 11 "a.html"
    ∷ sets_not_found first_key 12 "b.html"
    ∷ sets first_key 13 "c.html" (page "c.html")
    ∷ reads 10000 "c.html"
    ∷ reaps 10000 "c.html"
    ∷ []

busy-AllChosen : AllChosen busy
busy-AllChosen = (first_key-InRange, (tt, (first_key-InRange, (first_key-InRange, (tt, (tt, tt))))))

run-new_attr_cache_example :
    (c : AttrCache) × (run busy (new_attr_cache 100 2) ≡ some c) × Sound 2 c
run-new_attr_cache_example = run-new_attr_cache 100 2 busy (omega arith) busy-AllChosen

run-recall_example :
    (c c' : AttrCache) × (a : Option Attrs) × (run busy (new_attr_cache 100 2) ≡ some c)
    × (get 10001 "a.html" c ≡ some (c', a))
    × ((a ≡ none) ⊎ (a ≡ live 10001 (recall 100 (new_neg_ttl 100) busy (λ k. none) "a.html")))
run-recall_example = run-recall 100 2 busy 10001 "a.html" busy-AllChosen

get-recall_example :
    (c c' : AttrCache) × (run busy (new_attr_cache 100 6) ≡ some c)
    × (get 10001 "b.html" c
        ≡ some (c', live 10001 (recall 100 (new_neg_ttl 100) busy (λ k. none) "b.html")))
get-recall_example =
    get-recall 100 6 busy 10001 "b.html" busy-AllChosen (ground arith) (omega arith)

-- The second key is still denied.
recalled :
    live 10001 (recall 100 (new_neg_ttl 100) busy (λ k. none) "b.html") ≡ some sentinel_not_found
unfolding program
recalled = refl

set-Stored_example :
    ((c : AttrCache) × (set_attrs first_key 30 "c.html" (page "c.html") full_cache ≡ some c)
      × Stored 30 "c.html"
          (record { attrs = page "c.html"; expires_at = pos 30 +ℤ pos 100 })
          full_cache
          c)
    × ((c : AttrCache) × (set_not_found first_key 30 "c.html" full_cache ≡ some c)
        × Stored 30 "c.html"
            (record { attrs = sentinel_not_found; expires_at = pos 30 +ℤ pos (10 ^ 9) })
            full_cache
            c)
set-Stored_example =
    set-Stored first_key first_key-InRange 30 "c.html" (page "c.html") full_cache full_cache-IsValid

drive_out :
    (c : AttrCache) × (evict_if_needed first_key 115 full_cache ≡ some c) × Evicted 115 full_cache c
drive_out = evict_if_needed-Evicted first_key first_key-InRange 115 full_cache full_cache-IsValid

get-Got_example :
    (c : AttrCache) × (get 115 "a.html" full_cache ≡ some (c, visible 115 "a.html" full_cache))
    × Got 115 "a.html" full_cache full_cache-IsValid c
get-Got_example = get-Got 115 "a.html" full_cache full_cache-IsValid

get-set_example :
    ((c₁ c₂ : AttrCache) × (set_attrs first_key 30 "a.html" (page "a.html") full_cache ≡ some c₁)
      × (get 130 "a.html" c₁
          ≡ some (c₂, if ltb (30 + 100) 130 then none else some (page "a.html"))))
    × ((c₁ c₂ : AttrCache) × (set_not_found first_key 30 "a.html" full_cache ≡ some c₁)
        × (get 130 "a.html" c₁
            ≡ some (c₂, if ltb (30 + 10 ^ 9) 130 then none else some sentinel_not_found)))
get-set_example =
    get-set first_key first_key-InRange 30 130 "a.html" (page "a.html") full_cache
      full_cache-IsValid (omega arith) (omega arith)

-- A start, while another one waits; the clock is stopped while its goroutine is about to tick, started
-- again, and the old goroutine leaves.
abbrev restarted : List ClockStep
restarted =
    enters
    ∷ makes
    ∷ enters
    ∷ launches 1
    ∷ finishes
    ∷ enters
    ∷ ticks 0 2
    ∷ stops
    ∷ ticks 0 3
    ∷ enters
    ∷ makes
    ∷ launches 4
    ∷ finishes
    ∷ leaves 0
    ∷ ticks 1 5
    ∷ []

restarted-Orderly : Orderly restarted process_start
unfolding Clock.advance enter make_channel launch finish stop_shared_clock tick leave waits remove
restarted-Orderly = ground arith

run-IsDriven_example : (c : Clock.Clock) × (Clock.run restarted process_start ≡ some c) × IsDriven c
run-IsDriven_example = run-IsDriven restarted restarted-Orderly

one_left : (Clock.run restarted process_start >>= λ c. some c.goroutines) ≡ some (1 ∷ [])
unfolding Clock.run Clock.step Clock.advance enter make_channel launch finish stop_shared_clock tick
    leave waits remove
one_left = refl

-- A stop between the channel and the goroutine is past what is modelled.
overlapped : Clock.run (enters ∷ makes ∷ stops ∷ []) process_start ≡ none
unfolding Clock.run Clock.step Clock.advance enter make_channel
overlapped = refl
