-- ===== src/Fs/Examples.antt =====
-- pkg/gcs/fs/gcsfs.go: runs of `Stat` on a bucket with one page, whose listings fail.
use text.Mathlib.Text.{◌==◌ as text_eq}
use caddy_fs_gcs.Base.{
  ℕ, ◌+◌, ◌^◌, ◌≡◌, ◌∙◌, refl, sym, String, true, if◌then◌else◌, List, [], ◌∷◌, map, none, some,
  arith, lookup, insert, erase, some_injective, pos, ◌+ℤ◌, wrap64, text_dec, Bool-cases,
}
use caddy_fs_gcs.Cache.{
  AttrCache, ObjectAttrs, sentinel_not_found, new_attr_cache, store, set_not_found, evict_if_needed,
}
use caddy_fs_gcs.Cache.Valid.{IsValid, new_attr_cache-IsValid}
use caddy_fs_gcs.Cache.Storing.{set_not_found-Stored}
use caddy_fs_gcs.Cache.Reading.{visible}
use caddy_fs_gcs.Paths.{
  clean, clean_parts, render, join_path, join_slash, split_slash, resolve, resolve_all, ext,
}
use caddy_fs_gcs.Fs.Errors.{
  iterator_done, is_done, other, object_not_exist, not_exist, path_error, root, Result, ok, err,
}
use caddy_fs_gcs.Fs.{
  World, GcsFs, Backend, Handle, Env, report, cache_hit, stat, object_key, dir_prefix,
}
use caddy_fs_gcs.Fs.Caching.{Chosen, IsSound}
use caddy_fs_gcs.Fs.Answering.{answer, expected}
use caddy_fs_gcs.Fs.Stating.{stat-expected}
use caddy_fs_gcs.Fs.Listing.{Listing, DirFile, iterator_for, iterator_of, read_dir}
use caddy_fs_gcs.Fs.Paging.{next_page, read_dir-page}
use caddy_fs_gcs.Fs.Negative.{Denied, Denies, stat-Denied}
use caddy_fs_gcs.Fs.Polling.{polls, polls-Denied}
use caddy_fs_gcs.Fs.Remembering.{stat-again}

program : Unit {0}
unfolding new_attr_cache store set_not_found evict_if_needed lookup insert erase text_dec Bool-cases
    ◌+ℤ◌ wrap64 visible clean clean_parts render join_path join_slash split_slash resolve
    resolve_all ext root dir_prefix answer
program = tt

abbrev site : GcsFs
site = record {
  bucket_name = "pages";
  prefix = "site";
  hooks = record {
    on_event = true;
    on_cache_hit = true;
    on_cache_miss = true;
    on_gcs_op = true;
    on_stream_bytes = true;
  };
}

abbrev index_attrs : ObjectAttrs
index_attrs = record { name = "site/index.html"; prefix = ""; size = 5; updated = 1 }

abbrev bucket_attrs : String → Result ObjectAttrs
bucket_attrs key = if text_eq key "site/index.html" then ok index_attrs else err object_not_exist

abbrev bucket : Backend
bucket = record { attrs = bucket_attrs; list_first = λ prefix. some (other "503") }

abbrev env_at : ℕ → Env
env_at t = record { fs = site; backend = bucket; now = t; later = t; pick = λ i j n. 0 }

env_at-Chosen : (t : ℕ) → Chosen (env_at t)
env_at-Chosen t i j n h = h

abbrev page : Handle
page = record { name = "index.html"; full_path = "site/index.html" }

abbrev missing : Handle
missing = record { name = "about"; full_path = "site/about" }

abbrev empty_cache : AttrCache
empty_cache = new_attr_cache 100 2

abbrev world_of : AttrCache → World
world_of c = record { cache = some c; log = [] }

world_of-IsSound : (c : AttrCache) → IsValid c → IsSound (world_of c)
world_of-IsSound c v d p = ground (arith, v)

abbrev denying_cache : AttrCache
denying_cache = record {
  entries =
      ("site/about", record { attrs = sentinel_not_found; expires_at = pos (10 + 10 ^ 9) }) ∷ [];
  keys = "site/about" ∷ [];
  key_index = ("site/about", 0) ∷ [];
  ttl = 100;
  neg_ttl = 10 ^ 9;
  max_entries = 2;
  hits = 0;
  misses = 0;
}

denied_once : set_not_found (λ j n. 0) 10 "site/about" empty_cache ≡ some denying_cache
unfolding program
denied_once = refl

denying_cache-IsValid : IsValid denying_cache
denying_cache-IsValid =
    let (c, ran, s) =
      set_not_found-Stored (λ j n. 0) (λ j n h. h) 10 "site/about" empty_cache
        (new_attr_cache-IsValid 100 2) in
    rw (some_injective (sym ran ∙ denied_once)) at s.valid

denying_cache-Denied : Denied missing 10 (10 ^ 9) (world_of denying_cache)
unfolding program
denying_cache-Denied = record {
  cache = denying_cache;
  here = refl;
  entry = refl;
  same_neg_ttl = refl;
}

shown : visible 20 "site/about" denying_cache ≡ some sentinel_not_found
unfolding program
shown = refl

unseen : (t : ℕ) (key : String) → visible t key empty_cache ≡ none
unfolding program
unseen t key = refl

answered : answer (env_at 5) page ≡ ok (record { attrs = index_attrs })
unfolding program
answered = refl

not_there : bucket.attrs (object_key site "about") ≡ err object_not_exist
unfolding program
not_there = refl

stat-expected_example :
    (w : World) × (stat (env_at 5) page (world_of empty_cache)
      ≡ some (w, expected (env_at 5) page (some empty_cache)))
    × IsSound w
stat-expected_example =
    stat-expected (env_at 5) (env_at-Chosen 5) page (world_of empty_cache)
      (world_of-IsSound empty_cache (new_attr_cache-IsValid 100 2))

stat-Denied_example :
    Denies (env_at 5) missing empty_cache (stat (env_at 5) missing (world_of empty_cache))
unfolding root
stat-Denied_example =
    stat-Denied (env_at 5) (env_at-Chosen 5) missing empty_cache (world_of empty_cache)
      object_not_exist (other "503") (world_of-IsSound empty_cache (new_attr_cache-IsValid 100 2))
      refl refl (unseen 5 "site/about") not_there refl refl

abbrev styles : Listing
styles = record {
  objects = index_attrs ∷ record index_attrs { name = "site/style.css" } ∷ [];
  ending = iterator_done;
}

abbrev open_dir : DirFile
open_dir = record { handle = page; iter = none }

iterator_done-is : is_done iterator_done ≡ true
unfolding root
iterator_done-is = refl

read_dir-page_example :
    read_dir (env_at 5) (λ prefix. styles) (pos 1) open_dir (world_of empty_cache)
    ≡ some (
      world_of empty_cache,
      next_page (pos 1) open_dir (iterator_of (env_at 5) (λ prefix. styles) open_dir),
    )
unfolding iterator_for
read_dir-page_example =
    read_dir-page (env_at 5) (λ prefix. styles) (pos 1) open_dir (world_of empty_cache)
      iterator_done-is

-- Two calls, the second of them after the first entry has expired.
abbrev polling : List Env
polling = env_at (10 ^ 9) ∷ env_at (10 ^ 9 + 10 ^ 8) ∷ []

polls-Denied_example :
    (w : World) × (polls polling missing (world_of denying_cache)
      ≡ some (w, map (λ env. err (path_error "stat" "about" not_exist)) polling))
polls-Denied_example =
    polls-Denied polling missing 10 (10 ^ 9) (world_of denying_cache)
      (world_of-IsSound denying_cache denying_cache-IsValid) denying_cache-Denied
      (
        env_at-Chosen (10 ^ 9),
        omega arith,
        omega arith,
        (env_at-Chosen (10 ^ 9 + 10 ^ 8), omega arith, omega arith, tt),
      )

stat-again_example :
    (w w' : World) × (stat (env_at 5) page (world_of empty_cache)
      ≡ some (w, ok (record { attrs = index_attrs })))
    × (stat (env_at 50) page w ≡ some (w', ok (record { attrs = index_attrs })))
    × (w'.log ≡ (report true cache_hit w).log)
unfolding new_attr_cache
stat-again_example =
    stat-again (env_at 5) (env_at-Chosen 5) page (record { attrs = index_attrs }) (env_at 50)
      empty_cache (world_of empty_cache)
      (world_of-IsSound empty_cache (new_attr_cache-IsValid 100 2)) refl
      (unseen 5 "site/index.html") answered (omega arith) (omega arith)
