-- ===== src/Fs/RefreshingTests.antt =====
-- pkg/gcs/fs/gcsfs.go: a missing page that is uploaded after two calls have been told "not exist".
use caddy_fs_gcs.Base.{ℕ, ◌+◌, ◌*◌, ◌^◌, ◌≡◌, refl, true, false, some, List, [], ◌∷◌, arith, lookup}
use caddy_fs_gcs.Cache.{ObjectAttrs, new_attr_cache}
use caddy_fs_gcs.Cache.Valid.{new_attr_cache-IsValid}
use caddy_fs_gcs.Fs.Errors.{Result, ok, err, object_not_exist, other}
use caddy_fs_gcs.Fs.{World, GcsFs, Backend, Handle, Env, FileInfo, stat}
use caddy_fs_gcs.Fs.Caching.{Chosen}
use caddy_fs_gcs.Fs.Answering.{answer}
use caddy_fs_gcs.Fs.Refreshing.{IsFresh, EndsAll, Call, stat_all, stat_all-refreshes}

abbrev site : GcsFs
site = record {
  bucket_name = "pages";
  prefix = "";
  hooks = record {
    on_event = false;
    on_cache_hit = true;
    on_cache_miss = true;
    on_gcs_op = true;
    on_stream_bytes = true;
  };
}

abbrev page_attrs : ObjectAttrs
page_attrs = record { name = "new.html"; prefix = ""; size = 7; updated = 1 }

abbrev empty_bucket : Backend
empty_bucket = record {
  attrs = λ key. err object_not_exist;
  list_first = λ prefix. some (other "503");
}

abbrev filled_bucket : Backend
filled_bucket = record { attrs = λ key. ok page_attrs; list_first = λ prefix. some (other "503") }

abbrev at_time : Backend → ℕ → Env
at_time b t = record { fs = site; backend = b; now = t; later = t; pick = λ i j n. 0 }

at_time-Chosen : (b : Backend) (t : ℕ) → Chosen (at_time b t)
at_time-Chosen b t i j n h = h

abbrev page : Handle
page = record { name = "new.html"; full_path = "new.html" }

abbrev started : World
started = record { cache = some (new_attr_cache 100 2); log = [] }

-- An empty cache is fresh at any time.
new-IsFresh : IsFresh (10 ^ 9) (2 * 10 ^ 9) (new_attr_cache 100 2)
unfolding new_attr_cache lookup
new-IsFresh = record {
  valid = new_attr_cache-IsValid 100 2;
  short = omega arith;
  short_neg = omega arith;
  ends = λ k e h. absurd (ground arith);
}

started-EndsAll : EndsAll (10 ^ 9) (2 * 10 ^ 9) started
started-EndsAll = new-IsFresh

-- The second call renews what the first has cached.
abbrev asked_twice : List Call
asked_twice =
    record { env = at_time empty_bucket 5; file = page }
    ∷ record { env = at_time empty_bucket (10 ^ 9); file = page }
    ∷ []

stat_all-refreshes_example :
    (w' w'' : World) × (rs : List (Result FileInfo)) × (stat_all asked_twice started
      ≡ some (w', rs))
    × (stat (at_time filled_bucket (2 * 10 ^ 9 + 1)) page w'
        ≡ some (w'', answer (at_time filled_bucket (2 * 10 ^ 9 + 1)) page))
stat_all-refreshes_example =
    stat_all-refreshes (10 ^ 9) (2 * 10 ^ 9) asked_twice (at_time filled_bucket (2 * 10 ^ 9 + 1))
      page started (omega arith)
      (
        at_time-Chosen empty_bucket 5,
        omega arith,
        (at_time-Chosen empty_bucket (10 ^ 9), omega arith, tt),
      )
      started-EndsAll (at_time-Chosen filled_bucket (2 * 10 ^ 9 + 1)) (omega arith)

uploaded : answer (at_time filled_bucket 9) page ≡ ok (record { attrs = page_attrs })
unfolding answer
uploaded = refl
