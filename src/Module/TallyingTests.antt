-- ===== src/Module/TallyingTests.antt =====
-- pkg/gcs/fs/module.go: two calls of `Stat` on a module, of which the cache answers the second.
use caddy_fs_gcs.Base.{ℕ, ◌%◌, ◌^◌, ◌≡◌, refl, true, false, none, some, List, [], ◌∷◌, pos}
use caddy_fs_gcs.Cache.{ObjectAttrs, new_attr_cache}
use caddy_fs_gcs.Metrics.{
  Metrics, new_once, Otel, Measurement, gcs_cache_hits, gcs_cache_misses, init, init_body,
  create_instruments,
}
use caddy_fs_gcs.Fs.Errors.{Result, ok}
use caddy_fs_gcs.Fs.{World, Handle, Env, FileInfo, Backend}
use caddy_fs_gcs.Fs.Caching.{Chosen}
use caddy_fs_gcs.Fs.Refreshing.{Call, stat_all}
use caddy_fs_gcs.Module.{Config, Environment, AppAnswer, file_system}
use caddy_fs_gcs.Module.Reporting.{recorded, perform_all, counted}
use caddy_fs_gcs.Module.Releasing.{Instance, unprovisioned, cache_stats}
use caddy_fs_gcs.Module.Tallying.{stat_all-tallies}

abbrev environment : Environment
environment = record {
  replace_all = λ s. s;
  gcs_bucket = "";
  gcs_credentials_file = "";
  storage_emulator_host = "localhost:4443";
  events = AppAnswer.events_app;
}

abbrev pages : Config
pages = record {
  bucket_name = "pages";
  path_prefix = "";
  project_id = "";
  credentials_file = "";
  credentials_config = "";
  service_account = "";
  use_workload_identity = false;
  cache_ttl = pos 0;
  cache_ttl_set = false;
  cache_max_entries = pos 0;
  cache_max_entries_set = false;
}

abbrev index_attrs : ObjectAttrs
index_attrs = record { name = "index.html"; prefix = ""; size = 5; updated = 1 }

abbrev bucket : Backend
bucket = record { attrs = λ key. ok index_attrs; list_first = λ prefix. none }

abbrev env_at : ℕ → Env
env_at t = record {
  fs = file_system environment pages;
  backend = bucket;
  now = t;
  later = t;
  pick = λ i j n. 0;
}

env_at-Chosen : (t : ℕ) → Chosen (env_at t)
env_at-Chosen t i j n h = h

abbrev page : Handle
page = record { name = "index.html"; full_path = "index.html" }

abbrev twice : List Call
twice = record { env = env_at 5; file = page } ∷ record { env = env_at 6; file = page } ∷ []

abbrev start : Metrics
start = record { init_once = new_once; meter_provider = false; live = λ i. false }

abbrev working : Otel
working = record {
  exporter_failed = false;
  create = λ i. record { not_nil = true; failed = false };
}

abbrev running : Metrics
running = elim (init working start) [ none ↦ start | some (m, e) ↦ m ]

init_runs : init working start ≡ some (running, none)
unfolding init init_body create_instruments
init_runs = refl

abbrev idle : Instance ℕ
idle = unprovisioned

stat_all-tallies_example :
    (w' : World) × (rs : List (Result FileInfo)) × (ms : List Measurement) × (stat_all twice
        (record { cache = some (new_attr_cache 100 2); log = [] })
      ≡ some (w', rs))
    × (perform_all running (recorded "pages" (λ i. pos 1) w'.log) ≡ some ms)
    × (cache_stats (record idle { cache = w'.cache })
        ≡ (counted gcs_cache_hits ms % 2 ^ 64, counted gcs_cache_misses ms % 2 ^ 64))
stat_all-tallies_example =
    stat_all-tallies working start running environment pages 100 2 (λ i. pos 1) twice idle
      (λ i f. refl) refl init_runs (refl, env_at-Chosen 5, (refl, env_at-Chosen 6, tt))
