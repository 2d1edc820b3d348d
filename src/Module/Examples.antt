-- ===== src/Module/Examples.antt =====
-- pkg/gcs/fs/module.go: runs with a pool that only counts, and with one that keeps its clients.
use text.Mathlib.TextEquality.{eq_iff}
use caddy_fs_gcs.Base.{
  ℕ, suc, ◌-◌, ◌≡◌, ◌≢◌, ◌∙◌, refl, String, true, false, Option, none, some, arith, ite, text_dec,
  pos,
}
use caddy_fs_gcs.Module.{
  Config, Environment, AppAnswer, Library, UsagePool, Made, made, failed, Provisioned,
  client_pool_key, client_options, construct, expand, base_options, file_system, provision,
}
use caddy_fs_gcs.Module.Sharing.{Keeps, provision-shares}
use caddy_fs_gcs.Module.Pooling.{Counts, Balanced, provision-Balanced}

abbrev load : String → Made ℕ → (String → ℕ) → (String → ℕ) × Made ℕ
load key (made client) p = (λ k. ite (text_dec k key) (suc (p k)) (p k), made client)
load key (failed e) p = (p, failed e)

abbrev counting : UsagePool ℕ
counting = record {
  Pool = String → ℕ;
  load_or_new = load;
  delete = λ key p. (λ k. ite (text_dec k key) (p k - 1) (p k), true);
}

counting-loaded :
    (key k : String) (m : Made ℕ) (p : String → ℕ) (client : ℕ)
    → (load key m p).1 ≡ made client
    → (load key m p).0 k ≡ ite (text_dec k key) (suc (p k)) (p k)
counting-loaded key k (made c) p client h = refl
counting-loaded key k (failed e) p client h = absurd (ground arith)

counting-refused :
    (key k : String) (m : Made ℕ) (p : String → ℕ) (e : String)
    → (load key m p).1 ≡ failed e
    → (load key m p).0 k ≡ p k
counting-refused key k (made c) p e h = absurd (ground arith)
counting-refused key k (failed e') p e h = refl

counting-deleted :
    (key k : String) (p : String → ℕ) (n : ℕ)
    → p key ≡ suc n
    → ite (text_dec k key) (p k - 1) (p k) ≡ ite (text_dec k key) n (p k)
counting-deleted key k p n h = grind (arith, h)

counting-Counts : Counts counting
counting-Counts = record {
  references = λ k p. p k;
  loaded = counting-loaded;
  refused = counting-refused;
  deleted = counting-deleted;
}

abbrev library : Library ℕ
library = record {
  credentials_error = λ principal. none;
  new_client = λ options. made 1;
  close_client = λ c. true;
}

abbrev environment : Environment
environment = record {
  replace_all = λ s. s;
  gcs_bucket = "";
  gcs_credentials_file = "";
  storage_emulator_host = "";
  events = AppAnswer.events_app;
}

abbrev config : Config
config = record {
  bucket_name = "pages";
  path_prefix = "/site/";
  project_id = "";
  credentials_file = "";
  credentials_config = "wif.json";
  service_account = "reader@example.com";
  use_workload_identity = false;
  cache_ttl = pos 0;
  cache_ttl_set = true;
  cache_max_entries = pos 0;
  cache_max_entries_set = false;
}

abbrev result : Option ((String → ℕ) × Made (Provisioned ℕ)) → (String → ℕ) × Made (Provisioned ℕ)
result none = ((λ k. 0), failed "")
result (some r) = r

abbrev provisioned : (String → ℕ) × Made (Provisioned ℕ)
provisioned = result (provision library counting environment config (λ k. 0))

provisioned-made : provision library counting environment config (λ k. 0) ≡ some provisioned
unfolding provision construct expand client_options base_options
provisioned-made = refl

provision-Balanced_example :
    Balanced library counting counting-Counts environment (λ k. 0) provisioned
provision-Balanced_example =
    provision-Balanced library counting counting-Counts environment config (λ k. 0) provisioned
      provisioned-made

abbrev writer : String
writer = "writer@example.com"

other_account : writer ≢ config.service_account
other_account e = absurd (ground (arith, (eq_iff writer config.service_account).1 e))

abbrev keep : String → Made ℕ → (String → Option ℕ) → Option ℕ → (String → Option ℕ) × Made ℕ
keep key m p (some client) = (p, made client)
keep key (made client) p none = (λ k. ite (text_dec k key) (some client) (p k), made client)
keep key (failed e) p none = (p, failed e)

abbrev keeping : UsagePool ℕ
keeping = record {
  Pool = String → Option ℕ;
  load_or_new = λ key m p. keep key m p (p key);
  delete = λ key p. (p, true);
}

keep-stored :
    (key : String) (m : Made ℕ) (p : String → Option ℕ) (client : ℕ) (o : Option ℕ)
    → p key ≡ o
    → (keep key m p o).1 ≡ made client
    → (keep key m p o).0 key ≡ some client
keep-stored key m p client (some c) h e = h ∙ ground (arith, e)
keep-stored key (made c) p client none h e = grind (arith, e)
keep-stored key (failed x) p client none h e = absurd (ground (arith, e))

keeping-Keeps : Keeps keeping
keeping-Keeps = record {
  value = λ k p. p k;
  stored = λ key m p client h. keep-stored key m p client (p key) refl h;
  loaded = λ key m p client h. rw h refl;
}

abbrev kept_clients : String → Option ℕ
kept_clients k = ite (text_dec k "wif:wif.json") (some 1) none

abbrev kept_module : Provisioned ℕ
kept_module = record {
  config = config;
  client = 1;
  pool_key = "wif:wif.json";
  fs = file_system environment config;
  cache = none;
}

kept_module-made :
    provision library keeping environment config (λ k. none) ≡ some (kept_clients, made kept_module)
unfolding provision construct expand client_options base_options client_pool_key
kept_module-made = refl

provision-shares_example :
    (p : String → Option ℕ) × (m : Provisioned ℕ) × (provision library keeping environment
        (record config { service_account = writer })
        kept_clients
      ≡ some (p, made m))
    × (m.client ≡ 1)
    × (client_options environment (expand environment (record config { service_account = writer }))
        ≢ client_options environment (expand environment config))
provision-shares_example =
    provision-shares library keeping keeping-Keeps environment config writer (λ k. none)
      kept_clients kept_module refl refl refl refl other_account kept_module-made
