-- ===== src/Module.antt =====
-- pkg/gcs/fs/module.go: the Caddy module `caddy.fs.gcs`, its configuration, `Provision` and `Cleanup`.
-- The pool of clients (caddy.UsagePool), the client library, the replacer of placeholders and the
-- environment are parameters; an error is its text, in which `%q` escapes nothing. `none` is a panic.
pub mod Releasing
pub mod Reporting
pub mod Counting
pub mod Tallying
pub mod Sharing
pub mod Pooling
pub mod Confining
mod Examples
mod ConfiningTests
mod TallyingTests
use Prim.Native.String
use text.Mathlib.Text.{◌==◌ as text_eq}
use caddy_fs_gcs.Base.{
  ℕ, ◌*◌, ◌^◌, String, Bool, true, false, not, ◌&&◌, Option, none, some, List, [], ◌∷◌, ◌++◌, ◌>>=◌,
  if◌then◌else◌, ℤ, pos, negsuc, ltb, ◌==◌,
}
use caddy_fs_gcs.Cache.{AttrCache, new_attr_cache}
use caddy_fs_gcs.Paths.{trim_slash_prefix, trim_slash_suffix}
use caddy_fs_gcs.Fs.{GcsFs, sub}

pub record Config : Type 0 where
  pub bucket_name : String
  pub path_prefix : String
  pub project_id : String
  pub credentials_file : String
  pub credentials_config : String
  pub service_account : String
  pub use_workload_identity : Bool
  pub cache_ttl : ℤ
  pub cache_ttl_set : Bool
  pub cache_max_entries : ℤ
  pub cache_max_entries_set : Bool

-- What `ctx.App("events")` does.
pub data AppAnswer : Type 0 where
  panics : AppAnswer
  fails : AppAnswer
  events_app : AppAnswer
  other_app : AppAnswer

-- `loadEventsApp`, which recovers from a panic: whether there is an app.
unfoldable pub load_events_app : AppAnswer → Bool
load_events_app panics = false
load_events_app fails = false
load_events_app events_app = true
load_events_app other_app = false

-- The replacer's `ReplaceAll(s, "")`, the variables that `os.Getenv` reads, and the events app.
pub record Environment : Type 0 where
  pub replace_all : String → String
  pub gcs_bucket : String
  pub gcs_credentials_file : String
  pub storage_emulator_host : String
  pub events : AppAnswer

abbrev or_else : String → String → String
or_else s fallback = if text_eq s "" then fallback else s

-- `Provision`, up to the test for a bucket
unfoldable pub expand : Environment → Config → Config
expand env c = record c {
  bucket_name = or_else (env.replace_all c.bucket_name) env.gcs_bucket;
  path_prefix = env.replace_all c.path_prefix;
  credentials_file = or_else (env.replace_all c.credentials_file) env.gcs_credentials_file;
  credentials_config = env.replace_all c.credentials_config;
  service_account = env.replace_all c.service_account;
}

unfoldable pub client_pool_key : Environment → Config → String
client_pool_key env c =
    if not (text_eq env.storage_emulator_host "")
    then String.◌++◌ "emulator:" env.storage_emulator_host
    else if not (text_eq c.credentials_config "")
    then String.◌++◌ "wif:" c.credentials_config
    else if not (text_eq c.credentials_file "")
    then String.◌++◌ "sa:" c.credentials_file
    else if not (text_eq c.service_account "")
    then String.◌++◌ "adc" (String.◌++◌ "|impersonate:" c.service_account)
    else "adc"

pub data ClientOption : Type 0 where
  without_authentication : ClientOption
  external_account : (file : String) → ClientOption
  service_account_key : (file : String) → ClientOption
  token_source : (target_principal : String) → ClientOption

unfoldable pub base_options : Environment → Config → List ClientOption
base_options env c =
    if not (text_eq env.storage_emulator_host "")
    then without_authentication ∷ []
    else if not (text_eq c.credentials_config "")
    then external_account c.credentials_config ∷ []
    else if not (text_eq c.credentials_file "")
    then service_account_key c.credentials_file ∷ []
    else []

abbrev pub impersonates : Environment → Config → Bool
impersonates env c = not (text_eq c.service_account "") && text_eq env.storage_emulator_host ""

-- The options that the client of a configuration is made with.
unfoldable pub client_options : Environment → Config → List ClientOption
client_options env c =
    base_options env c ++ (if impersonates env c then token_source c.service_account ∷ [] else [])

-- A value, or the text of an error.
pub data Made (A : Type 0) : Type 0 where
  made : A → Made A
  failed : String → Made A

-- The client library: the error of `CredentialsTokenSource` for a principal, `NewClient`, and whether
-- `Close` of a client returns no error.
pub record Library (Client : Type 0) : Type 0 where
  pub credentials_error : String → Option String
  pub new_client : List ClientOption → Made Client
  pub close_client : Client → Bool

abbrev after_credentials :
    {Client : Type 0} → Library Client → Environment → Config → Option String → Made Client
after_credentials lib env c none = lib.new_client (client_options env c)
after_credentials lib env c (some e) = failed (
    String.◌++◌ "impersonate service account \""
      (String.◌++◌ c.service_account (String.◌++◌ "\": " e)))

-- The constructor that `Provision` hands to the pool
unfoldable pub construct : {Client : Type 0} → Library Client → Environment → Config → Made Client
construct lib env c =
    after_credentials lib env c
      (if impersonates env c then lib.credentials_error c.service_account else none)

-- caddy.UsagePool, with the pool's state: `LoadOrNew` with what its constructor would return, and
-- `Delete`, true for no error.
pub record UsagePool (Client : Type 0) : Type 1 where
  pub Pool : Type 0
  pub load_or_new : String → Made Client → Pool → Pool × Made Client
  pub delete : String → Pool → Pool × Bool

abbrev minute : ℕ
minute = 60 * 10 ^ 9

abbrev default_cache_ttl : ℤ
default_cache_ttl = pos (5 * minute)

abbrev default_cache_max_entries : ℤ
default_cache_max_entries = pos 10000

abbrev is_zero : ℤ → Bool
is_zero (pos n) = n == 0
is_zero (negsuc n) = false

abbrev pub effective_ttl : Config → ℤ
effective_ttl c =
    if not c.cache_ttl_set && is_zero c.cache_ttl then default_cache_ttl else c.cache_ttl

abbrev pub effective_max_entries : Config → ℤ
effective_max_entries c =
    if not c.cache_max_entries_set && is_zero c.cache_max_entries
    then default_cache_max_entries
    else c.cache_max_entries

-- `newAttrCache` panics for a negative capacity.
abbrev cache_with : ℤ → ℕ → Option AttrCache
cache_with (pos n) ttl = some (new_attr_cache ttl n)
cache_with (negsuc n) ttl = none

-- `if ttl > 0`; `none` inside is no cache.
abbrev cache_for : ℤ → ℤ → Option (Option AttrCache)
cache_for (pos ttl) entries =
    if ltb 0 ttl then (cache_with entries ttl >>= λ cache. some (some cache)) else some none
cache_for (negsuc n) entries = some none

unfoldable pub file_system : Environment → Config → GcsFs
file_system env c =
    let fs : GcsFs = record {
      bucket_name = c.bucket_name;
      prefix = "";
      hooks = record {
        on_event = load_events_app env.events;
        on_cache_hit = true;
        on_cache_miss = true;
        on_gcs_op = true;
        on_stream_bytes = true;
      };
    } in
    if text_eq c.path_prefix ""
    then fs
    else sub fs (trim_slash_suffix (trim_slash_prefix c.path_prefix))

-- A module that has been provisioned.
pub record Provisioned (Client : Type 0) : Type 0 where
  pub config : Config
  pub client : Client
  pub pool_key : String
  pub fs : GcsFs
  pub cache : Option AttrCache

module _ {Client : Type 0} (lib : Library Client) (pool : UsagePool Client)
    (env : Environment) where
  open pool use {Pool, load_or_new}

  abbrev with_client :
      Config → String → Pool × Made Client → Option (Pool × Made (Provisioned Client))
  with_client c key (p, failed e) = some (p, failed e)
  with_client c key (p, made client) = do
    cache ← cache_for (effective_ttl c) (effective_max_entries c)
    some (
      p,
      made (record {
        config = c;
        client = client;
        pool_key = key;
        fs = file_system env c;
        cache = cache;
      }),
    )

  unfoldable pub provision : Config → Pool → Option (Pool × Made (Provisioned Client))
  provision config p =
      let c = expand env config in
      let key = client_pool_key env c in
      if text_eq c.bucket_name ""
      then some (p, failed "caddy.fs.gcs: bucket_name is required")
      else with_client c key (load_or_new key (construct lib env c) p)
