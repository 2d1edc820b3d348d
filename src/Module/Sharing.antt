-- ===== src/Module/Sharing.antt =====
-- pkg/gcs/fs/module.go: which configurations share a client.
use text.Mathlib.Text.{◌==◌ as text_eq}
use caddy_fs_gcs.Base.{
  ◌≡◌, ◌≢◌, ◌∙◌, refl, ap, String, true, false, [], ◌∷◌, Option, some, arith, >>=-eq-some,
  some_injective, Bool-cases, inl, inr,
}
use caddy_fs_gcs.Cache.{AttrCache}
use caddy_fs_gcs.Module.{
  Config, Environment, Library, UsagePool, Made, made, failed, Provisioned, client_pool_key,
  client_options, base_options, token_source, external_account, expand, construct, cache_for,
  effective_ttl, effective_max_entries, file_system, with_client, provision,
}

same_account :
    (file a b : String)
    → external_account file ∷ token_source a ∷ [] ≡ external_account file ∷ token_source b ∷ []
    → a ≡ b
same_account file a b e = cc

-- The key of a configuration with external credentials does not tell the account, but the options do.
client_pool_key-accounts :
    (env : Environment) (c : Config) (account : String)
    → text_eq env.storage_emulator_host "" ≡ true
    → text_eq c.credentials_config "" ≡ false
    → text_eq c.service_account "" ≡ false
    → text_eq account "" ≡ false
    → account ≢ c.service_account
    → (client_pool_key env (record c { service_account = account }) ≡ client_pool_key env c)
      × (client_options env (record c { service_account = account }) ≢ client_options env c)
unfolding client_pool_key client_options base_options
client_pool_key-accounts env c account outside file one other differ = (
  rw (outside, file) refl,
  λ e. differ (
      same_account c.credentials_config account c.service_account
        (rw (outside, file, one, other) at e)),
)

-- What the documentation of caddy.UsagePool says: `LoadOrNew` keeps the value that it returns, and a
-- value that is kept for a key is returned, without a call of the constructor.
pub record Keeps {Client : Type 0} (pool : UsagePool Client) : Type 0 where
  pub value : String → pool.Pool → Option Client
  pub stored :
      (key : String) (m : Made Client) (p : pool.Pool) (client : Client)
      → (pool.load_or_new key m p).1 ≡ made client
      → value key (pool.load_or_new key m p).0 ≡ some client
  pub loaded :
      (key : String) (m : Made Client) (p : pool.Pool) (client : Client)
      → value key p ≡ some client
      → (pool.load_or_new key m p).1 ≡ made client

client_of : {Client : Type 0} → Made (Provisioned Client) → Made Client
client_of (made m) = made m.client
client_of (failed e) = failed e

module _ {Client : Type 0} (lib : Library Client) (pool : UsagePool Client) (keeps : Keeps pool)
    (env : Environment) where
  open pool use {Pool, load_or_new}

  with_client-made :
      (c : Config) (key : String) (o : Pool × Made Client) (p : Pool) (m : Provisioned Client)
      → with_client lib pool env c key o ≡ some (p, made m)
      → (o ≡ (p, made m.client))
        × ((cache : Option AttrCache) × (cache_for (effective_ttl c) (effective_max_entries c)
              ≡ some cache))
  unfolding client_of
  with_client-made c key (q, failed e) p m run = absurd (ground (arith, run))
  with_client-made c key (q, made client) p m run =
      let (cache, found, e) =
        >>=-eq-some (cache_for (effective_ttl c) (effective_max_entries c)) _ run in
      (ap (λ o. (o.0, client_of o.1)) (some_injective e), (cache, found))

  with_client-client :
      (c : Config) (key : String) (o : Pool × Made Client) (client : Client)
      (cache : Option AttrCache)
      → o.1 ≡ made client
      → cache_for (effective_ttl c) (effective_max_entries c) ≡ some cache
      → (m : Provisioned Client) × (with_client lib pool env c key o ≡ some (o.0, made m))
        × (m.client ≡ client)
  with_client-client c key (q, failed e) client cache h found = absurd (ground (arith, h))
  with_client-client c key (q, made other) client cache h found = (
    record { config = c; client = other; pool_key = key; fs = file_system env c; cache = cache },
    rw found refl,
    ground (arith, h),
  )

  provision-named :
      (config : Config) (p p' : Pool) (m : Provisioned Client)
      → provision lib pool env config p ≡ some (p', made m)
      → text_eq (expand env config).bucket_name "" ≡ false
  unfolding provision
  provision-named config p p' m run =
      elim (Bool-cases (text_eq (expand env config).bucket_name "")) [
        | inl nameless ↦ absurd (ground (arith, rw nameless at run))
        | inr named ↦ named
      ]

  -- Outside the emulator, when a configuration with external credentials and an account to impersonate has
  -- been provisioned, `Provision` of the same configuration with another account returns no error and
  -- the client of the first, although a client of its own would be made with other options; the
  -- accounts are those after the placeholders are replaced, and both are not empty.
  pub provision-shares :
      (config : Config) (account : String) (p p' : Pool) (m : Provisioned Client)
      → text_eq env.storage_emulator_host "" ≡ true
      → text_eq (env.replace_all config.credentials_config) "" ≡ false
      → text_eq (env.replace_all config.service_account) "" ≡ false
      → text_eq (env.replace_all account) "" ≡ false
      → env.replace_all account ≢ env.replace_all config.service_account
      → provision lib pool env config p ≡ some (p', made m)
      → (p'' : Pool) × (m' : Provisioned Client) × (provision lib pool env
            (record config { service_account = account })
            p'
          ≡ some (p'', made m'))
        × (m'.client ≡ m.client)
        × (client_options env (expand env (record config { service_account = account }))
            ≢ client_options env (expand env config))
  unfolding provision expand
  provision-shares config account p p' m outside file one other differ run =
      let c = expand env config in
      let c' = expand env (record config { service_account = account }) in
      let key = client_pool_key env c in
      let named = provision-named config p p' m run in
      let (same, options) =
        client_pool_key-accounts env c (env.replace_all account) outside file one other differ in
      let (first, (cache, found)) =
        with_client-made c key (load_or_new key (construct lib env c) p) p' m (rw named at run) in
      let kept : keeps.value key p' ≡ some m.client =
        rw (ap (λ o. o.0) first) at
          (keeps.stored key (construct lib env c) p m.client (ap (λ o. o.1) first)) in
      let key' = client_pool_key env c' in
      let hit =
        keeps.loaded key' (construct lib env c') p' m.client
          (ap (λ k. keeps.value k p') same ∙ kept) in
      let (m', ran, shared) =
        with_client-client c' key' (load_or_new key' (construct lib env c') p') m.client cache hit
          found in
      ((load_or_new key' (construct lib env c') p').0, m', rw named ran, shared, options)
