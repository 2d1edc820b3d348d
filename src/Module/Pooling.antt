-- ===== src/Module/Pooling.antt =====
-- pkg/gcs/fs/module.go: the references to pooled clients.
use Prim.Native.String
use text.Mathlib.Text.{◌==◌ as text_eq}
use text.Mathlib.TextEquality.{eq_iff}
use text.Mathlib.TextLemmas.{append-eq-nil_iff}
use caddy_fs_gcs.Base.{
  ℕ, suc, ◌≡◌, ◌≢◌, true, false, refl, sym, ap, ◌∙◌, String, Option, some, arith, Bool-cases, inl,
  inr, ite, text_dec, >>=-eq-some, some_injective,
}
use caddy_fs_gcs.Cache.{AttrCache}
use caddy_fs_gcs.Module.{
  Config, Environment, Library, UsagePool, Made, made, failed, Provisioned, expand, client_pool_key,
  construct, cache_for, effective_ttl, effective_max_entries, file_system, with_client, provision,
}
use caddy_fs_gcs.Module.Releasing.{instance_of, unprovisioned, cleanup}

-- What the documentation of caddy.UsagePool says: a value is counted once for each `LoadOrNew` that
-- succeeds, and `Delete` takes one off.
pub record Counts {Client : Type 0} (pool : UsagePool Client) : Type 0 where
  pub references : String → pool.Pool → ℕ
  pub loaded :
      (key k : String) (m : Made Client) (p : pool.Pool) (client : Client)
      → (pool.load_or_new key m p).1 ≡ made client
      → references k (pool.load_or_new key m p).0
        ≡ ite (text_dec k key) (suc (references k p)) (references k p)
  pub refused :
      (key k : String) (m : Made Client) (p : pool.Pool) (e : String)
      → (pool.load_or_new key m p).1 ≡ failed e
      → references k (pool.load_or_new key m p).0 ≡ references k p
  pub deleted :
      (key k : String) (p : pool.Pool) (n : ℕ)
      → references key p ≡ suc n
      → references k (pool.delete key p).0 ≡ ite (text_dec k key) n (references k p)

prefix_nonempty : (a b : String) → a ≢ "" → String.◌++◌ a b ≢ ""
prefix_nonempty a b h e = h (append-eq-nil_iff.0 e).0

-- A key of the pool is not empty.
key_nonempty : (env : Environment) (c : Config) → client_pool_key env c ≢ ""
unfolding client_pool_key
key_nonempty env c = elim (Bool-cases (text_eq env.storage_emulator_host "")) [
  | inr e ↦ rw e (prefix_nonempty "emulator:" _ (named "emulator:" refl))
  | inl e ↦ rw e (elim (Bool-cases (text_eq c.credentials_config "")) [
    | inr w ↦ rw w (prefix_nonempty "wif:" _ (named "wif:" refl))
    | inl w ↦ rw w (elim (Bool-cases (text_eq c.credentials_file "")) [
      | inr f ↦ rw f (prefix_nonempty "sa:" _ (named "sa:" refl))
      | inl f ↦ rw f (elim (Bool-cases (text_eq c.service_account "")) [
        | inr a ↦ rw a (prefix_nonempty "adc" _ (named "adc" refl))
        | inl a ↦ rw a (named "adc" refl)
      ])
    ])
  ])
]
  where
    named : (s : String) → text_eq s "" ≡ false → s ≢ ""
    named s h = ground (arith, eq_iff s "")

key_named : (env : Environment) (c : Config) → text_eq (client_pool_key env c) "" ≡ false
key_named env c = ground (arith, key_nonempty env c, eq_iff (client_pool_key env c) "")

module _ {Client : Type 0} (lib : Library Client) (pool : UsagePool Client) (counts : Counts pool)
    (env : Environment) where
  open pool use {Pool, load_or_new}
  open counts use {references}

  abbrev provisioned : Config → String → Client → Option AttrCache → Provisioned Client
  provisioned c key client cache = record {
    config = c;
    client = client;
    pool_key = key;
    fs = file_system env c;
    cache = cache;
  }

  -- What `Provision` does to the references, and `Cleanup` after it.
  abbrev pub Balanced : Pool → Pool × Made (Provisioned Client) → Type 0
  Balanced p (p', failed e) =
      ((k : String) → references k p' ≡ references k p)
      × (cleanup lib pool unprovisioned p' ≡ (unprovisioned, p', true))
  Balanced p (p', made m) =
      (references m.pool_key p' ≡ suc (references m.pool_key p))
      × ((k : String) → references k (cleanup lib pool (instance_of m) p').1 ≡ references k p)

  loaded_count :
      (key k : String) (p p' : Pool) (m : Made Client) (client : Client)
      → load_or_new key m p ≡ (p', made client)
      → references k p' ≡ ite (text_dec k key) (suc (references k p)) (references k p)
  loaded_count key k p p' m client h =
      ap (λ o. references k o.0) (sym h) ∙ counts.loaded key k m p client (ap (λ o. o.1) h)

  refused_count :
      (key k : String) (p p' : Pool) (m : Made Client) (e : String)
      → load_or_new key m p ≡ (p', failed e)
      → references k p' ≡ references k p
  refused_count key k p p' m e h =
      ap (λ o. references k o.0) (sym h) ∙ counts.refused key k m p e (ap (λ o. o.1) h)

  cleanup-unprovisioned : (p : Pool) → cleanup lib pool unprovisioned p ≡ (unprovisioned, p, true)
  unfolding cleanup
  cleanup-unprovisioned p = refl

  cleanup_pooled :
      (m : Provisioned Client) (p : Pool)
      → text_eq m.pool_key "" ≡ false
      → (cleanup lib pool (instance_of m) p).1 ≡ (pool.delete m.pool_key p).0
  unfolding cleanup
  cleanup_pooled m p h = rw h refl

  with_client-Balanced :
      (c : Config) (key : String) (p : Pool) (m : Made Client) (o : Pool × Made Client)
      (r : Pool × Made (Provisioned Client))
      → text_eq key "" ≡ false
      → load_or_new key m p ≡ o
      → with_client lib pool env c key o ≡ some r
      → Balanced p r
  with_client-Balanced c key p m (p', failed e) r named h run =
      rw (← some_injective run) (λ k. refused_count key k p p' m e h, cleanup-unprovisioned p')
  with_client-Balanced c key p m (p', made client) r named h run =
      let (cache, _, e) =
        >>=-eq-some (cache_for (effective_ttl c) (effective_max_entries c))
          (λ cache. some (p', made (provisioned c key client cache))) run in
      let added : references key p' ≡ suc (references key p) =
        ground (arith, loaded_count key key p p' m client h) in
      rw (← some_injective e) (
        added,
        λ k. ground (
          arith,
          cleanup_pooled (provisioned c key client cache) p' named,
          loaded_count key k p p' m client h,
          counts.deleted key k p' (references key p) added,
        ),
      )

  -- `Provision` with an error, whichever, leaves the references of all clients as they were, and the
  -- `Cleanup` of a module without a client then does nothing and returns no error; `Provision` without
  -- an error adds a reference to its client, and the `Cleanup` that follows takes it off again, so that
  -- all are as they were before.
  pub provision-Balanced :
      (config : Config) (p : Pool) (r : Pool × Made (Provisioned Client))
      → provision lib pool env config p ≡ some r
      → Balanced p r
  unfolding provision
  provision-Balanced config p r run =
      let c = expand env config in
      let key = client_pool_key env c in
      elim (Bool-cases (text_eq c.bucket_name "")) [
        | inl nameless ↦
            rw (← some_injective (rw nameless at run)) (λ k. refl, cleanup-unprovisioned p)
        | inr named ↦
            with_client-Balanced c key p (construct lib env c)
              (load_or_new key (construct lib env c) p) r (key_named env c) refl (rw named at run)
      ]
