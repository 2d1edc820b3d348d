-- ===== src/Module/Releasing.antt =====
-- pkg/gcs/fs/module.go: `Cleanup` and `CacheStats`, in whatever state the module is.
use text.Mathlib.Text.{◌==◌ as text_eq}
use caddy_fs_gcs.Base.{ℕ, String, Bool, true, not, Option, none, some, if◌then◌else◌}
use caddy_fs_gcs.Cache.{AttrCache, stats, stop}
use caddy_fs_gcs.Module.{Library, UsagePool, Provisioned}

-- The fields of a module that the two read: a client, if it is not nil, and the cache of its
-- filesystem, if there are both.
pub record Instance (Client : Type 0) : Type 0 where
  pub client : Option Client
  pub pool_key : String
  pub cache : Option AttrCache

-- `new(GCSFS)`, also after a `Provision` that has failed
abbrev pub unprovisioned : {Client : Type 0} → Instance Client
unprovisioned = record { client = none; pool_key = ""; cache = none }

abbrev pub instance_of : {Client : Type 0} → Provisioned Client → Instance Client
instance_of m = record { client = some m.client; pool_key = m.pool_key; cache = m.cache }

abbrev stop_cache : {Client : Type 0} → Instance Client → Instance Client
stop_cache m = record m { cache = elim m.cache [ none ↦ none | some c ↦ some (stop c) ] }

-- `CacheStats`
unfoldable pub cache_stats : {Client : Type 0} → Instance Client → ℕ × ℕ
cache_stats m = elim m.cache [ none ↦ (0, 0) | some c ↦ stats c ]

module _ {Client : Type 0} (lib : Library Client) (pool : UsagePool Client) where
  open pool use {Pool, delete}

  -- `clientDestructor.Destruct`, which the pool calls once the last reference is gone
  abbrev pub destruct : Client → Bool
  destruct client = lib.close_client client

  abbrev close_unpooled : Option Client → Bool
  close_unpooled none = true
  close_unpooled (some client) = lib.close_client client

  -- `Cleanup`: the module, the pool, and true for no error
  unfoldable pub cleanup : Instance Client → Pool → Instance Client × Pool × Bool
  cleanup m p =
      let m' = stop_cache m in
      if not (text_eq m.pool_key "")
      then (let (p', done) = delete m.pool_key p in (m', p', done))
      else (m', p, close_unpooled m.client)
