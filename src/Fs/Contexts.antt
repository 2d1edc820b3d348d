-- ===== src/Fs/Contexts.antt =====
-- pkg/gcs/fs/gcsfs.go: `newGCSFS`, `WithContext` and `opCtx`. Of a context its deadline is kept, and of
-- the bucket's handle its retries; times and durations are in nanoseconds and not negative.
use caddy_fs_gcs.Base.{
  ℕ, ◌+◌, ◌*◌, ◌≤◌, ◌≡◌, ◌⊎◌, inl, inr, refl, String, Bool, true, false, Option, none, some, arith,
  ◌==◌, ltb, if◌then◌else◌, Bool-cases,
}
use caddy_fs_gcs.Cache.{second}
use caddy_fs_gcs.Fs.{GcsFs}

pub record Context : Type 0 where
  pub deadline : Option ℕ

abbrev earlier : ℕ → Option ℕ → ℕ
earlier t none = t
earlier t (some d) = if ltb d t then d else t

-- `context.WithTimeout` at the time `now`: a deadline of the parent that is earlier is kept.
unfoldable pub with_timeout : ℕ → ℕ → Context → Context
with_timeout now timeout ctx = record { deadline = some (earlier (now + timeout) ctx.deadline) }

abbrev pub default_op_timeout : ℕ
default_op_timeout = 60 * second

-- A filesystem with the fields that only its calls of the client library read.
pub record Remote : Type 0 where
  pub fs : GcsFs
  pub ctx : Context
  pub op_timeout : ℕ
  pub retry_always : Bool
  pub max_attempts : ℕ

unfoldable pub new_gcs_fs : Context → String → Remote
new_gcs_fs ctx bucket = record {
  fs = record {
    bucket_name = bucket;
    prefix = "";
    hooks = record {
      on_event = false;
      on_cache_hit = false;
      on_cache_miss = false;
      on_gcs_op = false;
      on_stream_bytes = false;
    };
  };
  ctx = ctx;
  op_timeout = 0;
  retry_always = true;
  max_attempts = 3;
}

unfoldable pub with_context : Context → Remote → Remote
with_context ctx r = record r { ctx = ctx }

abbrev timeout_of : Remote → ℕ
timeout_of r = if r.op_timeout == 0 then default_op_timeout else r.op_timeout

unfoldable pub op_ctx : ℕ → Remote → Context
op_ctx now r = with_timeout now (timeout_of r) r.ctx

-- The deadline of a call: the earlier one of the context's, if it has one, and the timeout's.
pub record Limits (now : ℕ) (r : Remote) (d : ℕ) : Type 0 where
  pub in_time : d ≤ now + timeout_of r
  pub inherited : (e : ℕ) → r.ctx.deadline ≡ some e → d ≤ e
  pub attained : (d ≡ now + timeout_of r) ⊎ (r.ctx.deadline ≡ some d)

earlier-Limits :
    (now : ℕ) (r : Remote) (m : Option ℕ)
    → r.ctx.deadline ≡ m
    → Limits now r (earlier (now + timeout_of r) m)
earlier-Limits now r none h = record {
  in_time = omega arith;
  inherited = λ e p. absurd (ground (arith, h));
  attained = inl refl;
}
earlier-Limits now r (some e) h = elim (Bool-cases (ltb e (now + timeout_of r))) [
  | inl y ↦
      rw y
        (record { in_time = ground arith; inherited = λ x p. ground (arith, h); attained = inr h })
  | inr n ↦ rw n (record {
    in_time = omega arith;
    inherited = λ x p. ground (arith, h, n);
    attained = inl refl;
  })
]

-- Every call of the service has a deadline: it is at most `opTimeout` away, or 60 seconds if that is
-- not set, and no later than the deadline of the filesystem's own context, which is kept if it is the
-- earlier one.
pub op_ctx-Limits :
    (now : ℕ) (r : Remote) → (d : ℕ) × ((op_ctx now r).deadline ≡ some d) × Limits now r d
unfolding op_ctx with_timeout
op_ctx-Limits now r =
    (earlier (now + timeout_of r) r.ctx.deadline, refl, earlier-Limits now r r.ctx.deadline refl)
