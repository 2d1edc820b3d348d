-- ===== src/Health/Combining.antt =====
-- pkg/observability/health/health.go: the verdict of a `CompositeHealthChecker`.
use Prim.Native.String
use caddy_fs_gcs.Base.{
  ℕ, suc, ◌≡◌, refl, String, Option, none, some, List, [], ◌∷◌, if◌then◌else◌, Bool-cases, inl, inr,
  Dict,
}
use caddy_fs_gcs.Health.{
  HealthStatus, is_healthy, combine, composite_check, composite_check_storage, decimal, add_details,
}

module _ {C : Type 0} (answer : C → HealthStatus) where
  -- The first checker that is not healthy, with its index.
  unfoldable pub first_failing : ℕ → List C → Option (ℕ × HealthStatus)
  first_failing i [] = none
  first_failing i (c ∷ cs) =
      let rest = first_failing (suc i) cs in
      if is_healthy (answer c) then rest else some (i, answer c)

  -- What a status says of it.
  abbrev pub Tells : (failure success : String) → Option (ℕ × HealthStatus) → HealthStatus → Type 0
  Tells failure success none s = (s.status ≡ "healthy") × (s.message ≡ success) × (s.error ≡ "")
  Tells failure success (some (i, sub)) s =
      (s.status ≡ "unhealthy")
      × (s.message
          ≡ String.◌++◌ failure (String.◌++◌ (decimal i) (String.◌++◌ " failed: " sub.message)))
      × (s.error ≡ sub.error)

  combine-Tells :
      (failure success : String) (i : ℕ) (all : Dict String) (cs : List C)
      → Tells failure success (first_failing i cs) (combine answer failure success i all cs)
  unfolding combine first_failing
  combine-Tells failure success i all [] = (refl, refl, refl)
  combine-Tells failure success i all (c ∷ cs) = elim (Bool-cases (is_healthy (answer c))) [
    | inl healthy ↦
        rw healthy (combine-Tells failure success (suc i) (add_details i (answer c).details all) cs)
    | inr failing ↦ rw failing (refl, refl, refl)
  ]

  pub composite_check-Tells :
      (cs : List C)
      → Tells "Health check " "All health checks passed"
          (first_failing 0 cs)
          (composite_check answer cs)
  unfolding composite_check
  composite_check-Tells cs = combine-Tells "Health check " "All health checks passed" 0 [] cs

  pub composite_check_storage-Tells :
      (cs : List C)
      → Tells "Storage check " "All storage checks passed"
          (first_failing 0 cs)
          (composite_check_storage answer cs)
  unfolding composite_check_storage
  composite_check_storage-Tells cs =
      combine-Tells "Storage check " "All storage checks passed" 0 [] cs

  -- `Check` and `CheckStorage` of the composite checker, for the answers of its checkers to the call: the
  -- status is healthy, with an empty error, if every checker's is; otherwise it is unhealthy, and its
  -- message and its error are those of the first checker that is not healthy, with its index.
  pub composite_checks-Tells :
      (cs : List C)
      → Tells "Health check " "All health checks passed"
          (first_failing 0 cs)
          (composite_check answer cs)
        × Tells "Storage check " "All storage checks passed"
            (first_failing 0 cs)
            (composite_check_storage answer cs)
  composite_checks-Tells cs = (composite_check-Tells cs, composite_check_storage-Tells cs)
