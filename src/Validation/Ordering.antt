-- ===== src/Validation/Ordering.antt =====
-- pkg/validation/config.go: Go iterates over a map in any order; what `ValidateConfig` answers does not
-- depend on it.
use mathlib.Core.List.{Permᴰ, append_assoc}
use mathlib.Core.List.Permᴰ as PermD
use caddy_fs_gcs.Base.{◌≡◌, refl, ◌∙◌, String, List, ◌++◌, Dict}
use caddy_fs_gcs.Rules.{Value}
use caddy_fs_gcs.Validation.{ConfigValidator, validate_config}
use caddy_fs_gcs.Validation.Reporting.{
  is_empty, entry_errors, all_errors, validate_config-all_errors,
}

is_empty-Permᴰ : {A : Type 0} {xs ys : List A} → Permᴰ xs ys → is_empty xs ≡ is_empty ys
is_empty-Permᴰ PermD.nil = refl
is_empty-Permᴰ (PermD.cons e d) = refl
is_empty-Permᴰ (PermD.swap e f) = refl
is_empty-Permᴰ (PermD.trans d e) = is_empty-Permᴰ d ∙ is_empty-Permᴰ e

swap_front : {A : Type 0} (xs ys zs : List A) → Permᴰ (xs ++ (ys ++ zs)) (ys ++ (xs ++ zs))
swap_front xs ys zs =
    rw (← append_assoc xs ys zs, ← append_assoc ys xs zs)
      (PermD.append_right zs (PermD.append_comm xs ys))

module _ (v : ConfigValidator) (config : Dict Value) where
  all_errors-Permᴰ :
      {rules rules' : Dict String}
      → Permᴰ rules rules'
      → Permᴰ (all_errors v config rules) (all_errors v config rules')
  unfolding all_errors
  all_errors-Permᴰ PermD.nil = PermD.nil
  all_errors-Permᴰ (PermD.cons {a = a} e d) =
      rw (← e) (PermD.append_left (entry_errors v config a) (all_errors-Permᴰ d))
  all_errors-Permᴰ (PermD.swap {a = a} {b = b} e f) =
      rw (← e, ← f) (swap_front (entry_errors v config a) (entry_errors v config b) _)
  all_errors-Permᴰ (PermD.trans d e) = PermD.trans (all_errors-Permᴰ d) (all_errors-Permᴰ e)

  -- Two orders of iteration over the same table of rules lead to the same verdict and to the same errors,
  -- up to their order.
  pub validate_config-Permᴰ :
      (rules rules' : Dict String)
      → Permᴰ rules rules'
      → ((validate_config v config rules).valid ≡ (validate_config v config rules').valid)
        × Permᴰ (validate_config v config rules).errors (validate_config v config rules').errors
  validate_config-Permᴰ rules rules' d =
      let perm = all_errors-Permᴰ d in
      rw (validate_config-all_errors v config rules, validate_config-all_errors v config rules')
        (is_empty-Permᴰ perm, perm)
