-- ===== src/Base/Lists.antt =====
-- Lists measured and indexed by the native numbers: Go's slices.
use Prim.Native.Nat.{ℕ, zero, suc, ◌+◌, ◌-◌, ◌≤◌, ◌<◌, min}
use Prim.Native.Nat.add
use mathlib.Core.Path.{◌≡◌, refl, sym, ap, ◌∙◌}
use mathlib.Core.Bool.{Bool, true, ◌&&◌}
use mathlib.Core.List.{List, [], ◌∷◌, ◌++◌, append_assoc}
use mathlib.Core.Option.{Option, none, some}
use native.Mathlib.Omega.{arith}
use caddy_fs_gcs.Base.Tests.{ltb, ◌==◌, if◌then◌else◌}

module _ {ℓ} {A : Type ℓ} where
  abbrev pub length : List A → ℕ
  length [] = 0
  length (x ∷ xs) = suc (length xs)

  -- `none` is an index out of range.
  abbrev pub get_elem? : List A → ℕ → Option A
  get_elem? [] i = none
  get_elem? (x ∷ xs) zero = some x
  get_elem? (x ∷ xs) (suc i) = get_elem? xs i

  abbrev pub set : List A → ℕ → A → List A
  set [] i v = []
  set (x ∷ xs) zero v = v ∷ xs
  set (x ∷ xs) (suc i) v = x ∷ set xs i v

  abbrev pub take : ℕ → List A → List A
  take zero xs = []
  take (suc n) [] = []
  take (suc n) (x ∷ xs) = x ∷ take n xs

  abbrev pub drop : ℕ → List A → List A
  drop zero xs = xs
  drop (suc n) [] = []
  drop (suc n) (x ∷ xs) = drop n xs

  abbrev pub all : (A → Bool) → List A → Bool
  all p [] = true
  all p (x ∷ xs) = p x && all p xs

  pub drop-nil : (n : ℕ) → drop n [] ≡ []
  drop-nil zero = refl
  drop-nil (suc n) = refl

  pub length-append : (xs ys : List A) → length (xs ++ ys) ≡ length xs + length ys
  length-append [] ys = omega arith
  length-append (x ∷ xs) ys = omega (arith, length-append xs ys)

  pub length-set : (xs : List A) (i : ℕ) (v : A) → length (set xs i v) ≡ length xs
  length-set [] i v = refl
  length-set (x ∷ xs) zero v = refl
  length-set (x ∷ xs) (suc i) v = ap suc (length-set xs i v)

  pub length-take : (n : ℕ) (xs : List A) → length (take n xs) ≡ min n (length xs)
  length-take zero xs = omega arith
  length-take (suc n) [] = omega arith
  length-take (suc n) (x ∷ xs) = omega (arith, length-take n xs)

  pub take-append-drop : (n : ℕ) (xs : List A) → take n xs ++ drop n xs ≡ xs
  take-append-drop zero xs = refl
  take-append-drop (suc n) [] = refl
  take-append-drop (suc n) (x ∷ xs) = ap (◌∷◌ x) (take-append-drop n xs)

  pub get_elem?-lt : (xs : List A) (i : ℕ) → i < length xs → (x : A) × (get_elem? xs i ≡ some x)
  get_elem?-lt [] i h = absurd (omega arith)
  get_elem?-lt (x ∷ xs) zero h = (x, refl)
  get_elem?-lt (x ∷ xs) (suc i) h = get_elem?-lt xs i (omega arith)

  pub lt_of_get_elem? : (xs : List A) (i : ℕ) (x : A) → get_elem? xs i ≡ some x → i < length xs
  lt_of_get_elem? [] i y h = absurd (ground arith)
  lt_of_get_elem? (x ∷ xs) zero y h = omega arith
  lt_of_get_elem? (x ∷ xs) (suc i) y h = omega (arith, lt_of_get_elem? xs i y h)

  pub get_elem?-set :
      (xs : List A) (i j : ℕ) (v : A)
      → j < length xs
      → get_elem? (set xs j v) i ≡ (if i == j then some v else get_elem? xs i)
  get_elem?-set [] i j v h = absurd (omega arith)
  get_elem?-set (x ∷ xs) zero zero v h = refl
  get_elem?-set (x ∷ xs) zero (suc j) v h = ground arith
  get_elem?-set (x ∷ xs) (suc i) zero v h = ground arith
  get_elem?-set (x ∷ xs) (suc i) (suc j) v h = ground (arith, get_elem?-set xs i j v)

  pub get_elem?-take :
      (xs : List A) (i n : ℕ) → get_elem? (take n xs) i ≡ (if ltb i n then get_elem? xs i else none)
  get_elem?-take xs i zero = ground arith
  get_elem?-take [] i (suc n) = ground arith
  get_elem?-take (x ∷ xs) zero (suc n) = ground arith
  get_elem?-take (x ∷ xs) (suc i) (suc n) = ground (arith, get_elem?-take xs i n)

  pub get_elem?-append :
      (xs : List A) (x : A) (i : ℕ)
      → get_elem? (xs ++ x ∷ []) i ≡ (if i == length xs then some x else get_elem? xs i)
  get_elem?-append [] x zero = refl
  get_elem?-append [] x (suc i) = ground arith
  get_elem?-append (y ∷ xs) x zero = ground arith
  get_elem?-append (y ∷ xs) x (suc i) = ground (arith, get_elem?-append xs x i)

  pub drop-append : (xs ys : List A) → drop (length xs) (xs ++ ys) ≡ ys
  drop-append [] ys = refl
  drop-append (x ∷ xs) ys = drop-append xs ys

  pub drop-drop : (m n : ℕ) (xs : List A) → drop n (drop m xs) ≡ drop (m + n) xs
  drop-drop zero n xs = rw add.zero
  drop-drop (suc m) n [] = rw (add.suc, drop-nil n)
  drop-drop (suc m) n (x ∷ xs) = rw add.suc (drop-drop m n xs)

  pub take-append : (xs ys : List A) → take (length xs) (xs ++ ys) ≡ xs
  take-append [] ys = refl
  take-append (x ∷ xs) ys = ap (◌∷◌ x) (take-append xs ys)

  -- What is left behind a front part.
  pub drop-length :
      (p : ℕ) (xs bs ys : List A) → drop p xs ≡ bs ++ ys → drop (p + length bs) xs ≡ ys
  drop-length p xs bs ys h =
      sym (drop-drop p (length bs) xs) ∙ ap (drop (length bs)) h ∙ drop-append bs ys

  pub length-drop : (n : ℕ) (xs : List A) → length (drop n xs) ≡ length xs - n
  length-drop zero xs = omega arith
  length-drop (suc n) [] = omega arith
  length-drop (suc n) (x ∷ xs) = omega (arith, length-drop n xs)

  -- A front part from a position on, and what follows it.
  pub drop-take-split :
      (p l : ℕ) (xs : List A) → p ≤ l → drop p xs ≡ drop p (take l xs) ++ drop l xs
  drop-take-split zero l xs h = sym (take-append-drop l xs)
  drop-take-split (suc p) zero xs h = absurd (omega arith)
  drop-take-split (suc p) (suc l) [] h = refl
  drop-take-split (suc p) (suc l) (x ∷ xs) h = drop-take-split p l xs (omega arith)

  -- At most `want` elements from a position on, within the first `l`.
  pub window :
      (p l want : ℕ) (xs : List A)
      → p ≤ l
      → drop p xs
        ≡ take want (drop p (take l xs)) ++ drop (p + length (take want (drop p (take l xs)))) xs
  window p l want xs h =
      let ys = drop p (take l xs) in
      let split : drop p xs ≡ take want ys ++ (drop want ys ++ drop l xs) =
        drop-take-split p l xs h
        ∙ ap (λ t. t ++ drop l xs) (sym (take-append-drop want ys))
        ∙ append_assoc (take want ys) (drop want ys) (drop l xs) in
      split ∙ ap (λ t. take want ys ++ t) (sym (drop-length p xs (take want ys) _ split))

  pub take-take : (n : ℕ) (xs : List A) → take n (take n xs) ≡ take n xs
  take-take zero xs = refl
  take-take (suc n) [] = refl
  take-take (suc n) (x ∷ xs) = ap (◌∷◌ x) (take-take n xs)
