-- ===== src/Regex/Language.antt =====
-- The language of an expression, and that the matcher decides it.
use Prim.Native.Char.{Char}
use caddy_fs_gcs.Base.{
  ◌≡◌, refl, ap, sym, ◌∙◌, ◌↔◌, ◌⊎◌, inl, inr, true, List, [], ◌∷◌, ◌++◌, Bool-cases, arith,
}
use caddy_fs_gcs.Regex.{Regex, never, nothing, one, followed, either, many, nullable, step, matches}

-- Finitely many words of `L`, none of them empty, one after the other.
pub data Words (L : List Char → Type 0) : List Char → Type 0 where
  done : {cs : List Char} → cs ≡ [] → Words L cs
  more :
      {cs : List Char} (c : Char) (xs ys : List Char)
      → cs ≡ c ∷ (xs ++ ys)
      → L (c ∷ xs)
      → Words L ys
      → Words L cs

abbrev pub Matches : Regex → List Char → Type 0
Matches never cs = ⊥
Matches nothing cs = cs ≡ []
Matches (one p) cs = (c : Char) × (cs ≡ c ∷ []) × (p c ≡ true)
Matches (followed r s) cs =
    (xs : List Char) × (ys : List Char) × (cs ≡ xs ++ ys) × Matches r xs × Matches s ys
Matches (either r s) cs = Matches r cs ⊎ Matches s cs
Matches (many r) cs = Words (Matches r) cs

nullable-Matches : (r : Regex) → nullable r ≡ true → Matches r []
unfolding nullable
nullable-Matches never h = absurd (ground arith)
nullable-Matches nothing h = refl
nullable-Matches (one p) h = absurd (ground arith)
nullable-Matches (followed r s) h =
    ([], [], refl, nullable-Matches r (ground (arith, h)), nullable-Matches s (ground (arith, h)))
nullable-Matches (either r s) h = elim (Bool-cases (nullable r)) [
  | inl y ↦ inl (nullable-Matches r y)
  | inr n ↦ inr (nullable-Matches s (ground (arith, h, n)))
]
nullable-Matches (many r) h = done refl

append_empty : (xs ys : List Char) → [] ≡ xs ++ ys → (xs ≡ []) × (ys ≡ [])
append_empty [] ys h = (refl, sym h)
append_empty (x ∷ xs) ys h = cc

Matches-nullable : (r : Regex) (cs : List Char) → cs ≡ [] → Matches r cs → nullable r ≡ true
unfolding nullable
Matches-nullable never cs e m = absurd m
Matches-nullable nothing cs e m = refl
Matches-nullable (one p) cs e (c, h, _) = cc
Matches-nullable (followed r s) cs e (xs, ys, h, m, n) =
    let parts = append_empty xs ys (sym e ∙ h) in
    ground (arith, Matches-nullable r xs parts.0 m, Matches-nullable s ys parts.1 n)
Matches-nullable (either r s) cs e (inl m) = ground (arith, Matches-nullable r cs e m)
Matches-nullable (either r s) cs e (inr m) = ground (arith, Matches-nullable s cs e m)
Matches-nullable (many r) cs e m = refl

step-Matches : (r : Regex) (c : Char) (cs : List Char) → Matches (step c r) cs → Matches r (c ∷ cs)
unfolding step
step-Matches never c cs m = absurd m
step-Matches nothing c cs m = absurd m
step-Matches (one p) c cs m = elim (Bool-cases (p c)) [
  | inl y ↦ (c, ap (◌∷◌ c) (rw y at m), y)
  | inr n ↦ absurd (rw n at m)
]
step-Matches (followed r s) c cs (inl (xs, ys, h, m, n)) =
    (c ∷ xs, ys, ap (◌∷◌ c) h, step-Matches r c xs m, n)
step-Matches (followed r s) c cs (inr m) = elim (Bool-cases (nullable r)) [
  | inl y ↦ ([], c ∷ cs, refl, nullable-Matches r y, step-Matches s c cs (rw y at m))
  | inr n ↦ absurd (rw n at m)
]
step-Matches (either r s) c cs (inl m) = inl (step-Matches r c cs m)
step-Matches (either r s) c cs (inr m) = inr (step-Matches s c cs m)
step-Matches (many r) c cs (xs, ys, h, m, n) = more c xs ys (ap (◌∷◌ c) h) (step-Matches r c xs m) n

cons_injective : {c d : Char} {cs ds : List Char} → c ∷ cs ≡ d ∷ ds → (c ≡ d) × (cs ≡ ds)
cons_injective h = (cc, cc)

Matches-step : (r : Regex) (c : Char) (cs : List Char) → Matches r (c ∷ cs) → Matches (step c r) cs
unfolding step
Matches-step never c cs m = absurd m
Matches-step nothing c cs m = cc
Matches-step (one p) c cs (d, h, y) = let e = cons_injective h in rw (e.0, y) (e.1)
Matches-step (followed r s) c cs ([], ys, h, m, n) =
    rw (Matches-nullable r [] refl m) (inr (Matches-step s c cs (rw h n)))
Matches-step (followed r s) c cs (x ∷ xs, ys, h, m, n) =
    let e = cons_injective h in inl (xs, ys, e.1, Matches-step r c xs (rw e.0 m), n)
Matches-step (either r s) c cs (inl m) = inl (Matches-step r c cs m)
Matches-step (either r s) c cs (inr m) = inr (Matches-step s c cs m)
Matches-step (many r) c cs (done h) = cc
Matches-step (many r) c cs (more d xs ys h m n) =
    let e = cons_injective h in (xs, ys, e.1, Matches-step r c xs (rw e.0 m), n)

-- The matcher decides the language.
pub matches-Matches : (r : Regex) (cs : List Char) → (matches r cs ≡ true) ↔ Matches r cs
unfolding matches
matches-Matches r [] = (nullable-Matches r, Matches-nullable r [] refl)
matches-Matches r (c ∷ cs) =
    let rest = matches-Matches (step c r) cs in
    (λ h. step-Matches r c cs (rest.0 h), λ m. rest.1 (Matches-step r c cs m))
