-- ===== src/Dispenser/Running.antt =====
-- The loops of every handler's `UnmarshalCaddyfile`: over a line as a relation without fuel, and over the
-- lines of a block.
use caddy_fs_gcs.Base.{
  ℕ, zero, suc, ◌≤◌, ◌≡◌, inl, inr, String, Option, none, some, List, [], ◌∷◌, ◌++◌, length,
  >>=-eq-some, some_injective, Option-cases, arith, ap,
}
use caddy_fs_gcs.Dispenser.{Unmarshaler, read_line, read_block}

module _ {H : Type 0} (u : Unmarshaler H) where
  -- The loop over a line, without fuel: it ends with the line or with the error of a directive.
  pub data Runs : List String → H → Option H → Type 0 where
    ends : {h : H} → Runs [] h (some h)
    fails :
        {name : String} {args : List String} {h : H}
        → u.directive name args h ≡ none
        → Runs (name ∷ args) h none
    goes :
        {name : String} {args rest : List String} {h h' : H} {out : Option H}
        → u.directive name args h ≡ some (rest, h')
        → Runs rest h' out
        → Runs (name ∷ args) h out

  -- A directive leaves at most the tokens behind it.
  abbrev pub Shrinks : Type 0
  Shrinks =
      (name : String) (args rest : List String) (h h' : H)
      → u.directive name args h ≡ some (rest, h')
      → length rest ≤ length args

  enough-Runs :
      Shrinks
      → (fuel : ℕ) (line : List String) (h : H) → length line ≤ fuel
      → Runs line h (read_line u fuel line h)
  unfolding read_line
  enough-Runs shrinks fuel [] h l = ends
  enough-Runs shrinks zero (name ∷ args) h l = absurd (omega arith)
  enough-Runs shrinks (suc fuel) (name ∷ args) h l = elim (Option-cases (u.directive name args h)) [
    | inl e ↦ rw e (fails e)
    | inr ((rest, h'), e) ↦
        rw e
          (goes e (enough-Runs shrinks fuel rest h' (omega (arith, shrinks name args rest h h' e))))
  ]

  -- When no directive puts tokens back, the loop over a line ends, and as many rounds as the line has
  -- tokens are enough to reach the end of the line or the error of a directive.
  pub read_line-Runs :
      Shrinks → (line : List String) (h : H) → Runs line h (read_line u (length line) line h)
  read_line-Runs shrinks line h = enough-Runs shrinks (length line) line h (omega arith)

  pub read_block-append :
      (lines more : List (List String)) (h h' : H)
      → read_block u lines h ≡ some h'
      → read_block u (lines ++ more) h ≡ read_block u more h'
  unfolding read_block
  read_block-append [] more h h' e = ap (read_block u more) (some_injective e)
  read_block-append (line ∷ lines) more h h' e =
      let (k, first, rest) =
        >>=-eq-some (read_line u (length line) line h) (read_block u lines) e in
      rw first (read_block-append lines more k h' rest)
