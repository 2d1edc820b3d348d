-- ===== src/Dispenser.antt =====
-- The loops over the tokens of a Caddyfile, which the `UnmarshalCaddyfile` of the handlers share:
-- `for d.Next()`, `d.RemainingArgs()` and `for d.NextBlock(0)`. The dispenser of Caddy is a parameter:
-- what it delivers is a list of segments, each with the arguments behind the directive's name and the
-- lines of its block. A handler's switch takes the arguments that it asks for with `d.NextArg()`; what is
-- left of the line comes next. Of an error only that it is one is kept: it is `none`.
pub mod Running
use caddy_fs_gcs.Base.{
  ℕ, zero, suc, String, Bool, true, false, Option, none, some, List, [], ◌∷◌, length, ◌>>=◌,
}

pub record Segment : Type 0 where
  pub args : List String
  pub block : List (List String)

-- What a handler does before a segment (`start`), with the first argument behind its name (`argument`)
-- and with a directive in its block, which leaves the rest of the line (`directive`).
pub record Unmarshaler (H : Type 0) : Type 0 where
  pub start : H → H
  pub argument : String → H → H
  pub directive : String → List String → H → Option (List String × H)

module _ {H : Type 0} (u : Unmarshaler H) where
  abbrev first_argument : List String → H → H
  first_argument [] h = h
  first_argument (arg ∷ args) h = u.argument arg h

  -- A directive takes at least its name, so that a line is read with as much fuel as it has tokens.
  unfoldable pub read_line : ℕ → List String → H → Option H
  read_line fuel [] h = some h
  read_line zero (name ∷ args) h = none
  read_line (suc fuel) (name ∷ args) h =
      u.directive name args h >>= λ (rest, h'). read_line fuel rest h'

  unfoldable pub read_block : List (List String) → H → Option H
  read_block [] h = some h
  read_block (line ∷ lines) h = read_line (length line) line h >>= read_block lines

  unfoldable pub read_segment : Segment → H → Option H
  read_segment s h = read_block s.block (first_argument s.args (u.start h))

  unfoldable pub read_segments : List Segment → H → Option H
  read_segments [] h = some h
  read_segments (s ∷ segments) h = read_segment s h >>= read_segments segments

-- `if !d.NextArg() { return d.ArgErr() }`, then `d.Val()`
abbrev pub next_arg :
    {H : Type 0}
    → List String
    → (String → List String → Option (List String × H))
    → Option (List String × H)
next_arg [] f = none
next_arg (arg ∷ args) f = f arg args
