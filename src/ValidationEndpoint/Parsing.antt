-- ===== src/ValidationEndpoint/Parsing.antt =====
-- pkg/validation/validation_endpoint.go: `UnmarshalCaddyfile` reads back what is written.
use caddy_fs_gcs.Base.{
  ◌≡◌, refl, ap, sym, ◌∙◌, String, Bool, true, false, Option, none, some, List, [], ◌∷◌, ◌++◌,
  if◌then◌else◌, arith, Dict, lookup, insert, has, Distinct,
}
use mathlib.Core.List.{append_assoc, append-nil}
use mathlib.Core.Path.{subst}
use caddy_fs_gcs.Dispenser.{Segment, read_line, read_block, read_segment, read_segments}
use caddy_fs_gcs.Dispenser.Running.{Shrinks, read_block-append}
use caddy_fs_gcs.ValidationEndpoint.{Handler, directive, unmarshaler, unmarshal_caddyfile}

pub unmarshaler-Shrinks : Shrinks unmarshaler
unfolding directive
unmarshaler-Shrinks name [] rest h h' e = ground (arith, e)
unmarshaler-Shrinks name (a ∷ []) rest h h' e = ground (arith, e)
unmarshaler-Shrinks name (a ∷ b ∷ args) rest h h' e = ground (arith, e)

-- A configuration as the block of a directive.
abbrev flag : String → Bool → List (List String)
flag name b = if b then (name ∷ []) ∷ [] else []

abbrev local_only_lines : Option Bool → List (List String)
local_only_lines none = []
local_only_lines (some true) = ("local_only" ∷ "true" ∷ []) ∷ []
local_only_lines (some false) = ("local_only" ∷ "false" ∷ []) ∷ []

unfoldable pub label_lines : Dict String → List (List String)
label_lines [] = []
label_lines ((key, value) ∷ labels) = ("label" ∷ key ∷ value ∷ []) ∷ label_lines labels

abbrev pub written : Handler → Segment
written h = record {
  args = h.validation_path ∷ [];
  block =
      flag "enable_live" h.enable_live
      ++ (flag "enable_dry_run" h.enable_dry_run
          ++ (flag "strict_mode" h.strict_mode
              ++ (flag "validate_on_load" h.validate_on_load
                  ++ (local_only_lines h.local_only ++ label_lines h.custom_labels))));
}

-- The same handler, not configured.
abbrev pub blank : Handler → Handler
blank h = record h {
  validation_path = "";
  enable_live = false;
  enable_dry_run = false;
  strict_mode = false;
  validate_on_load = false;
  custom_labels = [];
  local_only = none;
}

module _ (h : Handler) where
  live_line :
      (b : Bool)
      → read_block unmarshaler (flag "enable_live" b) (record h { enable_live = false })
        ≡ some (record h { enable_live = b })
  unfolding read_block read_line directive
  live_line true = refl
  live_line false = refl

  dry_run_line :
      (b : Bool)
      → read_block unmarshaler (flag "enable_dry_run" b) (record h { enable_dry_run = false })
        ≡ some (record h { enable_dry_run = b })
  unfolding read_block read_line directive
  dry_run_line true = refl
  dry_run_line false = refl

  strict_line :
      (b : Bool)
      → read_block unmarshaler (flag "strict_mode" b) (record h { strict_mode = false })
        ≡ some (record h { strict_mode = b })
  unfolding read_block read_line directive
  strict_line true = refl
  strict_line false = refl

  on_load_line :
      (b : Bool)
      → read_block unmarshaler (flag "validate_on_load" b) (record h { validate_on_load = false })
        ≡ some (record h { validate_on_load = b })
  unfolding read_block read_line directive
  on_load_line true = refl
  on_load_line false = refl

  local_line :
      (m : Option Bool)
      → read_block unmarshaler (local_only_lines m) (record h { local_only = none })
        ≡ some (record h { local_only = m })
  unfolding read_block read_line directive
  local_line none = refl
  local_line (some true) = refl
  local_line (some false) = refl

has_middle :
    (key : String) (value : String) (m ls : Dict String) → has key (m ++ (key, value) ∷ ls) ≡ true
unfolding lookup
has_middle key value [] ls = ground arith
has_middle key value ((k, v) ∷ m) ls = ground (arith, has_middle key value m ls)

Distinct-middle :
    (key : String) (value : String) (m ls : Dict String)
    → Distinct (m ++ (key, value) ∷ ls)
    → has key m ≡ false
unfolding lookup
Distinct-middle key value [] ls d = refl
Distinct-middle key value ((k, v) ∷ m) ls d =
    ground (arith, d.0, Distinct-middle key value m ls d.1, has_middle key value m ls)

insert-append :
    (key : String) (value : String) (m : Dict String)
    → has key m ≡ false
    → insert key value m ≡ m ++ (key, value) ∷ []
unfolding lookup insert
insert-append key value [] n = refl
insert-append key value ((k, v) ∷ m) n = ground (arith, n, insert-append key value m)

labels_lines :
    (h : Handler) (m ls : Dict String)
    → Distinct (m ++ ls)
    → read_block unmarshaler (label_lines ls) (record h { custom_labels = m })
      ≡ some (record h { custom_labels = m ++ ls })
unfolding read_block read_line directive label_lines
labels_lines h m [] d = rw (append-nil m) refl
labels_lines h m ((key, value) ∷ ls) d =
    let assoc = append_assoc m ((key, value) ∷ []) ls in
    rw (insert-append key value m (Distinct-middle key value m ls d)) (
      labels_lines h (m ++ (key, value) ∷ []) ls (subst Distinct (sym assoc) d)
      ∙ ap {A = Dict String} {B = Option Handler}
          (λ labels. some (record h { custom_labels = labels })) assoc)

module _ (h : Handler) (d : Distinct h.custom_labels) where
  written-block :
      read_block unmarshaler
        (written h).block
        (record (blank h) { validation_path = h.validation_path })
      ≡ some h
  written-block =
      let h1 : Handler = record h {
        enable_dry_run = false;
        strict_mode = false;
        validate_on_load = false;
        custom_labels = [];
        local_only = none;
      } in
      let h2 : Handler = record h1 { enable_dry_run = h.enable_dry_run } in
      let h3 : Handler = record h2 { strict_mode = h.strict_mode } in
      let h4 : Handler = record h3 { validate_on_load = h.validate_on_load } in
      let h5 : Handler = record h4 { local_only = h.local_only } in
      read_block-append unmarshaler _ _ _ h1 (live_line h1 h.enable_live)
      ∙ read_block-append unmarshaler _ _ h1 h2 (dry_run_line h1 h.enable_dry_run)
      ∙ read_block-append unmarshaler _ _ h2 h3 (strict_line h2 h.strict_mode)
      ∙ read_block-append unmarshaler _ _ h3 h4 (on_load_line h3 h.validate_on_load)
      ∙ read_block-append unmarshaler _ _ h4 h5 (local_line h4 h.local_only)
      ∙ labels_lines h [] h.custom_labels d

  -- `UnmarshalCaddyfile` reads a written configuration, whose labels have different names, back to the
  -- handler that was written.
  pub unmarshal_caddyfile-written : unmarshal_caddyfile (written h ∷ []) (blank h) ≡ some h
  unfolding unmarshal_caddyfile read_segments read_segment
  unmarshal_caddyfile-written = rw written-block refl
