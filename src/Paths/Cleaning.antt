-- ===== src/Paths/Cleaning.antt =====
-- pkg/gcs/fs/gcsfs.go: what path.Clean makes of a path stays as it is.
use Prim.Native.String
use mathlib.Core.List.{reverse, reverse-append, reverse-reverse}
use text.Mathlib.Text.{◌==◌ as text_eq}
use text.Mathlib.TextEquality.{eq_iff}
use text.Mathlib.TextLemmas.{cons-append, cons≢nil}
use caddy_fs_gcs.Base.{
  ◌≡◌, ◌≢◌, refl, sym, ap, ◌∙◌, inl, inr, String, Bool, true, false, not, ◌&&◌, ◌||◌, List, [], ◌∷◌,
  ◌++◌, arith, all, Bool-cases,
}
use caddy_fs_gcs.Paths.{
  split_slash, join_slash, is_slash, is_rooted, go_up, resolve, resolve_all, clean_parts, clean,
  render, valid_part,
}
use caddy_fs_gcs.Paths.Joining.{
  split_slash_nonempty, split_slash-append, slash-append, resolve_all-append, resolve_valid,
  is_rooted-append,
}

-- A text without a slash.
unfoldable no_slash : String → Bool
no_slash String.[] = true
no_slash (String.◌∷◌ c s) = not (is_slash c) && no_slash s

abbrev is_up : String → Bool
is_up s = text_eq s ".."

-- What `path.Clean` can have put out so far, the last element at the head.
unfoldable resolved : Bool → List String → Bool
resolved r [] = true
resolved r (p ∷ out) =
    (valid_part p && no_slash p && resolved r out) || (not r && is_up p && all is_up out)

split_slash-no_slash : (s : String) → all no_slash (split_slash s) ≡ true
unfolding split_slash no_slash
split_slash-no_slash String.[] = refl
split_slash-no_slash (String.◌∷◌ c s) =
    let (h, t, e) = split_slash_nonempty s in
    let rest = split_slash-no_slash s in
    elim (Bool-cases (is_slash c)) [
      | inl y ↦ rw y rest
      | inr n ↦ rw (n, e) (ground (arith, rw e at rest))
    ]

split_slash_single : (s : String) → no_slash s ≡ true → split_slash s ≡ s ∷ []
unfolding split_slash no_slash
split_slash_single String.[] h = refl
split_slash_single (String.◌∷◌ c s) h = ground (arith, split_slash_single s)

split_slash-join_slash :
    (p : String) (ps : List String)
    → all no_slash (p ∷ ps) ≡ true
    → split_slash (join_slash (p ∷ ps)) ≡ p ∷ ps
unfolding join_slash
split_slash-join_slash p [] h = split_slash_single p (ground arith)
split_slash-join_slash p (q ∷ ps) h = rw (
  split_slash-append p (join_slash (q ∷ ps)),
  split_slash_single p (ground arith),
  split_slash-join_slash q ps (ground arith),
)

ups_resolved : (out : List String) → all is_up out ≡ true → resolved false out ≡ true
unfolding resolved
ups_resolved [] h = refl
ups_resolved (p ∷ out) h = ground arith

go_up-resolved :
    (r : Bool) (out : List String) → resolved r out ≡ true → resolved r (go_up r out) ≡ true
unfolding resolved
go_up-resolved true [] h = refl
go_up-resolved false [] h = refl
go_up-resolved true (top ∷ out) h = ground arith
go_up-resolved false (top ∷ out) h = ground (arith, ups_resolved out)

resolve-resolved :
    (r : Bool) (out : List String) (part : String)
    → resolved r out ≡ true
    → no_slash part ≡ true
    → resolved r (resolve r out part) ≡ true
unfolding resolve resolved
resolve-resolved r out part h n = ground (arith, go_up-resolved r out)

resolve_all-resolved :
    (r : Bool) (out parts : List String)
    → resolved r out ≡ true
    → all no_slash parts ≡ true
    → resolved r (resolve_all r out parts) ≡ true
unfolding resolve_all
resolve_all-resolved r out [] h n = h
resolve_all-resolved r out (p ∷ parts) h n =
    resolve_all-resolved r (resolve r out p) parts (resolve-resolved r out p h (ground arith))
      (ground arith)

up_kept :
    (r : Bool) (out : List String)
    → resolved r (".." ∷ out) ≡ true
    → resolve r out ".." ≡ ".." ∷ out
unfolding resolve resolved
up_kept true out h = cc
up_kept false [] h = refl
up_kept false (q ∷ out) h = ground arith

-- Resolving what is resolved changes nothing.
resolve_kept :
    (r : Bool) (out : List String) (p : String)
    → resolved r (p ∷ out) ≡ true
    → resolve r out p ≡ p ∷ out
unfolding resolved
resolve_kept r out p h = elim (Bool-cases (is_up p)) [
  | inl y ↦ let e = (eq_iff p "..").0 y in rw e (up_kept r out (rw e at h))
  | inr n ↦ resolve_valid r out p (ground arith)
]

resolved_tail :
    (r : Bool) (p : String) (out : List String)
    → resolved r (p ∷ out) ≡ true
    → resolved r out ≡ true
unfolding resolved
resolved_tail true p out h = ground arith
resolved_tail false p out h = ground (arith, ups_resolved out)

resolve_all-reverse :
    (r : Bool) (out : List String) → resolved r out ≡ true → resolve_all r [] (reverse out) ≡ out
resolve_all-reverse r [] h = unfold resolve_all in refl
resolve_all-reverse r (p ∷ out) h =
    rw
      (
        reverse-append (p ∷ []) out,
        resolve_all-append r [] (reverse out) (p ∷ []),
        resolve_all-reverse r out (resolved_tail r p out h),
      )
      (resolve_one r out p ∙ resolve_kept r out p h)
  where
    resolve_one :
        (r : Bool) (out : List String) (p : String) → resolve_all r out (p ∷ []) ≡ resolve r out p
    resolve_one r out p = unfold resolve_all in refl

-- An element that has text and no slash.
abbrev plain : String → Bool
plain s = no_slash s && not (text_eq s "")

up_plain : (s : String) → is_up s ≡ true → plain s ≡ true
unfolding no_slash
up_plain s h = rw ((eq_iff s "..").0 h) refl

resolved-plain : (r : Bool) (out : List String) → resolved r out ≡ true → all plain out ≡ true
unfolding resolved
resolved-plain r [] h = refl
resolved-plain true (p ∷ out) h = ground (arith, resolved-plain true out)
resolved-plain false (p ∷ out) h =
    ground (arith, resolved-plain false out, ups_resolved out, up_plain p)

all-append : (q : String → Bool) (xs ys : List String) → all q (xs ++ ys) ≡ (all q xs && all q ys)
all-append q [] ys = refl
all-append q (x ∷ xs) ys = ground (arith, all-append q xs ys)

all-reverse : (q : String → Bool) (xs : List String) → all q (reverse xs) ≡ all q xs
all-reverse q [] = refl
all-reverse q (x ∷ xs) =
    rw (reverse-append (x ∷ []) xs, all-append q (reverse xs) (x ∷ []), all-reverse q xs)
      (ground arith)

-- The elements of a cleaned path, from the last one.
clean_parts-resolved :
    (path : String) → resolved (is_rooted path) (reverse (clean_parts path)) ≡ true
unfolding clean_parts
clean_parts-resolved path = rw reverse-reverse (
    resolve_all-resolved (is_rooted path) [] (split_slash path) (unfold resolved in refl)
      (split_slash-no_slash path))

resolve_all-nil :
    (r : Bool) (parts : List String) → resolve_all r [] ("" ∷ parts) ≡ resolve_all r [] parts
unfolding resolve_all resolve
resolve_all-nil r parts = refl

all-no_slash : (parts : List String) → all plain parts ≡ true → all no_slash parts ≡ true
all-no_slash [] h = refl
all-no_slash (p ∷ parts) h = ground (arith, all-no_slash parts)

resolve_all-render :
    (r : Bool) (parts : List String)
    → all plain parts ≡ true
    → parts ≢ []
    → resolve_all r [] (split_slash (render r parts)) ≡ resolve_all r [] parts
unfolding render
resolve_all-render r [] n h = absurd (h refl)
resolve_all-render true (p ∷ ps) n h = rw (
  slash-append,
  slash_first (join_slash (p ∷ ps)),
  resolve_all-nil,
  split_slash-join_slash p ps (all-no_slash (p ∷ ps) n),
)
  where
    slash_first : (s : String) → split_slash (String.◌∷◌ "/" s) ≡ "" ∷ split_slash s
    slash_first s = unfold split_slash in refl
resolve_all-render false (p ∷ ps) n h = rw (split_slash-join_slash p ps (all-no_slash (p ∷ ps) n))

plain_not_rooted : (p : String) → plain p ≡ true → is_rooted p ≡ false
unfolding no_slash
plain_not_rooted String.[] h = cc
plain_not_rooted (String.◌∷◌ c p) h = ground arith

plain_nonempty : (p : String) → plain p ≡ true → p ≢ ""
unfolding no_slash
plain_nonempty p h = ground (arith, eq_iff p "")

is_rooted-render :
    (r : Bool) (parts : List String)
    → all plain parts ≡ true
    → parts ≢ []
    → is_rooted (render r parts) ≡ r
unfolding render join_slash
is_rooted-render r [] n h = absurd (h refl)
is_rooted-render true (p ∷ ps) n h = rw (slash-append (join_slash (p ∷ ps)))
is_rooted-render false (p ∷ []) n h = plain_not_rooted p (ground arith)
is_rooted-render false (p ∷ q ∷ ps) n h =
    is_rooted-append p (String.◌++◌ "/" (join_slash (q ∷ ps))) (plain_nonempty p (ground arith))
    ∙ plain_not_rooted p (ground arith)

clean_parts-plain : (path : String) → all plain (clean_parts path) ≡ true
clean_parts-plain path =
    sym (all-reverse plain (clean_parts path))
    ∙ resolved-plain (is_rooted path) _ (clean_parts-resolved path)

pub is_rooted-clean :
    (path : String) → clean_parts path ≢ [] → is_rooted (clean path) ≡ is_rooted path
unfolding clean
is_rooted-clean path h = is_rooted-render (is_rooted path) _ (clean_parts-plain path) h

-- `path.Clean` of a path that it has cleaned.
pub clean_parts-clean :
    (path : String) → clean_parts path ≢ [] → clean_parts (clean path) ≡ clean_parts path
clean_parts-clean path h =
    let r = is_rooted path in
    let parts = clean_parts path in
    let at_root : is_rooted (clean path) ≡ r = is_rooted-clean path h in
    let cleaned : clean path ≡ render r parts = unfold clean in refl in
    unparse (clean path)
    ∙ rw (at_root, cleaned, resolve_all-render r parts (clean_parts-plain path) h)
        (ap reverse (
            rw reverse-reverse at
              (resolve_all-reverse r (reverse parts) (clean_parts-resolved path)))
          ∙ reverse-reverse parts)
  where
    unparse : (s : String) → clean_parts s ≡ reverse (resolve_all (is_rooted s) [] (split_slash s))
    unparse s = unfold clean_parts in refl

plain_prefix_nonempty : (p s : String) → plain p ≡ true → String.◌++◌ p s ≢ ""
unfolding no_slash
plain_prefix_nonempty String.[] s h = cc
plain_prefix_nonempty (String.◌∷◌ c p) s h = rw cons-append cons≢nil

render_nonempty : (r : Bool) (parts : List String) → all plain parts ≡ true → render r parts ≢ ""
unfolding render join_slash
render_nonempty true parts n = rw (slash-append (join_slash parts)) cons≢nil
render_nonempty false [] n = λ h. absurd (ground (arith, eq_iff "." ""))
render_nonempty false (p ∷ []) n = plain_nonempty p (ground arith)
render_nonempty false (p ∷ q ∷ ps) n = plain_prefix_nonempty p _ (ground arith)

-- `path.Clean` never returns the empty text.
pub clean_nonempty : (path : String) → clean path ≢ ""
unfolding clean
clean_nonempty path = render_nonempty (is_rooted path) _ (clean_parts-plain path)
