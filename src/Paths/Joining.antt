-- ===== src/Paths/Joining.antt =====
-- pkg/gcs/fs/gcsfs.go: path.Join and fs.ValidPath together, as the name of an object is made.
use Prim.Native.Char.{Char}
use Prim.Native.String
use mathlib.Core.List.{reverse, reverse-append, reverse-reverse, append_assoc}
use text.Mathlib.Text.{◌==◌ as text_eq}
use text.Mathlib.TextEquality.{eq_iff}
use text.Mathlib.TextLemmas.{nil-append, cons-append}
use caddy_fs_gcs.Base.{
  ◌≡◌, ◌≢◌, refl, sym, ap, ◌∙◌, inl, inr, String, Bool, true, false, List, [], ◌∷◌, ◌++◌, arith,
  all, Bool-cases,
}
use caddy_fs_gcs.Paths.{
  split_slash, push_front, is_slash, is_rooted, resolve, resolve_all, clean_parts, clean, render,
  join_path, valid_part, fs_valid_path, valid_path,
}

pub split_slash_nonempty : (s : String) → (h : String) × (t : List String) × (split_slash s ≡ h ∷ t)
unfolding split_slash
split_slash_nonempty String.[] = ("", [], refl)
split_slash_nonempty (String.◌∷◌ c s) =
    let (h, t, e) = split_slash_nonempty s in
    elim (Bool-cases (is_slash c)) [
      | inl y ↦ ("", split_slash s, rw y)
      | inr n ↦ (String.◌∷◌ c h, t, rw (n, e))
    ]

pub push_front-append :
    (c : Char) (xs ys : List String) (h : String) (t : List String)
    → xs ≡ h ∷ t
    → push_front c (xs ++ ys) ≡ push_front c xs ++ ys
push_front-append c xs ys h t e = rw e

pub slash-append : (b : String) → String.◌++◌ "/" b ≡ String.◌∷◌ "/" b
slash-append b = cons-append "/" "" b ∙ ap (String.◌∷◌ "/") (nil-append b)

pub split_slash-append :
    (a b : String)
    → split_slash (String.◌++◌ a (String.◌++◌ "/" b)) ≡ split_slash a ++ split_slash b
unfolding split_slash
split_slash-append String.[] b = rw (nil-append, slash-append b)
split_slash-append (String.◌∷◌ c a) b =
    let (h, t, e) = split_slash_nonempty a in
    rw cons-append (elim (Bool-cases (is_slash c)) [
      | inl y ↦ rw (y, split_slash-append a b)
      | inr n ↦ rw (n, split_slash-append a b) (push_front-append c _ (split_slash b) h t e)
    ])

pub resolve_all-append :
    (r : Bool) (out xs ys : List String)
    → resolve_all r out (xs ++ ys) ≡ resolve_all r (resolve_all r out xs) ys
unfolding resolve_all
resolve_all-append r out [] ys = refl
resolve_all-append r out (x ∷ xs) ys = resolve_all-append r (resolve r out x) xs ys

-- An element that `fs.ValidPath` accepts is kept as it is.
pub resolve_valid :
    (r : Bool) (out : List String) (s : String) → valid_part s ≡ true → resolve r out s ≡ s ∷ out
unfolding resolve
resolve_valid r out s h = ground arith

resolve_all_valid :
    (r : Bool) (out xs : List String)
    → all valid_part xs ≡ true
    → resolve_all r out xs ≡ reverse xs ++ out
unfolding resolve_all
resolve_all_valid r out [] h = refl
resolve_all_valid r out (x ∷ xs) h =
    rw (resolve_valid r out x (ground arith), resolve_all_valid r (x ∷ out) xs (ground arith))
      (sym (append_assoc (reverse xs) (x ∷ []) out)
        ∙ sym (ap (λ l. l ++ out) (reverse-append (x ∷ []) xs)))

pub is_rooted-append : (a x : String) → a ≢ "" → is_rooted (String.◌++◌ a x) ≡ is_rooted a
is_rooted-append String.[] x h = absurd (h refl)
is_rooted-append (String.◌∷◌ c a) x h = rw cons-append

-- The parts of a joined path: those of the cleaned prefix, then those of the name.
pub clean_parts-append :
    (prefix name : String)
    → prefix ≢ ""
    → all valid_part (split_slash name) ≡ true
    → clean_parts (String.◌++◌ prefix (String.◌++◌ "/" name))
      ≡ clean_parts prefix ++ split_slash name
unfolding clean_parts
clean_parts-append prefix name h v = rw (
  is_rooted-append prefix (String.◌++◌ "/" name) h,
  split_slash-append prefix name,
  resolve_all-append,
  resolve_all_valid (is_rooted prefix) _ (split_slash name) v,
  reverse-append,
  reverse-reverse,
)

pub valid_path_fs : (name : String) → valid_path name ≡ true → fs_valid_path name ≡ true
unfolding valid_path
valid_path_fs name v = ground arith

-- `path.Join(prefix, name)` of a name that `fs.ValidPath` accepts.
pub join_path-fs_valid_path :
    (prefix name : String)
    → prefix ≢ ""
    → name ≢ "."
    → fs_valid_path name ≡ true
    → join_path prefix name ≡ render (is_rooted prefix) (clean_parts prefix ++ split_slash name)
unfolding join_path clean fs_valid_path
join_path-fs_valid_path prefix name h d v =
    let parts : all valid_part (split_slash name) ≡ true = ground (arith, eq_iff name ".") in
    rw (
      text_ne prefix "" h,
      is_rooted-append prefix (String.◌++◌ "/" name) h,
      clean_parts-append prefix name h parts,
    )
  where
    text_ne : (s t : String) → s ≢ t → text_eq s t ≡ false
    text_ne s t ne = ground (arith, eq_iff s t)

-- `path.Join(prefix, name)` of a name that `validPath` accepts, other than `.`, is the cleaned prefix
-- followed by the elements of the name, in order and unchanged: no name leads out of the prefix.
pub join_path-valid_path :
    (prefix name : String)
    → prefix ≢ ""
    → name ≢ "."
    → valid_path name ≡ true
    → join_path prefix name ≡ render (is_rooted prefix) (clean_parts prefix ++ split_slash name)
join_path-valid_path prefix name h d v =
    join_path-fs_valid_path prefix name h d (valid_path_fs name v)
