-- ===== src/Paths/Prefixing.antt =====
-- pkg/gcs/fs/gcsfs.go: path.Join of a directory that path.Clean has made and a name that
-- `fs.ValidPath` accepts.
use Prim.Native.Char.{Char}
use Prim.Native.String
use mathlib.Core.List.{reverse}
use text.Mathlib.Text.{◌==◌ as text_eq}
use text.Mathlib.TextEquality.{eq_iff, Char-path}
use text.Mathlib.TextLemmas.{nil-append, cons-append, append_assoc, cons≢nil}
use caddy_fs_gcs.Base.{
  ◌≡◌, ◌≢◌, refl, ap, ◌∙◌, inl, inr, String, Bool, true, false, List, [], ◌∷◌, ◌++◌, arith, all,
  Bool-cases,
}
use caddy_fs_gcs.Paths.{
  split_slash, push_front, join_slash, is_slash, is_rooted, clean_parts, clean, render, join_path,
  resolve, resolve_all, valid_part, fs_valid_path, trim_slash_suffix, last_or,
}
use caddy_fs_gcs.Paths.Joining.{
  split_slash_nonempty, split_slash-append, resolve_all-append, join_path-fs_valid_path,
  is_rooted-append, slash-append,
}
use caddy_fs_gcs.Paths.Cleaning.{clean_parts-clean, is_rooted-clean, clean_nonempty}

last-valid_part :
    (d h : String) (t : List String)
    → all valid_part (h ∷ t) ≡ true
    → valid_part (last_or d (h ∷ t)) ≡ true
last-valid_part d h [] v = ground arith
last-valid_part d h (p ∷ t) v = last-valid_part h p t (ground arith)

split_slash_empty : (s : String) → split_slash s ≡ "" ∷ [] → s ≡ ""
unfolding split_slash
split_slash_empty String.[] h = refl
split_slash_empty (String.◌∷◌ c s) h =
    let (p, t, e) = split_slash_nonempty s in
    elim (Bool-cases (is_slash c)) [
      | inl y ↦ absurd (ground (arith, e))
      | inr n ↦ absurd (cons≢nil (ap first (rw (n, e) at h)))
    ]
  where
    first : List String → String
    first [] = ""
    first (q ∷ qs) = q

last-push_front :
    (c : Char) (s p : String) (t : List String)
    → split_slash s ≡ p ∷ t
    → s ≢ ""
    → last_or "" (push_front c (p ∷ t)) ≢ ""
    → last_or "" (p ∷ t) ≢ ""
last-push_front c s p [] e ne h = λ q. ne (split_slash_empty s (e ∙ ap (λ x. x ∷ []) q))
last-push_front c s p (q ∷ t) e ne h = h

-- A text whose last element is not empty has no slash at its end.
trim_kept : (s : String) → last_or "" (split_slash s) ≢ "" → trim_slash_suffix s ≡ s
unfolding split_slash trim_slash_suffix
trim_kept String.[] h = refl
trim_kept (String.◌∷◌ c s) h =
    let (p, t, e) = split_slash_nonempty s in
    elim (Bool-cases (is_slash c)) [
      | inl y ↦ elim (Bool-cases (text_eq s "")) [
        | inl z ↦ absurd (h (rw (y, (eq_iff s "").0 z) refl))
        | inr ne ↦
            let last : last_or "" (split_slash s) ≢ "" = λ q. h (rw (y, e) (rw e at q)) in
            rw (ne, trim_kept s last) (ground arith)
      ]
      | inr n ↦ elim (Bool-cases (text_eq s "")) [
        | inl z ↦ rw (n, (eq_iff s "").0 z) refl
        | inr ne ↦
            let last : last_or "" (split_slash s) ≢ "" = λ q.
              last-push_front c s p t e (ground (arith, eq_iff s "")) (rw (n, e) at h)
                (rw e at q) in
            rw (n, trim_kept s last) refl
      ]
    ]

-- A name that `fs.ValidPath` accepts, other than `.`, has no slash at its end and is not empty.
module _ (name : String) (d : name ≢ ".") (v : fs_valid_path name ≡ true) where
  parts_valid : all valid_part (split_slash name) ≡ true
  unfolding fs_valid_path
  parts_valid = ground (arith, eq_iff name ".")

  pub trim_valid : trim_slash_suffix name ≡ name
  trim_valid =
      let (p, t, e) = split_slash_nonempty name in
      let last = last-valid_part "" p t (rw e at parts_valid) in
      trim_kept name (rw e (ground (arith, eq_iff (last_or "" (p ∷ t)) "")))

  pub valid_nonempty : name ≢ ""
  unfolding split_slash
  valid_nonempty = λ e. empty_invalid (rw e at parts_valid)
    where
      empty_invalid : all valid_part ("" ∷ []) ≢ true
      empty_invalid h = cc

join_slash-append :
    (x : String) (xs : List String) (y : String) (ys : List String)
    → join_slash ((x ∷ xs) ++ (y ∷ ys))
      ≡ String.◌++◌ (join_slash (x ∷ xs)) (String.◌++◌ "/" (join_slash (y ∷ ys)))
unfolding join_slash
join_slash-append x [] y ys = refl
join_slash-append x (z ∷ xs) y ys = rw (join_slash-append z xs y ys, append_assoc, append_assoc)

render-append :
    (r : Bool) (xs : List String) (y : String) (ys : List String)
    → xs ≢ []
    → render r (xs ++ (y ∷ ys)) ≡ String.◌++◌ (render r xs) (String.◌++◌ "/" (join_slash (y ∷ ys)))
unfolding render
render-append r [] y ys h = absurd (h refl)
render-append true (x ∷ xs) y ys h = rw (join_slash-append x xs y ys, append_assoc)
render-append false (x ∷ xs) y ys h = join_slash-append x xs y ys

join_slash-push_front :
    (c : Char) (p : String) (t : List String)
    → join_slash (push_front c (p ∷ t)) ≡ String.◌∷◌ c (join_slash (p ∷ t))
unfolding join_slash
join_slash-push_front c p [] = refl
join_slash-push_front c p (q ∷ t) = cons-append c p _

join_front :
    (p : String) (t : List String) → join_slash ("" ∷ p ∷ t) ≡ String.◌++◌ "/" (join_slash (p ∷ t))
unfolding join_slash
join_front p t = nil-append (String.◌++◌ "/" (join_slash (p ∷ t)))

-- What is cut at the slashes and joined again.
join_slash-split_slash : (s : String) → join_slash (split_slash s) ≡ s
unfolding split_slash
join_slash-split_slash String.[] = unfold join_slash in refl
join_slash-split_slash (String.◌∷◌ c s) =
    let (p, t, e) = split_slash_nonempty s in
    let ih = rw e at (join_slash-split_slash s) in
    elim (Bool-cases (is_slash c)) [
      | inl y ↦
          let slash : c ≡ "/" = Char-path c "/" (ground arith) in
          rw (y, e) (join_front p t ∙ slash-append (join_slash (p ∷ t)) ∙ rw (slash, ih))
      | inr n ↦ rw (n, e) (join_slash-push_front c p t ∙ ap (String.◌∷◌ c) ih)
    ]

trailing_slash : (a : String) → a ≢ "" → clean_parts (String.◌++◌ a "/") ≡ clean_parts a
unfolding clean_parts
trailing_slash a ne =
    rw
      (
        is_rooted-append a "/" ne,
        split_slash-append a "",
        resolve_all-append (is_rooted a) [] (split_slash a) (split_slash ""),
      )
      (ap reverse (resolve_end (is_rooted a) (resolve_all (is_rooted a) [] (split_slash a))))
  where
    resolve_end : (r : Bool) (out : List String) → resolve_all r out (split_slash "") ≡ out
    resolve_end r out = unfold resolve_all resolve split_slash in refl

module _ (dir : String) (deep : clean_parts dir ≢ []) where
  pub join_path-name :
      (name : String)
      → name ≢ "."
      → fs_valid_path name ≡ true
      → join_path (clean dir) name ≡ String.◌++◌ (clean dir) (String.◌++◌ "/" name)
  join_path-name name d v =
      let (p, t, e) = split_slash_nonempty name in
      let whole : join_slash (p ∷ t) ≡ name = rw e at (join_slash-split_slash name) in
      rw
        (
          join_path-fs_valid_path (clean dir) name (clean_nonempty dir) d v,
          is_rooted-clean dir deep,
          clean_parts-clean dir deep,
          e,
          render-append (is_rooted dir) (clean_parts dir) p t deep,
          whole,
        )
        (unfold clean in refl)

  clean_render : render (is_rooted dir) (clean_parts dir) ≡ clean dir
  unfolding clean
  clean_render = refl

  pub join_path-root : join_path (clean dir) "" ≡ clean dir
  join_path-root =
      let ne = clean_nonempty dir in
      joined (clean dir) ne
      ∙ rw (is_rooted-append (clean dir) "/" ne, is_rooted-clean dir deep)
          (ap (render (is_rooted dir)) (trailing_slash (clean dir) ne ∙ clean_parts-clean dir deep))
      ∙ clean_render
    where
      joined :
          (a : String)
          → a ≢ ""
          → join_path a ""
            ≡ render (is_rooted (String.◌++◌ a "/")) (clean_parts (String.◌++◌ a "/"))
      joined a ne = unfold join_path clean in ground (arith, eq_iff a "")
