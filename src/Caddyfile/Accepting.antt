-- ===== src/Caddyfile/Accepting.antt =====
-- pkg/gcs/fs/module.go: what `UnmarshalCaddyfile` lets through.
use text.Mathlib.Text.{◌==◌ as text_eq}
use text.Mathlib.TextEquality.{eq_iff}
use caddy_fs_gcs.Base.{
  ◌≡◌, ◌≢◌, ◌∙◌, refl, sym, ◌++◌, if◌then◌else◌, String, Bool, true, false, not, ◌||◌, Option, none,
  some, List, [], ◌∷◌, >>=-eq-some, some_injective, arith, ℤ, Bool-cases, inl, inr,
}
use caddy_fs_gcs.Module.{Config}
use caddy_fs_gcs.Caddyfile.{
  is_positive, single, contains, set_max_entries, set_ttl, set_value, unmarshal_line,
  unmarshal_lines, with_bucket, unmarshal_caddyfile, atoi,
}

-- A limit that has been set is positive.
abbrev pub limited : Config → Bool
limited c = not c.cache_max_entries_set || is_positive c.cache_max_entries

abbrev Absent : String → List String → Type 0
Absent d [] = Unit {0}
Absent d (x ∷ xs) = (d ≢ x) × Absent d xs

-- No string stands twice.
abbrev pub AllDifferent : List String → Type 0
AllDifferent [] = Unit {0}
AllDifferent (d ∷ ds) = Absent d ds × AllDifferent ds

-- The directives on a line: more may follow the one that takes no argument.
unfoldable pub directives_of : List String → List String
directives_of [] = []
directives_of (directive ∷ args) =
    let more = directives_of args in
    directive ∷ (if text_eq directive "use_workload_identity" then more else [])

unfoldable pub all_directives : List (List String) → List String
all_directives [] = []
all_directives (line ∷ lines) = directives_of line ++ all_directives lines

contains-Absent : (d : String) (seen : List String) → contains d seen ≡ false → Absent d seen
unfolding contains
contains-Absent d [] h = tt
contains-Absent d (x ∷ xs) h =
    (ground (arith, h, eq_iff d x, eq_iff x d), contains-Absent d xs (ground (arith, h)))

-- Directives that are new, one after the other, to those seen.
abbrev Fresh : List String → List String → Type 0
Fresh seen [] = Unit {0}
Fresh seen (d ∷ ds) = Absent d seen × Fresh (d ∷ seen) ds

unfoldable onto : List String → List String → List String
onto [] seen = seen
onto (d ∷ ds) seen = onto ds (d ∷ seen)

Fresh-append :
    (ds es seen : List String) → Fresh seen ds → Fresh (onto ds seen) es → Fresh seen (ds ++ es)
unfolding onto
Fresh-append [] es seen f g = g
Fresh-append (d ∷ ds) es seen f g = (f.0, Fresh-append ds es (d ∷ seen) f.1 g)

onto-append : (ds es seen : List String) → onto (ds ++ es) seen ≡ onto es (onto ds seen)
unfolding onto
onto-append [] es seen = refl
onto-append (d ∷ ds) es seen = onto-append ds es (d ∷ seen)

-- What is seen is not among the new ones.
Fresh-Absent :
    (x : String) (ds seen : List String)
    → ((y : String) → Absent y seen → y ≢ x)
    → Fresh seen ds
    → Absent x ds
Fresh-Absent x [] seen h f = tt
Fresh-Absent x (d ∷ ds) seen h f =
    (λ e. h d f.0 (sym e), Fresh-Absent x ds (d ∷ seen) (λ y a. h y a.1) f.1)

Fresh-AllDifferent : (ds seen : List String) → Fresh seen ds → AllDifferent ds
Fresh-AllDifferent [] seen f = tt
Fresh-AllDifferent (d ∷ ds) seen f =
    (Fresh-Absent d ds (d ∷ seen) (λ y a. a.0) f.1, Fresh-AllDifferent ds (d ∷ seen) f.1)

set_max_entries-limited :
    (c c' : Config) (m : Option ℤ) → set_max_entries c m ≡ some c' → limited c' ≡ true
set_max_entries-limited c c' none h = absurd (ground arith)
set_max_entries-limited c c' (some n) h = elim (Bool-cases (is_positive n)) [
  | inl p ↦ rw (← some_injective (rw p at h)) p
  | inr p ↦ absurd (ground (arith, rw p at h))
]

set_ttl-limited :
    (c c' : Config) (m : Option ℤ) → limited c ≡ true → set_ttl c m ≡ some c' → limited c' ≡ true
set_ttl-limited c c' none l h = absurd (ground arith)
set_ttl-limited c c' (some d) l h = rw (← some_injective h) l

module _ (parse_duration : String → Option ℤ) where
  set_value-limited :
      (directive v : String) (c c' : Config)
      → limited c ≡ true
      → set_value parse_duration directive v c ≡ some c'
      → limited c' ≡ true
  unfolding set_value
  set_value-limited directive v c c' l h = ground (
    arith,
    h,
    l,
    set_max_entries-limited c c' (atoi v),
    set_ttl-limited c c' (parse_duration v) l,
  )

  -- What some directives make of the state.
  record Taken (ds : List String) (s s' : List String × Config) : Type 0 where
    fresh : Fresh s.0 ds
    seen : s'.0 ≡ onto ds s.0
    kept : limited s.1 ≡ true → limited s'.1 ≡ true

  take_more :
      (d : String) (ds : List String) (seen : List String) (c c' : Config)
      (s' : List String × Config)
      → contains d seen ≡ false
      → (limited c ≡ true → limited c' ≡ true)
      → Taken ds (d ∷ seen, c') s'
      → Taken (d ∷ ds) (seen, c) s'
  unfolding onto
  take_more d ds seen c c' s' once l t = record {
    fresh = (contains-Absent d seen once, t.fresh);
    seen = t.seen;
    kept = λ h. t.kept (l h);
  }

  nothing-Taken : (s : List String × Config) → Taken [] s s
  unfolding onto
  nothing-Taken s = record { fresh = tt; seen = refl; kept = λ h. h }

  unmarshal_line-Taken :
      (line : List String) (s s' : List String × Config)
      → unmarshal_line parse_duration line s ≡ some s'
      → Taken (directives_of line) s s'
  unfolding unmarshal_line directives_of
  unmarshal_line-Taken [] (seen, c) s' h = rw (← some_injective h) (nothing-Taken (seen, c))
  unmarshal_line-Taken (directive ∷ args) (seen, c) s' h =
      elim (Bool-cases (contains directive seen)) [
        | inl twice ↦ absurd (ground (arith, rw twice at h))
        | inr once ↦ elim (Bool-cases (text_eq directive "use_workload_identity")) [
          | inl flag ↦
              let c' : Config = record c { use_workload_identity = true } in
              rw flag (
                take_more directive (directives_of args) seen c c' s' once (λ l. l)
                  (unmarshal_line-Taken args (directive ∷ seen, c') s' (rw (once, flag) at h)))
          | inr option ↦
              let (v, _, e) = >>=-eq-some (single args) _ (rw (once, option) at h) in
              let (c', set, e') = >>=-eq-some (set_value parse_duration directive v c) _ e in
              rw (option, ← some_injective e')
                (take_more directive [] seen c c' (directive ∷ seen, c') once
                  (λ l. set_value-limited directive v c c' l set)
                  (nothing-Taken (directive ∷ seen, c')))
        ]
      ]

  unmarshal_lines-Taken :
      (lines : List (List String)) (s s' : List String × Config)
      → unmarshal_lines parse_duration lines s ≡ some s'
      → Taken (all_directives lines) s s'
  unfolding unmarshal_lines all_directives
  unmarshal_lines-Taken [] s s' h = rw (← some_injective h) (nothing-Taken s)
  unmarshal_lines-Taken (line ∷ lines) s s' h =
      let (t, one, rest) =
        >>=-eq-some (unmarshal_line parse_duration line s) (unmarshal_lines parse_duration lines)
          h in
      let a = unmarshal_line-Taken line s t one in
      let b = unmarshal_lines-Taken lines t s' rest in
      record {
        fresh =
            Fresh-append (directives_of line) (all_directives lines) s.0 a.fresh
              (rw a.seen at b.fresh);
        seen =
            b.seen ∙ rw a.seen (sym (onto-append (directives_of line) (all_directives lines) s.0));
        kept = λ l. b.kept (a.kept l);
      }

  -- If `UnmarshalCaddyfile` returns no error, then no directive stands twice on the lines of the block, a
  -- bucket is named, and the limit of the cache is positive if it is set, be it before or by a
  -- directive, provided that one set before was.
  pub unmarshal_caddyfile-limited :
      (lines : List (List String)) (c c' : Config)
      → limited c ≡ true
      → unmarshal_caddyfile parse_duration (some lines) c ≡ some c'
      → AllDifferent (all_directives lines) × (c'.bucket_name ≢ "") × (limited c' ≡ true)
  unfolding unmarshal_caddyfile
  unmarshal_caddyfile-limited lines c c' l h =
      let ((seen, d), parsed, named) =
        >>=-eq-some (unmarshal_lines parse_duration lines ([], c)) with_bucket h in
      let t = unmarshal_lines-Taken lines ([], c) (seen, d) parsed in
      elim (Bool-cases (text_eq d.bucket_name "")) [
        | inl nameless ↦ absurd (ground (arith, rw nameless at named))
        | inr name ↦ rw (← some_injective (rw name at named)) (
          Fresh-AllDifferent (all_directives lines) [] t.fresh,
          ground (arith, name, eq_iff d.bucket_name ""),
          t.kept l,
        )
      ]
