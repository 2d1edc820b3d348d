-- ===== src/Rules/Patterns.antt =====
-- pkg/validation/config.go: what the expressions of the rule for names of buckets match.
use Prim.Native.Char.{Char}
use caddy_fs_gcs.Base.{
  ◌≤◌, ◌≡◌, refl, ap, ◌∙◌, ◌↔◌, inl, inr, Bool, true, List, [], ◌∷◌, ◌++◌, Bool-cases, arith,
  length, all, is_digit,
}
use caddy_fs_gcs.Regex.{Regex, one, followed, many, matches}
use caddy_fs_gcs.Regex.Language.{Words, done, more, Matches, matches-Matches}
use caddy_fs_gcs.Texts.{is_code, begins, ends, double_dot}
use caddy_fs_gcs.Rules.{
  edge_char, bucket_char, bucket_name_chars_re, short_number, dot_number, ip_address_re,
}

cons_injective : {c d : Char} {cs ds : List Char} → c ∷ cs ≡ d ∷ ds → (c ≡ d) × (cs ≡ ds)
cons_injective h = (cc, cc)

all-append :
    (p : Char → Bool) (xs ys : List Char)
    → all p xs ≡ true
    → all p ys ≡ true
    → all p (xs ++ ys) ≡ true
all-append p [] ys h k = k
all-append p (x ∷ xs) ys h k = ground (arith, all-append p xs ys, h, k)

ends-append : (p : Char → Bool) (xs : List Char) (d : Char) → ends p (xs ++ d ∷ []) ≡ p d
unfolding ends
ends-append p [] d = refl
ends-append p (x ∷ []) d = refl
ends-append p (x ∷ y ∷ xs) d = ends-append p (y ∷ xs) d

-- Words of one character each.
Words-all : (p : Char → Bool) (cs : List Char) → Words (Matches (one p)) cs → all p cs ≡ true
Words-all p cs (done e) = rw e refl
Words-all p cs (more c [] ys e (d, h, y) w) = rw (e, (cons_injective h).0, y) (Words-all p ys w)
Words-all p cs (more c (x ∷ xs) ys e (d, h, y) w) = cc

-- What comes behind the first character of a name.
abbrev tail_re : Regex
tail_re = followed (many (one bucket_char)) (one edge_char)

edge-bucket : (c : Char) → edge_char c ≡ true → bucket_char c ≡ true
edge-bucket c h = ground (arith, h)

all-tail_re :
    (cs : List Char) → all bucket_char cs ≡ true → ends edge_char cs ≡ true → Matches tail_re cs
unfolding ends
all-tail_re [] h e = absurd (ground arith)
all-tail_re (c ∷ []) h e = ([], c ∷ [], refl, done refl, (c, refl, e))
all-tail_re (c ∷ d ∷ cs) h e =
    let rest = all-tail_re (d ∷ cs) (ground (arith, h)) e in
    (
      c ∷ rest.0,
      rest.1,
      ap (◌∷◌ c) rest.2,
      more c [] rest.0 refl (c, refl, ground (arith, h)) rest.3,
      rest.4,
    )

tail_re-all :
    (cs : List Char) → Matches tail_re cs → (all bucket_char cs ≡ true) × (ends edge_char cs ≡ true)
tail_re-all cs (xs, ys, e, w, (d, h, y)) = (
  rw (e, h)
      (all-append bucket_char xs (d ∷ []) (Words-all bucket_char xs w)
        (ground (arith, edge-bucket d y))),
  rw (e, h) (ends-append edge_char xs d ∙ y),
)

-- The expression for the characters, as tests of the characters.
abbrev pub WellSpelled : List Char → Type 0
WellSpelled cs =
    (2 ≤ length cs)
    × (all bucket_char cs ≡ true)
    × (begins edge_char cs ≡ true)
    × (ends edge_char cs ≡ true)

re-WellSpelled : (cs : List Char) → Matches bucket_name_chars_re cs → WellSpelled cs
unfolding bucket_name_chars_re ends
re-WellSpelled cs ([], zs, e, (c, h, y), t) = cc
re-WellSpelled cs (x ∷ x' ∷ xs, zs, e, (c, h, y), t) = cc
re-WellSpelled cs (x ∷ [], [], e, (c, h, y), t) = absurd (ground (arith, tail_re-all [] t))
re-WellSpelled cs (x ∷ [], z ∷ zs, e, (c, h, y), t) =
    let x-edge : edge_char x ≡ true = rw (cons_injective h).0 y in
    let rest = tail_re-all (z ∷ zs) t in
    rw e (omega arith, ground (arith, edge-bucket x x-edge, rest.0), x-edge, rest.1)

WellSpelled-re : (cs : List Char) → WellSpelled cs → Matches bucket_name_chars_re cs
unfolding bucket_name_chars_re ends
WellSpelled-re [] w = absurd (omega (arith, w.0))
WellSpelled-re (c ∷ []) w = absurd (omega (arith, w.0))
WellSpelled-re (c ∷ d ∷ cs) (l, h, b, e) =
    (c ∷ [], d ∷ cs, refl, (c, refl, b), all-tail_re (d ∷ cs) (ground (arith, h)) e)

-- Two dots, one behind the other.
abbrev pub HasDots : List Char → Type 0
HasDots cs =
    (xs : List Char) × (c : Char) × (d : Char) × (ys : List Char) × (cs ≡ xs ++ c ∷ d ∷ ys)
    × (is_code b'.' c ≡ true)
    × (is_code b'.' d ≡ true)

double_dot-HasDots : (cs : List Char) → double_dot cs ≡ true → HasDots cs
unfolding double_dot
double_dot-HasDots [] h = absurd (ground arith)
double_dot-HasDots (c ∷ []) h = absurd (ground (arith, h))
double_dot-HasDots (c ∷ d ∷ cs) h = elim (Bool-cases (double_dot (d ∷ cs))) [
  | inl y ↦
      let (xs, c', d', ys, e, p, q) = double_dot-HasDots (d ∷ cs) y in
      (c ∷ xs, c', d', ys, ap (◌∷◌ c) e, p, q)
  | inr n ↦ ([], c, d, cs, refl, ground (arith, h, n), ground (arith, h, n))
]

dots-double_dot :
    (xs : List Char) (c d : Char) (ys : List Char)
    → is_code b'.' c ≡ true
    → is_code b'.' d ≡ true
    → double_dot (xs ++ c ∷ d ∷ ys) ≡ true
unfolding double_dot
dots-double_dot [] c d ys p q = rw (p, q) refl
dots-double_dot (x ∷ xs) c d ys p q = ground (arith, dots-double_dot xs c d ys p q)

-- A decimal number of one to three digits.
abbrev pub ShortNumber : List Char → Type 0
ShortNumber cs = (all is_digit cs ≡ true) × (1 ≤ length cs) × (length cs ≤ 3)

-- Four such numbers with dots between them.
abbrev pub IsDotted : List Char → Type 0
IsDotted cs =
    (ks ls ms ns : List Char) × (c d e : Char) × (cs ≡ ks ++ c ∷ (ls ++ d ∷ (ms ++ e ∷ ns)))
    × (is_code b'.' c ≡ true)
    × (is_code b'.' d ≡ true)
    × (is_code b'.' e ≡ true)
    × ShortNumber ks
    × ShortNumber ls
    × ShortNumber ms
    × ShortNumber ns

re-ShortNumber : (cs : List Char) → Matches short_number cs → ShortNumber cs
re-ShortNumber cs (xs, ys, e, (c, h, y), (zs, ws, f, inl m, inl n)) =
    rw (e, f, h, m, n) (ground (arith, y))
re-ShortNumber cs (xs, ys, e, (c, h, y), (zs, ws, f, inl m, inr (d, n, z))) =
    rw (e, f, h, m, n) (ground (arith, y, z))
re-ShortNumber cs (xs, ys, e, (c, h, y), (zs, ws, f, inr (d, m, z), inl n)) =
    rw (e, f, h, m, n) (ground (arith, y, z))
re-ShortNumber cs (xs, ys, e, (c, h, y), (zs, ws, f, inr (d, m, z), inr (d', n, z'))) =
    rw (e, f, h, m, n) (ground (arith, y, z, z'))

ShortNumber-re : (cs : List Char) → ShortNumber cs → Matches short_number cs
ShortNumber-re [] (a, l, u) = absurd (omega arith)
ShortNumber-re (c ∷ []) (a, l, u) =
    (c ∷ [], [], refl, (c, refl, ground (arith, a)), ([], [], refl, inl refl, inl refl))
ShortNumber-re (c ∷ d ∷ []) (a, l, u) = (
  c ∷ [],
  d ∷ [],
  refl,
  (c, refl, ground (arith, a)),
  ([], d ∷ [], refl, inl refl, inr (d, refl, ground (arith, a))),
)
ShortNumber-re (c ∷ d ∷ e ∷ []) (a, l, u) = (
  c ∷ [],
  d ∷ e ∷ [],
  refl,
  (c, refl, ground (arith, a)),
  (d ∷ [], e ∷ [], refl, inr (d, refl, ground (arith, a)), inr (e, refl, ground (arith, a))),
)
ShortNumber-re (c ∷ d ∷ e ∷ f ∷ cs) (a, l, u) = absurd (omega arith)

dot_number-inv :
    (cs : List Char)
    → Matches dot_number cs
    → (c : Char) × (ls : List Char) × (cs ≡ c ∷ ls) × (is_code b'.' c ≡ true) × ShortNumber ls
dot_number-inv cs (xs, ls, e, (c, h, p), m) = (c, ls, rw (e, h) refl, p, re-ShortNumber ls m)

re-IsDotted : (cs : List Char) → Matches ip_address_re cs → IsDotted cs
unfolding ip_address_re
re-IsDotted cs (ks, r, e, k, (ls, r', f, l, (ms, ns, g, m, n))) =
    let (c, ls', el, p, hl) = dot_number-inv ls l in
    let (d, ms', em, q, hm) = dot_number-inv ms m in
    let (x, ns', en, s, hn) = dot_number-inv ns n in
    (
      ks,
      ls',
      ms',
      ns',
      c,
      d,
      x,
      rw (e, f, g, el, em, en) refl,
      p,
      q,
      s,
      re-ShortNumber ks k,
      hl,
      hm,
      hn,
    )

dot_number-intro :
    (c : Char) (ls : List Char)
    → is_code b'.' c ≡ true
    → ShortNumber ls
    → Matches dot_number (c ∷ ls)
dot_number-intro c ls p h = (c ∷ [], ls, refl, (c, refl, p), ShortNumber-re ls h)

IsDotted-re : (cs : List Char) → IsDotted cs → Matches ip_address_re cs
unfolding ip_address_re
IsDotted-re cs (ks, ls, ms, ns, c, d, x, e, p, q, s, k, l, m, n) = (
  ks,
  _,
  e,
  ShortNumber-re ks k,
  (
    c ∷ ls,
    _,
    refl,
    dot_number-intro c ls p l,
    (d ∷ ms, x ∷ ns, refl, dot_number-intro d ms q m, dot_number-intro x ns s n),
  ),
)

-- The three tests of the rule on the characters of a name.
pub chars_re-WellSpelled :
    (cs : List Char) → (matches bucket_name_chars_re cs ≡ true) ↔ WellSpelled cs
chars_re-WellSpelled cs =
    let language = matches-Matches bucket_name_chars_re cs in
    (λ h. re-WellSpelled cs (language.0 h), λ w. language.1 (WellSpelled-re cs w))

pub double_dot-dots : (cs : List Char) → (double_dot cs ≡ true) ↔ HasDots cs
double_dot-dots cs =
    (double_dot-HasDots cs, λ (xs, c, d, ys, e, p, q). rw e (dots-double_dot xs c d ys p q))

pub ip_re-IsDotted : (cs : List Char) → (matches ip_address_re cs ≡ true) ↔ IsDotted cs
ip_re-IsDotted cs =
    let language = matches-Matches ip_address_re cs in
    (λ h. re-IsDotted cs (language.0 h), λ d. language.1 (IsDotted-re cs d))
