-- ===== src/Logging/Sanitizing.antt =====
-- pkg/observability/logger/sanitize.go: what is left of a string.
use Prim.Native.Char.{Char, code}
use Prim.Native.String
use text.Mathlib.TextLemmas.{nil-append, cons-append}
use caddy_fs_gcs.Base.{
  ℕ, zero, suc, ◌+◌, ◌-◌, ◌*◌, ◌≤◌, ◌<◌, ◌≡◌, refl, inl, inr, String, Bool, true, false, ◌&&◌, ◌||◌,
  ◌==◌, leb, if◌then◌else◌, Bool-cases, arith, ap, sym, ◌∙◌, ◌⊎◌, leb→le, List, [], ◌∷◌, ◌++◌,
}
use caddy_fs_gcs.Texts.{width, byte_length}
use caddy_fs_gcs.Logging.{
  Piece, rune, stray, size, byte_count, is_kept, rune_error, sanitize_string, strays, first_bytes,
  valid_string, drop_byte, drop_partial, max_len, sanitize_query,
}

-- A tab, or no control character: not below the space, and not from DEL to U+009F.
abbrev pub printable : Char → Bool
printable c = code c == 9 || leb 32 (code c) && (leb (code c) 126 || leb 160 (code c))

is_kept-printable : (c : Char) → is_kept c ≡ printable c
is_kept-printable c = ground arith

unfoldable pub all_printable : String → Bool
all_printable String.[] = true
all_printable (String.◌∷◌ c s) = printable c && all_printable s

-- The printable runes of a string, with U+FFFD for a stray byte.
unfoldable pub shown : List Piece → String
shown [] = ""
shown (rune c ∷ s) = let rest = shown s in if printable c then String.◌∷◌ c rest else rest
shown (stray ∷ s) = String.◌∷◌ rune_error (shown s)

-- Runes only.
unfoldable pub runes_only : List Piece → Bool
runes_only [] = true
runes_only (rune c ∷ s) = runes_only s
runes_only (stray ∷ s) = false

-- What stands behind the runes of a front to which `left` bytes may be added: a stray byte, or a rune that
-- has more bytes.
abbrev pub Stops : ℕ → List Piece → Type 0
Stops left [] = ⊥
Stops left (rune c ∷ s) = left < width c
Stops left (stray ∷ s) = Unit {0}

sanitize_string-shown : (s : List Piece) → sanitize_string s ≡ shown s
unfolding sanitize_string shown
sanitize_string-shown [] = refl
sanitize_string-shown (rune c ∷ s) = rw (is_kept-printable c, sanitize_string-shown s) refl
sanitize_string-shown (stray ∷ s) = ap (String.◌∷◌ rune_error) (sanitize_string-shown s)

shown-all_printable : (s : List Piece) → all_printable (shown s) ≡ true
unfolding all_printable shown
shown-all_printable [] = refl
shown-all_printable (rune c ∷ s) = elim (Bool-cases (printable c)) [
  | inl y ↦ rw y (ground (arith, y, shown-all_printable s))
  | inr n ↦ rw n (shown-all_printable s)
]
shown-all_printable (stray ∷ s) = shown-all_printable s

width-positive : (c : Char) → 1 ≤ width c
width-positive c = ground arith

shown-byte_length : (s : List Piece) → byte_length (shown s) ≤ 3 * byte_count s
unfolding byte_length shown byte_count
shown-byte_length [] = omega arith
shown-byte_length (rune c ∷ s) = elim (Bool-cases (printable c)) [
  | inl y ↦ rw y (omega (arith, shown-byte_length s))
  | inr n ↦ rw n (omega (arith, shown-byte_length s))
]
shown-byte_length (stray ∷ s) = omega (arith, shown-byte_length s)

runes-byte_length : (s : List Piece) → runes_only s ≡ true → byte_length (shown s) ≤ byte_count s
unfolding byte_length shown byte_count runes_only
runes-byte_length [] h = omega arith
runes-byte_length (rune c ∷ s) h = elim (Bool-cases (printable c)) [
  | inl y ↦ rw y (omega (arith, runes-byte_length s h))
  | inr n ↦ rw n (omega (arith, runes-byte_length s h))
]
runes-byte_length (stray ∷ s) h = absurd (ground (arith, h))

-- The runes before the first stray byte.
unfoldable front : List Piece → List Piece
front [] = []
front (rune c ∷ s) = rune c ∷ front s
front (stray ∷ s) = []

front-valid : (s : List Piece) → valid_string s ≡ true → front s ≡ s
unfolding front valid_string
front-valid [] h = refl
front-valid (rune c ∷ s) h = ap (λ t. rune c ∷ t) (front-valid s h)
front-valid (stray ∷ s) h = absurd (ground (arith, h))

front-drop_byte : (s : List Piece) → valid_string s ≡ false → front (drop_byte s) ≡ front s
unfolding front drop_byte valid_string strays
front-drop_byte [] h = refl
front-drop_byte (rune c ∷ []) h = absurd (ground (arith, h))
front-drop_byte (stray ∷ []) h = refl
front-drop_byte (rune c ∷ q ∷ s) h = ap (λ t. rune c ∷ t) (front-drop_byte (q ∷ s) h)
front-drop_byte (stray ∷ q ∷ s) h = refl

byte_count-strays : (n : ℕ) → byte_count (strays n) ≡ n
unfolding byte_count strays
byte_count-strays zero = refl
byte_count-strays (suc n) = omega (arith, byte_count-strays n)

size-positive : (p : Piece) → 1 ≤ size p
size-positive (rune c) = width-positive c
size-positive stray = omega arith

byte_count-drop_byte : (s : List Piece) → byte_count (drop_byte s) ≡ byte_count s - 1
unfolding byte_count drop_byte
byte_count-drop_byte [] = refl
byte_count-drop_byte (p ∷ []) = omega (arith, byte_count-strays (size p - 1))
byte_count-drop_byte (p ∷ q ∷ s) = omega (arith, byte_count-drop_byte (q ∷ s), size-positive q)

no_bytes : (s : List Piece) → byte_count s ≤ 0 → s ≡ front s
unfolding byte_count front
no_bytes [] h = refl
no_bytes (p ∷ s) h = absurd (omega (arith, size-positive p, h))

drop_partial-front : (n : ℕ) (s : List Piece) → byte_count s ≤ n → drop_partial n s ≡ front s
unfolding drop_partial
drop_partial-front zero s h = no_bytes s h
drop_partial-front (suc n) s h = elim (Bool-cases (valid_string s)) [
  | inl y ↦ rw y (sym (front-valid s y))
  | inr k ↦ rw k (
      drop_partial-front n (drop_byte s) (omega (arith, byte_count-drop_byte s, h))
      ∙ front-drop_byte s k)
]

-- The runes that fit into `n` bytes, up to a stray byte, and what stands behind them.
unfoldable fitting : ℕ → List Piece → List Piece
fitting n [] = []
fitting n (rune c ∷ s) =
    let rest = fitting (n - width c) s in if leb (width c) n then rune c ∷ rest else []
fitting n (stray ∷ s) = []

unfoldable behind : ℕ → List Piece → List Piece
behind n [] = []
behind n (rune c ∷ s) =
    let rest = behind (n - width c) s in if leb (width c) n then rest else rune c ∷ s
behind n (stray ∷ s) = stray ∷ s

front-strays : (n : ℕ) → front (strays n) ≡ []
unfolding front strays
front-strays zero = refl
front-strays (suc n) = refl

front-first_bytes : (n : ℕ) (s : List Piece) → front (first_bytes n s) ≡ fitting n s
unfolding first_bytes fitting front
front-first_bytes n [] = refl
front-first_bytes n (rune c ∷ s) = elim (Bool-cases (leb (width c) n)) [
  | inl y ↦ rw y (ap (λ t. rune c ∷ t) (front-first_bytes (n - width c) s))
  | inr k ↦ rw k (front-strays n)
]
front-first_bytes n (stray ∷ s) = elim (Bool-cases (leb 1 n)) [
  | inl y ↦ rw y refl
  | inr k ↦ rw k (front-strays n)
]

fitting-behind : (n : ℕ) (s : List Piece) → s ≡ fitting n s ++ behind n s
unfolding fitting behind
fitting-behind n [] = refl
fitting-behind n (rune c ∷ s) = elim (Bool-cases (leb (width c) n)) [
  | inl y ↦ rw y (ap (λ t. rune c ∷ t) (fitting-behind (n - width c) s))
  | inr k ↦ rw k refl
]
fitting-behind n (stray ∷ s) = refl

fitting-runes_only : (n : ℕ) (s : List Piece) → runes_only (fitting n s) ≡ true
unfolding fitting runes_only
fitting-runes_only n [] = refl
fitting-runes_only n (rune c ∷ s) = elim (Bool-cases (leb (width c) n)) [
  | inl y ↦ rw y (fitting-runes_only (n - width c) s)
  | inr k ↦ rw k refl
]
fitting-runes_only n (stray ∷ s) = refl

byte_count-fitting : (n : ℕ) (s : List Piece) → byte_count (fitting n s) ≤ n
unfolding fitting byte_count
byte_count-fitting n [] = omega arith
byte_count-fitting n (rune c ∷ s) = elim (Bool-cases (leb (width c) n)) [
  | inl y ↦ rw y (omega (arith, byte_count-fitting (n - width c) s, leb→le _ _ y))
  | inr k ↦ rw k (omega arith)
]
byte_count-fitting n (stray ∷ s) = omega arith

not_leb : (a b : ℕ) → leb a b ≡ false → b < a
not_leb a b h = ground (arith, h)

fitting-Stops :
    (n : ℕ) (s : List Piece) → n < byte_count s → Stops (n - byte_count (fitting n s)) (behind n s)
unfolding fitting behind byte_count
fitting-Stops n [] h = absurd (omega (arith, h))
fitting-Stops n (rune c ∷ s) h = elim (Bool-cases (leb (width c) n)) [
  | inl y ↦
      let kept = byte_count (fitting (n - width c) s) in
      let e : n - width c - kept ≡ n - (width c + kept) = omega arith in
      rw y (rw e at (fitting-Stops (n - width c) s (omega (arith, h, leb→le _ _ y))))
  | inr k ↦ rw k (omega (arith, not_leb (width c) n k))
]
fitting-Stops n (stray ∷ s) h = tt

byte_length-append : (s t : String) → byte_length (String.◌++◌ s t) ≡ byte_length s + byte_length t
unfolding byte_length
byte_length-append String.[] t = rw nil-append (omega arith)
byte_length-append (String.◌∷◌ c s) t = rw cons-append (omega (arith, byte_length-append s t))

all_printable-append :
    (s t : String)
    → all_printable s ≡ true
    → all_printable t ≡ true
    → all_printable (String.◌++◌ s t) ≡ true
unfolding all_printable
all_printable-append String.[] t h k = rw nil-append k
all_printable-append (String.◌∷◌ c s) t h k =
    rw cons-append (ground (arith, h, all_printable-append s t, k))

-- How a long query is cut: runes of at most 200 bytes, behind which the next rune does not fit or stands a
-- byte that is not UTF-8.
pub record Cut (query : List Piece) (out : String) : Type 0 where
  pub kept : List Piece
  pub rest : List Piece
  pub split : query ≡ kept ++ rest
  pub runes : runes_only kept ≡ true
  pub fits : byte_count kept ≤ 200
  pub stops : Stops (200 - byte_count kept) rest
  pub answer : out ≡ String.◌++◌ (shown kept) "..."
  pub limit : byte_length out ≤ 203

-- What `SanitizeQuery` makes of a query.
pub record Sanitized (query : List Piece) (out : String) : Type 0 where
  pub cases :
      ((byte_count query ≤ 200) × (out ≡ shown query) × (byte_length out ≤ 600))
      ⊎ ((200 < byte_count query) × Cut query out)
  pub clean : all_printable out ≡ true

short-Sanitized :
    (q : List Piece) → leb (byte_count q) max_len ≡ true → Sanitized q (sanitize_query q)
unfolding sanitize_query
short-Sanitized q h =
    rw (h, sanitize_string-shown q)
      (record {
        cases = inl (leb→le _ _ h, refl, omega (arith, shown-byte_length q, leb→le _ _ h));
        clean = shown-all_printable q;
      })

dots_kept : all_printable "..." ≡ true
unfolding all_printable
dots_kept = refl

dots_length : byte_length "..." ≡ 3
unfolding byte_length
dots_length = refl

long-Sanitized :
    (q : List Piece) → leb (byte_count q) max_len ≡ false → Sanitized q (sanitize_query q)
unfolding sanitize_query
long-Sanitized q h =
    let t = first_bytes max_len q in
    let kept = fitting max_len q in
    let cut : drop_partial (byte_count t) t ≡ kept =
      drop_partial-front (byte_count t) t (omega arith) ∙ front-first_bytes max_len q in
    rw (h, cut, sanitize_string-shown kept)
      (record {
        cases = inr (
          not_leb _ _ h,
          record {
            kept = kept;
            rest = behind max_len q;
            split = fitting-behind max_len q;
            runes = fitting-runes_only max_len q;
            fits = byte_count-fitting max_len q;
            stops = fitting-Stops max_len q (not_leb _ _ h);
            answer = refl;
            limit = omega (
              arith,
              byte_length-append (shown kept) "...",
              dots_length,
              runes-byte_length kept (fitting-runes_only max_len q),
              byte_count-fitting max_len q,
            );
          },
        );
        clean = all_printable-append (shown kept) "..." (shown-all_printable kept) dots_kept;
      })

-- `SanitizeQuery` answers a query without its control characters but tabs. A query of at most 200 bytes is
-- kept whole, with U+FFFD for each byte that is not UTF-8, in at most 600 bytes. Of a longer one
-- there remain, with three dots behind them and in at most 203 bytes, the runes from its start that
-- fit into 200 bytes, up to the first byte that is not UTF-8.
pub sanitize_query-Sanitized : (query : List Piece) → Sanitized query (sanitize_query query)
sanitize_query-Sanitized q = elim (Bool-cases (leb (byte_count q) max_len)) [
  | inl short ↦ short-Sanitized q short
  | inr long ↦ long-Sanitized q long
]
