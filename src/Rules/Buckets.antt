-- ===== src/Rules/Buckets.antt =====
-- pkg/validation/config.go: the rule for names of buckets against a description of them.
use Prim.Native.Char.{Char}
use caddy_fs_gcs.Base.{
  ◌≤◌, ◌≡◌, refl, ◌↔◌, String, Bool, true, false, none, List, [], ◌∷◌, arith, length, all,
}
use caddy_fs_gcs.Regex.{runes, matches, match_string}
use caddy_fs_gcs.Texts.{is_blank, byte_length, begins, ends, double_dot}
use caddy_fs_gcs.Rules.{
  str, edge_char, bucket_char, bucket_name_chars_re, ip_address_re, hyphen_or_dot, bucket_name_rule,
}
use caddy_fs_gcs.Rules.Patterns.{
  HasDots, IsDotted, chars_re-WellSpelled, double_dot-dots, ip_re-IsDotted,
}

-- A name of a bucket: 3 to 63 lower-case letters, digits, hyphens, underscores and dots, that starts and
-- ends with a letter or a digit, has no two dots in a row and is no IP address.
pub record IsBucketName (cs : List Char) : Type 0 where
  at_least : 3 ≤ length cs
  at_most : length cs ≤ 63
  spelling : all bucket_char cs ≡ true
  start : begins edge_char cs ≡ true
  end_ : ends edge_char cs ≡ true
  dots : ¬ HasDots cs
  address : ¬ IsDotted cs

all-byte_length : (s : String) → all bucket_char (runes s) ≡ true → byte_length s ≡ length (runes s)
unfolding byte_length runes
all-byte_length String.[] h = refl
all-byte_length (String.◌∷◌ c s) h = ground (arith, h, all-byte_length s)

begins-is_blank : (s : String) → begins edge_char (runes s) ≡ true → is_blank s ≡ false
unfolding is_blank runes
begins-is_blank String.[] h = absurd (ground arith)
begins-is_blank (String.◌∷◌ c s) h = ground (arith, h)

begins-edges : (cs : List Char) → begins edge_char cs ≡ true → begins hyphen_or_dot cs ≡ false
begins-edges [] h = refl
begins-edges (c ∷ cs) h = ground (arith, h)

ends-edges : (cs : List Char) → ends edge_char cs ≡ true → ends hyphen_or_dot cs ≡ false
unfolding ends
ends-edges [] h = refl
ends-edges (c ∷ []) h = ground (arith, h)
ends-edges (c ∷ d ∷ cs) h = ends-edges (d ∷ cs) h

-- What the rule has tested when it accepts.
accepted_tests :
    (s : String)
    → bucket_name_rule (str s) ≡ none
    → (3 ≤ byte_length s)
      × (byte_length s ≤ 63)
      × (matches bucket_name_chars_re (runes s) ≡ true)
      × (double_dot (runes s) ≡ false)
      × (matches ip_address_re (runes s) ≡ false)
unfolding bucket_name_rule match_string
accepted_tests s h =
    (ground (arith, h), ground (arith, h), ground (arith, h), ground (arith, h), ground (arith, h))

rule-IsBucketName : (s : String) → bucket_name_rule (str s) ≡ none → IsBucketName (runes s)
rule-IsBucketName s h =
    let (low, high, re, dots, ip) = accepted_tests s h in
    let (two, spelled, start, finish) = (chars_re-WellSpelled (runes s)).0 re in
    let same = all-byte_length s spelled in
    record {
      at_least = omega arith;
      at_most = omega arith;
      spelling = spelled;
      start = start;
      end_ = finish;
      dots = λ d. ground (arith, (double_dot-dots (runes s)).1 d, dots);
      address = λ a. ground (arith, (ip_re-IsDotted (runes s)).1 a, ip);
    }

false_of : (b : Bool) → ¬ (b ≡ true) → b ≡ false
false_of true n = absurd (n refl)
false_of false n = refl

IsBucketName-rule : (s : String) → IsBucketName (runes s) → bucket_name_rule (str s) ≡ none
unfolding bucket_name_rule match_string
IsBucketName-rule s n =
    let cs = runes s in
    let same = all-byte_length s n.spelling in
    let low = n.at_least in
    let high = n.at_most in
    let dots = false_of (double_dot cs) (λ h. n.dots ((double_dot-dots cs).0 h)) in
    let ip = false_of (matches ip_address_re cs) (λ h. n.address ((ip_re-IsDotted cs).0 h)) in
    let re = (chars_re-WellSpelled cs).1 (omega arith, n.spelling, n.start, n.end_) in
    ground (
      arith,
      dots,
      ip,
      re,
      same,
      low,
      high,
      begins-is_blank s n.start,
      begins-edges cs n.start,
      ends-edges cs n.end_,
    )

-- The rule `bucket_name` accepts a string exactly when its characters are a name of a bucket: 3 to 63
-- lower-case letters, digits, hyphens, underscores and dots, the first and the last of them a letter or
-- a digit, with no two dots in a row, and not four numbers of one to three digits with dots between.
pub bucket_name_rule-IsBucketName :
    (s : String) → (bucket_name_rule (str s) ≡ none) ↔ IsBucketName (runes s)
bucket_name_rule-IsBucketName s = (rule-IsBucketName s, IsBucketName-rule s)
