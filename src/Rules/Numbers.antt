-- ===== src/Rules/Numbers.antt =====
-- pkg/validation/config.go: the rules for numbers.
use Prim.Native.Char.{Char, code}
use Prim.Native.String
use text.Mathlib.TextLemmas.{nil-append, cons-append}
use caddy_fs_gcs.Base.{
  ℕ, zero, suc, ◌+◌, ◌-◌, ◌*◌, ◌/◌, ◌%◌, ◌^◌, ◌≤◌, ◌<◌, ◌≡◌, refl, ◌↔◌, inl, inr, String, Bool,
  true, false, ◌&&◌, Option, none, some, Bool-cases, arith, ltb, ℤ, pos, negsuc, is_digit,
}
use caddy_fs_gcs.Health.{digit, digits, decimal}
use caddy_fs_gcs.Texts.{front_digits, scan_unsigned, scan_signed, scan_int}
use caddy_fs_gcs.Rules.{
  Value, null, str, int, int64, boolean, duration, other, invalid_port, unless_none, check_port,
  port_rule,
}

unfoldable all_digits : String → Bool
all_digits String.[] = true
all_digits (String.◌∷◌ c s) = is_digit c && all_digits s

module _ (d : Char) (is : is_digit d ≡ true) where
  all_digits-append :
      (s : String) → all_digits s ≡ true → all_digits (String.◌++◌ s (String.◌∷◌ d "")) ≡ true
  unfolding all_digits
  all_digits-append String.[] h = rw nil-append (ground (arith, is))
  all_digits-append (String.◌∷◌ c s) h = rw cons-append (ground (arith, h, all_digits-append s))

  front_digits-append :
      (s : String) (n : ℕ)
      → all_digits s ≡ true
      → front_digits n (String.◌++◌ s (String.◌∷◌ d "")) ≡ front_digits n s * 10 + (code d - b'0')
  unfolding all_digits front_digits
  front_digits-append String.[] n h = rw nil-append (ground (arith, is))
  front_digits-append (String.◌∷◌ c s) n h =
      rw cons-append (ground (arith, h, front_digits-append s (n * 10 + (code c - b'0'))))

-- The digit of a number.
record DigitOf (n : ℕ) : Type 0 where
  char : Char
  text_of : digit n ≡ String.◌∷◌ char ""
  is : is_digit char ≡ true
  value : code char ≡ b'0' + n

digit-DigitOf : (n : ℕ) → n < 10 → DigitOf n
digit-DigitOf zero h = record { char = "0"; text_of = refl; is = refl; value = refl }
digit-DigitOf (suc zero) h = record { char = "1"; text_of = refl; is = refl; value = refl }
digit-DigitOf (suc (suc zero)) h = record { char = "2"; text_of = refl; is = refl; value = refl }
digit-DigitOf (suc (suc (suc zero))) h = record {
  char = "3";
  text_of = refl;
  is = refl;
  value = refl;
}
digit-DigitOf (suc (suc (suc (suc zero)))) h = record {
  char = "4";
  text_of = refl;
  is = refl;
  value = refl;
}
digit-DigitOf (suc (suc (suc (suc (suc zero))))) h = record {
  char = "5";
  text_of = refl;
  is = refl;
  value = refl;
}
digit-DigitOf (suc (suc (suc (suc (suc (suc zero)))))) h = record {
  char = "6";
  text_of = refl;
  is = refl;
  value = refl;
}
digit-DigitOf (suc (suc (suc (suc (suc (suc (suc zero))))))) h = record {
  char = "7";
  text_of = refl;
  is = refl;
  value = refl;
}
digit-DigitOf (suc (suc (suc (suc (suc (suc (suc (suc zero)))))))) h = record {
  char = "8";
  text_of = refl;
  is = refl;
  value = refl;
}
digit-DigitOf (suc (suc (suc (suc (suc (suc (suc (suc (suc zero))))))))) h = record {
  char = "9";
  text_of = refl;
  is = refl;
  value = refl;
}
digit-DigitOf (suc (suc (suc (suc (suc (suc (suc (suc (suc (suc n)))))))))) h = absurd (omega arith)

unfoldable has_char : String → Bool
has_char String.[] = false
has_char (String.◌∷◌ c s) = true

append-has_char : (s : String) (d : Char) → has_char (String.◌++◌ s (String.◌∷◌ d "")) ≡ true
unfolding has_char
append-has_char String.[] d = rw nil-append refl
append-has_char (String.◌∷◌ c s) d = rw cons-append refl

-- A text of digits, at least one, that reads as `n`.
abbrev Reads : ℕ → String → Type 0
Reads n s = (has_char s ≡ true) × (all_digits s ≡ true) × (front_digits 0 s ≡ n)

digits-Reads : (fuel n : ℕ) → n < fuel → Reads n (digits fuel n)
unfolding digits has_char all_digits front_digits
digits-Reads zero n h = absurd (omega arith)
digits-Reads (suc fuel) n h = elim (Bool-cases (ltb n 10)) [
  | inl small ↦
      let d = digit-DigitOf n (ground (arith, small)) in
      rw (small, d.text_of) (refl, ground (arith, d.is), ground (arith, d.is, d.value))
  | inr large ↦
      let d = digit-DigitOf (n % 10) (omega arith) in
      let front = digits-Reads fuel (n / 10) (ground (arith, large, h)) in
      rw (large, d.text_of)
        (
          append-has_char _ d.char,
          all_digits-append d.char d.is _ front.1,
          rw (front_digits-append d.char d.is _ 0 front.1, front.2, d.value) (omega arith),
        )
]

Reads-scan_int : (s : String) (n : ℕ) → n < 2 ^ 63 → Reads n s → scan_int s ≡ some (pos n)
unfolding scan_int scan_signed scan_unsigned has_char all_digits
Reads-scan_int String.[] n h (some_, all_, value) = absurd (ground (arith, some_))
Reads-scan_int (String.◌∷◌ c s) n h (some_, all_, value) = rw value (ground (arith, all_, h))

-- A number that is written in decimal is read back.
scan_int-decimal : (n : ℕ) → n < 2 ^ 63 → scan_int (decimal n) ≡ some (pos n)
scan_int-decimal n h = Reads-scan_int (decimal n) n h (digits-Reads (suc n) n (omega arith))

-- The number that a value stands for.
abbrev pub number_of : Value → Option ℤ
number_of (int z) = some z
number_of (int64 z) = some z
number_of (str s) = scan_int s
number_of value = none

abbrev pub IsPort : Option ℤ → Type 0
IsPort (some (pos n)) = (1 ≤ n) × (n ≤ 65535)
IsPort (some (negsuc n)) = ⊥
IsPort none = ⊥

check-IsPort : (m : Option ℤ) → (unless_none invalid_port check_port m ≡ none) ↔ IsPort m
check-IsPort none = (λ h. cc, λ p. absurd p)
check-IsPort (some (pos n)) =
    (λ h. (ground (arith, h), ground (arith, h)), λ (l, u). ground (arith, l, u))
check-IsPort (some (negsuc n)) = (λ h. cc, λ p. absurd p)

-- The rule `port` accepts a value exactly when it is an `int`, an `int64` or a text from which
-- `Sscanf` reads an integer, and that number lies between 1 and 65535.
pub port_rule-IsPort : (value : Value) → (port_rule value ≡ none) ↔ IsPort (number_of value)
unfolding port_rule
port_rule-IsPort null = (λ h. cc, λ p. absurd p)
port_rule-IsPort (str s) = check-IsPort (scan_int s)
port_rule-IsPort (int z) = check-IsPort (some z)
port_rule-IsPort (int64 z) = check-IsPort (some z)
port_rule-IsPort (boolean b) = (λ h. cc, λ p. absurd p)
port_rule-IsPort (duration d) = (λ h. cc, λ p. absurd p)
port_rule-IsPort other = (λ h. cc, λ p. absurd p)

-- A number below 2^63 that is written in decimal is accepted as a port exactly when it lies between 1 and 65535.
pub port_rule-decimal :
    (n : ℕ) → n < 2 ^ 63 → (port_rule (str (decimal n)) ≡ none) ↔ ((1 ≤ n) × (n ≤ 65535))
port_rule-decimal n h = rw (scan_int-decimal n h) at (port_rule-IsPort (str (decimal n)))
