-- ===== src/Rules/Examples.antt =====
-- pkg/validation/config.go: the rules on some values.
use caddy_fs_gcs.Base.{◌≡◌, ◌≤◌, ◌↔◌, refl, none, some, arith, pos}
use caddy_fs_gcs.Health.{decimal}
use caddy_fs_gcs.Regex.{runes, nullable, step, matches, match_string}
use caddy_fs_gcs.Texts.{
  is_blank, byte_length, begins, ends, double_dot, scan_int, scan_signed, scan_unsigned,
  front_digits, lowers_to,
}
use caddy_fs_gcs.Rules.{
  str, int, bucket_length, bucket_characters, bucket_dots, bucket_ip, bucket_name_rule,
  bucket_name_chars_re, ip_address_re, email_rule, pattern_email, port_rule, port_range,
  boolean_rule,
}
use caddy_fs_gcs.Rules.Buckets.{IsBucketName, bucket_name_rule-IsBucketName}
use caddy_fs_gcs.Rules.Numbers.{number_of, IsPort, port_rule-IsPort, port_rule-decimal}

short_name : bucket_name_rule (str "ab") ≡ some (bucket_length 2)
unfolding bucket_name_rule is_blank byte_length
short_name = refl

upper_name : bucket_name_rule (str "Bucket") ≡ some bucket_characters
unfolding bucket_name_rule is_blank byte_length match_string matches nullable step runes
    bucket_name_chars_re
upper_name = refl

dotted_name : bucket_name_rule (str "a..b") ≡ some bucket_dots
unfolding bucket_name_rule is_blank byte_length match_string matches nullable step runes
    bucket_name_chars_re begins ends double_dot
dotted_name = refl

address_name : bucket_name_rule (str "10.0.0.1") ≡ some bucket_ip
unfolding bucket_name_rule is_blank byte_length match_string matches nullable step runes
    bucket_name_chars_re begins ends double_dot ip_address_re
address_name = refl

good_name : bucket_name_rule (str "my-bucket.01") ≡ none
unfolding bucket_name_rule is_blank byte_length match_string matches nullable step runes
    bucket_name_chars_re begins ends double_dot ip_address_re
good_name = refl

good_email : email_rule (str "a.b+c@example.com") ≡ none
unfolding email_rule match_string matches nullable step runes pattern_email
good_email = refl

trailing_text : port_rule (str " 8080/tcp") ≡ none
unfolding port_rule scan_int scan_signed scan_unsigned front_digits
trailing_text = refl

large_port : port_rule (int (pos 65536)) ≡ some (port_range (pos 65536))
unfolding port_rule
large_port = refl

mixed_case : boolean_rule (str "TruE") ≡ none
unfolding boolean_rule lowers_to
mixed_case = refl

bucket_name_rule-IsBucketName_example :
    (bucket_name_rule (str "my-bucket.01") ≡ none) ↔ IsBucketName (runes "my-bucket.01")
bucket_name_rule-IsBucketName_example = bucket_name_rule-IsBucketName "my-bucket.01"

accepts_8080 : (port_rule (str "8080") ≡ none) ↔ IsPort (number_of (str "8080"))
accepts_8080 = port_rule-IsPort (str "8080")

port_443 : (port_rule (str (decimal 443)) ≡ none) ↔ ((1 ≤ 443) × (443 ≤ 65535))
port_443 = port_rule-decimal 443 (omega arith)
