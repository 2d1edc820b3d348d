-- ===== src/Net/Clients.antt =====
-- Clients for the tests of the endpoints.
use text.Mathlib.Text.{◌==◌ as text_eq}
use caddy_fs_gcs.Base.{
  ◌≡◌, refl, ℕ, String, List, [], ◌∷◌, Bool, true, false, Option, none, some, if◌then◌else◌, ◌==◌,
}
use caddy_fs_gcs.Net.{Remote, host, is_loopback}

-- An address of a table with a local one and another one.
unfoldable pub split : String → Option (String × String)
split s =
    if text_eq s "127.0.0.1:4000"
    then some ("127.0.0.1", "4000")
    else if text_eq s "10.0.0.7:4000"
    then some ("10.0.0.7", "4000")
    else none

unfoldable pub parse : String → Option (List ℕ)
parse s =
    if text_eq s "127.0.0.1"
    then some (127 ∷ 0 ∷ 0 ∷ 1 ∷ [])
    else if text_eq s "10.0.0.7"
    then some (10 ∷ 0 ∷ 0 ∷ 7 ∷ [])
    else none

unfoldable pub starts_127 : List ℕ → Bool
starts_127 [] = false
starts_127 (b ∷ bs) = b == 127

abbrev pub client : String → Remote
client addr = record {
  addr = addr;
  split_host_port = split;
  parse_ip = parse;
  is_loopback_ip = starts_127;
}

-- A client on the loopback interface, or another one.
abbrev pub client_if : Bool → Remote
client_if b = client (if b then "127.0.0.1:4000" else "10.0.0.7:4000")

pub client_if-is_loopback : (b : Bool) → is_loopback (client_if b) ≡ b
unfolding is_loopback host split parse starts_127
client_if-is_loopback true = refl
client_if-is_loopback false = refl

-- An address without a port is parsed as it is, and one that is none is not local.
bare_address : is_loopback (client "127.0.0.1") ≡ true
unfolding is_loopback host split parse starts_127
bare_address = refl

no_address : is_loopback (client "pipe") ≡ false
unfolding is_loopback host split parse starts_127
no_address = refl
