-- ===== src/Tests/Feeds.antt =====
-- Feeds and query names, run.
use ip_unt1_com.Prelude.{refl, ◌+◌, ◌^◌, ◌≡◌, Option, none, some, Text, bytes, [], ◌∷◌, arith}
use ip_unt1_com.Net.{Addr, v4}
use ip_unt1_com.Asn.{nibble_reverse_v6, parse_origin_txt}
use ip_unt1_com.Prelude.Int.{pos}
use ip_unt1_com.Strings.{trim_space, trim, trim_left, is_space}
use ip_unt1_com.Asn.Origin.{write_origin, parse_origin_txt-write_origin}
use ip_unt1_com.Asn.Query.{read_nibbles, read_nibbles-nibble_reverse_v6}
use ip_unt1_com.Relay.{
  MullvadRelay, IvpnDoc, fetch_mullvad, fetch_nordvpn, fetch_ivpn, fetch_airvpn,
}
use ip_unt1_com.Relay.Feeds.{AllListed, feeds-IsRelay}

-- A parser that knows one address.
abbrev parse_one : Text → Option Addr
parse_one [] = none
parse_one (c ∷ s) = some (v4 0x01010101)

abbrev one_relay : MullvadRelay
one_relay = record {
  hostname = bytes "se-sto-1";
  city = bytes "Stockholm";
  country = bytes "se";
  provider = bytes "31173";
  ipv4 = bytes "1.1.1.1";
  ipv6 = [];
}

abbrev no_doc : IvpnDoc
no_doc = record { wireguard = []; openvpn = [] }

feeds-IsRelay_example :
    AllListed parse_one (fetch_mullvad parse_one (some (one_relay ∷ [])))
    × AllListed parse_one (fetch_nordvpn parse_one (some []))
    × AllListed parse_one (fetch_ivpn parse_one (some no_doc))
    × AllListed parse_one (fetch_airvpn parse_one (some []))
feeds-IsRelay_example = feeds-IsRelay parse_one (one_relay ∷ []) [] no_doc []

read_nibbles-nibble_reverse_v6_example :
    read_nibbles (nibble_reverse_v6 (2 ^ 125 + 7)) ≡ 2 ^ 125 + 7
read_nibbles-nibble_reverse_v6_example = read_nibbles-nibble_reverse_v6 (2 ^ 125 + 7) (omega arith)

abbrev prefix : Text
prefix = bytes "1.1.1.0/24"

abbrev date : Text
date = bytes "2011-08-11"

parse_origin_txt-write_origin_example :
    parse_origin_txt (write_origin 13335 prefix (bytes "AU") (bytes "apnic") date) ≡ record {
      asn = pos 13335;
      org = [];
      prefix = prefix;
      rir = bytes "apnic";
      allocated = date;
      country = bytes "AU";
    }
unfolding bytes trim_space trim trim_left is_space
parse_origin_txt-write_origin_example =
    parse_origin_txt-write_origin 13335 prefix (bytes "AU") (bytes "apnic") date (omega arith)
      (record { whole = refl; trimmed = refl }) (record { whole = refl; trimmed = refl })
      (record { whole = refl; trimmed = refl }) (record { whole = refl; trimmed = refl })
