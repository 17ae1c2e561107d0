-- ===== src/Tests/Runs.antt =====
-- What the definitions compute on inputs of the program's own tests and comments.
use ip_unt1_com.Prelude.{◌≡◌, refl, true, false, List, [], ◌∷◌, none, bytes, text_eq}
use ip_unt1_com.Prelude.Int.{pos}
use ip_unt1_com.Strings.{split, trim_space, trim, trim_left, is_space, digits_value}
use ip_unt1_com.Net.{v4, v6, canonical_ip, is_routable, reserved_prefixes, prefix_contains}
use ip_unt1_com.Index.{IpRange, sort_merge, lookup_ranges}
use ip_unt1_com.Asn.{parse_origin_txt, of_parts, atoi}
use ip_unt1_com.Vpn.{append_source}
use ip_unt1_com.View.{split_top_level, split_from, truncate}

program : Unit {0}
unfolding bytes text_eq split trim_space trim trim_left is_space digits_value canonical_ip
    is_routable reserved_prefixes prefix_contains parse_origin_txt of_parts atoi append_source
    split_top_level split_from truncate
program = tt

append_source_again : append_source (bytes "ip-list+asn") (bytes "asn") ≡ bytes "ip-list+asn"
unfolding program
append_source_again = refl

split_top_level_quoted :
    split_top_level (bytes "\"a,b\";v=1,c") b',' ≡ bytes "\"a,b\";v=1" ∷ bytes "c" ∷ []
unfolding program
split_top_level_quoted = refl

canonical_ip_mapped : canonical_ip (v6 0xffff01010101 (bytes "eth0")) ≡ v4 0x01010101
unfolding program
canonical_ip_mapped = refl

is_routable_test_net : is_routable (v4 0xcb007105) ≡ false
unfolding program
is_routable_test_net = refl

is_routable_public : is_routable (v4 0x01010101) ≡ true
unfolding program
is_routable_public = refl

parse_origin_txt_cymru :
    parse_origin_txt (bytes "13335 | 1.1.1.0/24 | AU | apnic | 2011-08-11") ≡ record {
      asn = pos 13335;
      org = [];
      prefix = bytes "1.1.1.0/24";
      rir = bytes "apnic";
      allocated = bytes "2011-08-11";
      country = bytes "AU";
    }
unfolding program
parse_origin_txt_cymru = refl

-- Ranges of two providers that overlap: behind the narrow one the wide one is not found.
abbrev overlapping : List IpRange
overlapping =
    record { first = 0; last = 100; provider = bytes "wide" }
    ∷ record { first = 10; last = 20; provider = bytes "narrow" }
    ∷ []

lookup_ranges-overlapping : lookup_ranges (sort_merge 32 overlapping) 30 ≡ none
unfolding bytes text_eq sort_merge lookup_ranges
lookup_ranges-overlapping = refl
