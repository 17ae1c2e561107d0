-- ===== src/Tests/Views.antt =====
-- Requests and texts, run.
use ip_unt1_com.Prelude.{
  ◌≡◌, refl, true, false, [], ◌∷◌, Option, none, some, Text, bytes, text_eq, if◌then◌else◌,
}
use ip_unt1_com.Prelude.{text_instance}
use ip_unt1_com.Net.{Addr, v4}
use ip_unt1_com.Asn.{AsnInfo, no_asn}
use ip_unt1_com.Prelude.Int.{pos}
use ip_unt1_com.Index.{build_cidr_index}
use ip_unt1_com.Limit.{RateLimiter}
use ip_unt1_com.Vpn.{VpnSnapshot, check}
use ip_unt1_com.View.{target_ip, Request, inspect}
use ip_unt1_com.View.Requests.{IsFor, target_ip-IsFor, inspect-untrusted}
use ip_unt1_com.View.Words.{is_reversed, check-source}

-- A parser that knows one address.
abbrev parse_cloud : Text → Option Addr
parse_cloud [] = none
parse_cloud (c ∷ s) = some (v4 0x01010101)

abbrev quiet : RateLimiter
quiet = record { buckets = []; rate = 1; burst = 5; max = 10 }

target_ip-IsFor_example :
    IsFor quiet
      (v4 0x08080808)
      7
      []
      (target_ip parse_cloud quiet (v4 0x08080808) (bytes "8.8.8.8") 7 [] (bytes "1.1.1.1") [])
target_ip-IsFor_example =
    target_ip-IsFor parse_cloud quiet (v4 0x08080808) (bytes "8.8.8.8") 7 [] (bytes "1.1.1.1") []

abbrev plain : Request
plain = record { header = λ k. []; host = bytes "ip.unt1.com"; remote_addr = bytes "8.8.8.8:99" }

abbrev no_port : Text → Option Text
no_port s = none

-- A header that claims to come from Cloudflare.
abbrev forged : Text → Text
forged k = if text_eq k (bytes "CF-Connecting-IP") then bytes "1.1.1.1" else []

inspect-untrusted_example :
    inspect parse_cloud no_port false (record plain { header = forged })
    ≡ inspect parse_cloud no_port false plain
unfolding text_eq bytes
inspect-untrusted_example = inspect-untrusted parse_cloud no_port plain forged refl refl

abbrev rented : AsnInfo
rented = record no_asn { asn = pos 9009 }

abbrev loaded_lists : VpnSnapshot
loaded_lists = record {
  sources = [];
  ips = (v4 0x0a000002, bytes "ivpn") ∷ [];
  relays = [];
  ip_nets = [];
  cidrs = build_cidr_index [];
  ready = true;
}

check-source_example : is_reversed (check loaded_lists (v4 0x0a000002) rented).source ≡ false
check-source_example = check-source loaded_lists (v4 0x0a000002) rented
