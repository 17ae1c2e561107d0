-- ===== src/Tests/Lookups.antt =====
-- Look-ups through the caches, run.
use ip_unt1_com.Prelude.{
  ℕ, ◌+◌, ◌^◌, ◌*◌, ◌≡◌, refl, inr, [], ◌∷◌, Text, bytes, if◌then◌else◌, ltb, arith, insert, lookup,
  false, false,
}
use ip_unt1_com.Net.{Addr, v4, v6, canonical_ip, is_routable}
use ip_unt1_com.Cache.{TtlCache, get}
use ip_unt1_com.Cache.Alone.{Times}
use ip_unt1_com.Asn.{TxtAnswer, failed, texts}
use ip_unt1_com.Asn.Kept.{ttl_for, after_lookup, lookup_at}
use ip_unt1_com.Signals.{WhoisAnswer, refused, lines, query_whois}
use ip_unt1_com.Signals.Matches.{verdict_on, matches, query_whois-matches}
use ip_unt1_com.Signals.Kept
use ip_unt1_com.Strings.{to_lower, trim_space}

abbrev empty_cache {ℓ} : {V : Type ℓ} → TtlCache V
empty_cache = record { entries = []; inflight = []; max = 9 }

abbrev at : ℕ → Times
at n = record { entered = n; stored = n + 1; evicted = n + 2; order = [] }

-- The name service is down at first.
abbrev down : Text → TxtAnswer
down q = failed

abbrev up : Text → TxtAnswer
up q = texts (bytes "15169 | 8.8.8.0/24 | US | arin | 2023-12-28" ∷ [])

abbrev google : Addr
google = v4 0x08080808

-- The same address, mapped into IPv6.
abbrev mapped : Addr
mapped = v6 (0xffff * 2 ^ 32 + 0x08080808) []

-- The server at first refuses the connection.
abbrev refusing : Text → Text → WhoisAnswer
refusing server query = refused

abbrev answering : Text → Text → WhoisAnswer
answering server query = lines (bytes "OrgName: Mullvad VPN AB" ∷ []) false

abbrev neighbour : Addr
neighbour = v4 0x08080809

abbrev net : Text
net = bytes "8.8.8.0/24"

lookup_whois_again_example :
    Kept.lookup_at answering
      (Kept.after_lookup refusing empty_cache (at 5) google net (bytes "ARIN"))
      (at 70_000_000_000)
      neighbour
      net
      (bytes "arin ")
    ≡ Kept.shown (
        if ltb 70_000_000_000 (6 + Kept.ttl_for refusing (Kept.norm (bytes "ARIN")) google)
        then Kept.label_for refusing (Kept.norm (bytes "ARIN")) google
        else Kept.label_for answering (Kept.norm (bytes "ARIN")) neighbour)
unfolding canonical_ip is_routable get lookup insert bytes to_lower trim_space
lookup_whois_again_example =
    Kept.lookup_whois_again refusing answering empty_cache (at 5) (at 70_000_000_000) google
      neighbour net (bytes "ARIN") (bytes "arin ") refl refl refl refl (inr (omega arith))

query_whois-matches_example :
    query_whois answering (bytes "whois.arin.net") (bytes "8.8.8.8")
    ≡ verdict_on (matches (bytes "OrgName: Mullvad VPN AB" ∷ [])) false
query_whois-matches_example =
    query_whois-matches answering (bytes "whois.arin.net") (bytes "8.8.8.8")
      (bytes "OrgName: Mullvad VPN AB" ∷ []) false refl
