-- ===== src/Vpn.antt =====
-- vpn.go: the verdict on an address. `check` reads a snapshot of the lists (Snapshot builds it);
-- `augment` adds what reverse DNS and WHOIS say.
pub mod Networks
pub mod Source
pub mod Flags
use ip_unt1_com.Prelude.{
  ℕ, Bool, true, false, not, ◌&&◌, ◌||◌, List, [], ◌∷◌, ◌++◌, Option, none, some, Text, bytes,
  text_eq, if◌then◌else◌, is_empty, Map, lookup, nat_instance, any,
}
use ip_unt1_com.Prelude.Int.{ℤ, pos, negsuc}
use ip_unt1_com.Strings.{split}
use ip_unt1_com.Net.{Addr, Prefix, is_valid, is_6, canonical_ip, addr_prefix, masked}
use ip_unt1_com.Net.Show.{show_prefix}
use ip_unt1_com.Net.Equality.{addr_instance, prefix_instance}
use ip_unt1_com.Index.{CidrIndex, lookup_ip}
use ip_unt1_com.Asn.{AsnInfo, itoa_ℤ, is_zero}
use ip_unt1_com.Relay.{RelayInfo, label}
use ip_unt1_com.Vpn.Networks.{AsnTier, datacenter_asn}
use ip_unt1_com.Signals.{check_rdns_hostname}

pub record VpnVerdict : Type 0 where
  pub vpn : Bool
  pub hosting : Bool
  pub tor : Bool
  pub privacy_proxy : Bool
  pub provider : Text
  pub network : Text
  pub relay : Option RelayInfo
  pub reasons : List Text
  pub source : Text
  pub ready : Bool

-- One feed's last good payload; `fetched` is a time.
pub record SourceData : Type 0 where
  pub relays : List RelayInfo
  pub addrs : List Addr
  pub cidrs : List Prefix
  pub fetched : ℕ

abbrev pub source_is_empty : SourceData → Bool
source_is_empty s = is_empty s.relays && is_empty s.addrs && is_empty s.cidrs

pub record VpnSnapshot : Type 0 where
  pub sources : Map Text SourceData
  pub ips : Map Addr Text
  pub relays : Map Addr RelayInfo
  pub ip_nets : Map Prefix Text
  pub cidrs : CidrIndex
  pub ready : Bool

-- `netPrefixForIP`.
unfoldable pub net_prefix_for_ip : Addr → Option Prefix
net_prefix_for_ip addr =
    let ip = canonical_ip addr in
    elim (addr_prefix ip (if is_6 ip then 64 else 24)) [ none ↦ none | some p ↦ some (masked p) ]

-- `appendSource`.
unfoldable pub append_source : Text → Text → Text
append_source s more =
    if is_empty s
    then more
    else if any (λ p. text_eq p more) (split s b'+')
    then s
    else s ++ b'+' ∷ more

abbrev pub no_verdict : Bool → VpnVerdict
no_verdict ready = record {
  vpn = false;
  hosting = false;
  tor = false;
  privacy_proxy = false;
  provider = [];
  network = [];
  relay = none;
  reasons = [];
  source = [];
  ready = ready;
}

abbrev relay_reasons : Option RelayInfo → List Text
relay_reasons none = []
relay_reasons (some r) = (bytes "relay " ++ label (some r)) ∷ []

-- The branch of `Check` on an address of a server list.
unfoldable pub check_exact : VpnSnapshot → Addr → Text → VpnVerdict → VpnVerdict
check_exact snap ip provider v =
    let rel = lookup ip snap.relays in
    if text_eq provider (bytes "tor")
    then record v {
      vpn = true;
      tor = true;
      provider = [];
      relay = none;
      reasons = bytes "matched Tor exit relay list" ∷ [];
      source = bytes "ip-list";
    }
    else record v {
      vpn = true;
      provider = provider;
      relay = rel;
      reasons =
          v.reasons
          ++ (bytes "matched " ++ provider ++ bytes " published server IP") ∷ relay_reasons rel;
      source = bytes "ip-list";
    }

-- The branch on an address near a published one.
unfoldable pub check_near : VpnSnapshot → Addr → VpnVerdict → VpnVerdict
check_near snap ip v = elim (net_prefix_for_ip ip) [
  | none ↦ v
  | some pfx ↦ elim (lookup pfx snap.ip_nets) [
    | none ↦ v
    | some provider ↦ if text_eq provider (bytes "multi") then v else record v {
      vpn = true;
      provider = provider;
      reasons =
          v.reasons
          ++ (bytes "in published " ++ provider ++ bytes " prefix " ++ show_prefix pfx) ∷ [];
      source = bytes "ip-prefix";
    }
  ]
]

-- The published egress ranges.
unfoldable pub check_cidr : VpnSnapshot → Addr → VpnVerdict → VpnVerdict
check_cidr snap ip v = elim (lookup_ip (some snap.cidrs) ip) [
  | none ↦ v
  | some provider ↦ record v {
    vpn = true;
    privacy_proxy = true;
    provider = provider;
    reasons = v.reasons ++ (bytes "matched " ++ provider ++ bytes " published egress range") ∷ [];
    source = append_source v.source (bytes "cidr");
  }
]

abbrev asn_reason : AsnInfo → AsnTier → Text → Text
asn_reason asn tier end = bytes "ASN AS" ++ itoa_ℤ asn.asn ++ bytes " (" ++ tier.label ++ end

-- The autonomous system.
unfoldable pub check_asn : AsnInfo → VpnVerdict → VpnVerdict
check_asn asn v = elim (datacenter_asn asn.asn) [
  | none ↦ v
  | some tier ↦
      if is_zero asn.asn
      then v
      else if tier.rental
      then record v {
        network = tier.label;
        vpn = true;
        source = append_source v.source (bytes "asn");
        reasons =
            v.reasons ++ asn_reason asn tier (bytes ") is a known hosting/VPN-rental network") ∷ [];
      }
      else record v {
        network = tier.label;
        hosting = true;
        source = append_source v.source (bytes "asn-hosting");
        reasons =
            v.reasons
            ++ asn_reason asn tier (bytes ") is a datacenter network, not a residential ISP") ∷ [];
      }
]

-- `Check`.
unfoldable pub check : VpnSnapshot → Addr → AsnInfo → VpnVerdict
check snap addr asn =
    let v = no_verdict snap.ready in
    let ip = canonical_ip addr in
    let listed : VpnVerdict = elim (lookup ip snap.ips) [
      | some provider ↦ check_exact snap ip provider v
      | none ↦ check_cidr snap ip (check_near snap ip v)
    ] in
    if not (is_valid addr) then v else check_asn asn listed

-- The reverse DNS part of `Augment`.
unfoldable pub augment_rdns : VpnVerdict → Text → VpnVerdict
augment_rdns v rdns = elim (check_rdns_hostname rdns) [
  | none ↦ v
  | some label ↦ record v {
    vpn = true;
    provider = if is_empty v.provider then label else v.provider;
    source = append_source v.source (bytes "rdns");
    reasons = v.reasons ++ (bytes "rDNS " ++ rdns ++ bytes " matches " ++ label) ∷ [];
  }
]

-- The WHOIS part; the look-up is an argument, absent for a nil cache.
unfoldable pub augment_whois :
    VpnVerdict → AsnInfo → Option (Text → Text → Option Text) → VpnVerdict
augment_whois v asn none = v
augment_whois v asn (some whois) =
    if not (is_empty v.provider) || is_zero asn.asn then v else elim (datacenter_asn asn.asn) [
      | none ↦ v
      | some tier ↦ if not tier.rental then v else elim (whois asn.prefix asn.rir) [
        | none ↦ v
        | some label ↦ record v {
          provider = label;
          vpn = true;
          source = append_source v.source (bytes "whois");
          reasons = v.reasons ++ (bytes "WHOIS identifies " ++ label) ∷ [];
        }
      ]
    ]

-- `Augment`, of an address whose WHOIS look-up is given.
unfoldable pub augment :
    VpnVerdict → AsnInfo → Text → Option (Text → Text → Option Text) → VpnVerdict
augment v asn rdns whois =
    if v.tor || v.privacy_proxy then v else augment_whois (augment_rdns v rdns) asn whois

-- `LookupRelay`.
unfoldable pub lookup_relay : VpnSnapshot → Addr → Option RelayInfo
lookup_relay snap ip = lookup (canonical_ip ip) snap.relays
