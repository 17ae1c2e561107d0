-- ===== src/Vpn/Flags.antt =====
-- What each flag of a verdict says, of `Check` and of `Augment`.
use ip_unt1_com.Prelude.{
  ◌≡◌, inl, inr, Bool, true, false, not, ◌&&◌, ◌||◌, [], Option, none, some, Text, bytes, text_eq,
  if◌then◌else◌, is_empty, is_some, Bool-cases, Option-cases, arith, ◌∙◌, ap, lookup,
}
use ip_unt1_com.Net.{Addr, is_valid, canonical_ip}
use ip_unt1_com.Net.Equality.{addr_instance, prefix_instance}
use ip_unt1_com.Index.{lookup_ip}
use ip_unt1_com.Asn.{AsnInfo, is_zero}
use ip_unt1_com.Vpn.Networks.{AsnTier, datacenter_asn}
use ip_unt1_com.Vpn.{
  VpnVerdict, VpnSnapshot, no_verdict, net_prefix_for_ip, check_exact, check_near, check_cidr,
  check_asn, check, augment_rdns, augment_whois, augment,
}

-- The lists as predicates of a canonical address.
abbrev pub listed_as : VpnSnapshot → Addr → Option Text
listed_as snap ip = lookup ip snap.ips

abbrev pub is_tor : Option Text → Bool
is_tor none = false
is_tor (some p) = text_eq p (bytes "tor")

-- A neighbour of the published addresses of one provider.
abbrev pub near_one : VpnSnapshot → Addr → Bool
near_one snap ip = elim (net_prefix_for_ip ip) [
  | none ↦ false
  | some pfx ↦ elim (lookup pfx snap.ip_nets) [
    | none ↦ false
    | some provider ↦ not (text_eq provider (bytes "multi"))
  ]
]

abbrev pub in_egress : VpnSnapshot → Addr → Bool
in_egress snap ip = is_some (lookup_ip (some snap.cidrs) ip)

abbrev pub tier_of : AsnInfo → Option AsnTier
tier_of asn = if is_zero asn.asn then none else datacenter_asn asn.asn

abbrev pub rents_to_vpns : Option AsnTier → Bool
rents_to_vpns none = false
rents_to_vpns (some t) = t.rental

abbrev pub only_hosts : Option AsnTier → Bool
only_hosts none = false
only_hosts (some t) = not t.rental

-- The flags of a verdict.
abbrev pub Flags : Type 0
Flags = Bool × Bool × Bool × Bool

abbrev pub flags : VpnVerdict → Flags
flags v = (v.vpn, v.hosting, v.tor, v.privacy_proxy)

check_asn-flags :
    (asn : AsnInfo) (v : VpnVerdict)
    → flags (check_asn asn v) ≡ (
      v.vpn || rents_to_vpns (tier_of asn),
      v.hosting || only_hosts (tier_of asn),
      v.tor,
      v.privacy_proxy,
    )
unfolding check_asn
check_asn-flags asn v = ground arith

check_near-flags :
    (snap : VpnSnapshot) (ip : Addr) (ready : Bool)
    → flags (check_near snap ip (no_verdict ready)) ≡ (near_one snap ip, false, false, false)
unfolding check_near
check_near-flags snap ip ready = ground arith

check_cidr-flags :
    (snap : VpnSnapshot) (ip : Addr) (v : VpnVerdict)
    → flags (check_cidr snap ip v)
      ≡ (v.vpn || in_egress snap ip, v.hosting, v.tor, v.privacy_proxy || in_egress snap ip)
unfolding check_cidr
check_cidr-flags snap ip v = ground arith

check_exact-flags :
    (snap : VpnSnapshot) (ip : Addr) (provider : Text) (ready : Bool)
    → flags (check_exact snap ip provider (no_verdict ready))
      ≡ (true, false, is_tor (some provider), false)
unfolding check_exact
check_exact-flags snap ip provider ready = ground arith

-- The flags of `Check`, from the lists alone: VPN means a published address, or the neighbourhood
-- of one provider's addresses, or a published egress range, or a network that rents to VPNs; Tor
-- means that the address is listed as a Tor exit; a privacy proxy is an egress range that no
-- address list overrides; hosting means a datacenter network that does not rent to VPNs.
pub check-flags :
    (snap : VpnSnapshot) (addr : Addr) (asn : AsnInfo)
    → is_valid addr ≡ true
    → flags (check snap addr asn) ≡ (
      is_some (listed_as snap (canonical_ip addr))
          || (near_one snap (canonical_ip addr) || in_egress snap (canonical_ip addr))
          || rents_to_vpns (tier_of asn),
      only_hosts (tier_of asn),
      is_tor (listed_as snap (canonical_ip addr)),
      not (is_some (listed_as snap (canonical_ip addr))) && in_egress snap (canonical_ip addr),
    )
unfolding check
check-flags snap addr asn valid =
    let ip = canonical_ip addr in
    elim (Option-cases (lookup (canonical_ip addr) snap.ips)) [
      | inr (p, hit) ↦
          rw (valid, hit, check)
            (ground (
              arith,
              check_asn-flags asn (check_exact snap ip p (no_verdict snap.ready)),
              check_exact-flags snap ip p snap.ready,
            ))
      | inl miss ↦
          let near = check_near snap ip (no_verdict snap.ready) in
          rw (valid, miss, check)
            (ground (
              arith,
              check_asn-flags asn (check_cidr snap ip near),
              check_cidr-flags snap ip near,
              check_near-flags snap ip snap.ready,
            ))
    ]

-- An address that is listed as a Tor exit is reported as that, with no provider and no relay,
-- whatever the other lists say of it.
pub check_tor :
    (snap : VpnSnapshot) (addr : Addr) (asn : AsnInfo)
    → is_valid addr ≡ true
    → is_tor (listed_as snap (canonical_ip addr)) ≡ true
    → ((check snap addr asn).tor ≡ true)
      × ((check snap addr asn).provider ≡ [])
      × ((check snap addr asn).relay ≡ none)
      × ((check snap addr asn).privacy_proxy ≡ false)
unfolding check check_exact check_asn
check_tor snap addr asn valid tor = elim (Option-cases (lookup (canonical_ip addr) snap.ips)) [
  | inr (p, hit) ↦ rw (valid, hit, check) (ground arith)
  | inl miss ↦ absurd (ground arith)
]

check_asn-ready : (asn : AsnInfo) (v : VpnVerdict) → (check_asn asn v).ready ≡ v.ready
unfolding check_asn
check_asn-ready asn v = ground arith

check_near-ready :
    (snap : VpnSnapshot) (ip : Addr) (v : VpnVerdict) → (check_near snap ip v).ready ≡ v.ready
unfolding check_near
check_near-ready snap ip v = ground arith

check_cidr-ready :
    (snap : VpnSnapshot) (ip : Addr) (v : VpnVerdict) → (check_cidr snap ip v).ready ≡ v.ready
unfolding check_cidr
check_cidr-ready snap ip v = ground arith

check_exact-ready :
    (snap : VpnSnapshot) (ip : Addr) (provider : Text) (v : VpnVerdict)
    → (check_exact snap ip provider v).ready ≡ v.ready
unfolding check_exact
check_exact-ready snap ip provider v = ground arith

-- The verdict on every address, also an invalid one, says whether the lists were loaded.
pub check-ready :
    (snap : VpnSnapshot) (addr : Addr) (asn : AsnInfo) → (check snap addr asn).ready ≡ snap.ready
unfolding check
check-ready snap addr asn =
    let v = no_verdict snap.ready in
    let ip = canonical_ip addr in
    let near = check_near snap ip v in
    elim (Bool-cases (is_valid addr)) [
      | inr invalid ↦ rw (invalid, check)
      | inl valid ↦ elim (Option-cases (lookup (canonical_ip addr) snap.ips)) [
        | inr (p, hit) ↦
            rw (valid, hit, check)
              (check_asn-ready asn (check_exact snap ip p v) ∙ check_exact-ready snap ip p v)
        | inl miss ↦
            rw (valid, miss, check)
              (check_asn-ready asn (check_cidr snap ip near)
                ∙ check_cidr-ready snap ip near
                ∙ check_near-ready snap ip v)
      ]
    ]

-- What `Augment` leaves alone: it never takes the VPN flag back, a provider that is named stays
-- the provider, and the other flags are not touched.
pub augment_keeps :
    (v : VpnVerdict) (asn : AsnInfo) (rdns : Text) (whois : Option (Text → Text → Option Text))
    → ((v.vpn || (augment v asn rdns whois).vpn) ≡ (augment v asn rdns whois).vpn)
      × ((augment v asn rdns whois).provider
          ≡ (if is_empty v.provider then (augment v asn rdns whois).provider else v.provider))
      × ((augment v asn rdns whois).hosting ≡ v.hosting)
      × ((augment v asn rdns whois).tor ≡ v.tor)
      × ((augment v asn rdns whois).privacy_proxy ≡ v.privacy_proxy)
      × ((augment v asn rdns whois).ready ≡ v.ready)
unfolding augment augment_rdns augment_whois
augment_keeps v asn rdns whois = ground arith

augment_whois-gated :
    (v : VpnVerdict) (asn : AsnInfo) (whois other : Option (Text → Text → Option Text))
    → rents_to_vpns (tier_of asn) ≡ false
    → augment_whois v asn whois ≡ augment_whois v asn other
unfolding augment_whois
augment_whois-gated v asn whois other h = ground arith

if-same : (b : Bool) (v x y : VpnVerdict) → x ≡ y → (if b then v else x) ≡ (if b then v else y)
if-same b v x y h = ap (λ u. if b then v else u) h

-- WHOIS is consulted only for networks that rent to VPNs: of any other the verdict is the same
-- whatever WHOIS would answer.
pub augment_gated :
    (v : VpnVerdict) (asn : AsnInfo) (rdns : Text)
    (whois other : Option (Text → Text → Option Text))
    → rents_to_vpns (tier_of asn) ≡ false
    → augment v asn rdns whois ≡ augment v asn rdns other
unfolding augment
augment_gated v asn rdns whois other h =
    let seen = augment_rdns v rdns in
    if-same (v.tor || v.privacy_proxy) v _ _ (augment_whois-gated seen asn whois other h)
