-- ===== src/Relay/Feeds.antt =====
-- What every feed guarantees of its relays.
use ip_unt1_com.Prelude.{
  ◌≡◌, refl, Bool, true, false, not, List, [], ◌∷◌, ◌++◌, Option, none, some, Text, if◌then◌else◌,
  is_empty, map, filter, All, All-append, Bool-cases, Option-cases, inl, inr, arith, ◌∙◌, sym,
}
use ip_unt1_com.Strings.{trim_space}
use ip_unt1_com.Net.{Addr, is_4, zone, is_4in6, canonical_ip}
use ip_unt1_com.Net.Canonical.{canonical_ip-IsCanonical}
use ip_unt1_com.Net.Show.{show_addr, nonempty-show_addr}
use ip_unt1_com.Relay.{
  RelayInfo, new_relay, add_canonical, add_relay_addr, add_relay_addrs, has_addrs, mullvad_relay,
  fetch_mullvad, located, nordvpn_relay, fetch_nordvpn, ivpn_relay, ivpn_groups, fetch_ivpn,
  airvpn_relay, fetch_airvpn, NordLocation, IvpnGroup, MullvadRelay, NordServer, IvpnDoc, AirServer,
}

abbrev pub IsCanonical : Addr → Type 0
IsCanonical a = (zone a ≡ []) × (is_4in6 a ≡ false)

-- The first address of a family, as text.
abbrev pub first_shown : (Addr → Bool) → List Addr → Text
first_shown p [] = []
first_shown p (a ∷ xs) = if p a then show_addr a else first_shown p xs

-- A relay's addresses are canonical, and its two endpoints are its first addresses by family.
pub record IsRelay (r : RelayInfo) : Type 0 where
  pub canonical : All IsCanonical r.addrs
  pub endpoint4 : r.pop_v4 ≡ first_shown is_4 r.addrs
  pub endpoint6 : r.pop_v6 ≡ first_shown (λ a. not (is_4 a)) r.addrs

first_shown-append :
    (p : Addr → Bool) (xs : List Addr) (a : Addr)
    → first_shown p (xs ++ a ∷ []) ≡ (
        if p a
        then if is_empty (first_shown p xs) then show_addr a else first_shown p xs
        else first_shown p xs)
first_shown-append p [] a = ground arith
first_shown-append p (b ∷ xs) a = ground (arith, first_shown-append p xs a, nonempty-show_addr b)

add_canonical-IsRelay :
    (r : RelayInfo) (a : Addr) → IsRelay r → IsCanonical a → IsRelay (add_canonical r a)
unfolding add_canonical
add_canonical-IsRelay r a h c =
    let f4 = first_shown-append is_4 r.addrs a in
    let f6 = first_shown-append (λ b. not (is_4 b)) r.addrs a in
    let all = All-append IsCanonical r.addrs (a ∷ []) h.canonical (c, tt) in
    elim (Bool-cases (is_4 a)) [
      | inl four ↦ rw four (record {
        canonical = all;
        endpoint4 = rw h.endpoint4 (sym (f4 ∙ rw four));
        endpoint6 = h.endpoint6 ∙ sym (f6 ∙ rw four);
      })
      | inr six ↦ rw six (record {
        canonical = all;
        endpoint4 = h.endpoint4 ∙ sym (f4 ∙ rw six);
        endpoint6 = rw h.endpoint6 (sym (f6 ∙ rw six));
      })
    ]

new_relay-IsRelay : (p n c cc' h : Text) → IsRelay (new_relay p n c cc' h)
new_relay-IsRelay p n c cc' h = record { canonical = tt; endpoint4 = refl; endpoint6 = refl }

All-filter-map {ℓ} :
    {A : Type ℓ} (f : A → RelayInfo) (p : RelayInfo → Bool) (xs : List A)
    → ((x : A) → IsRelay (f x))
    → All (λ r. IsRelay r × (p r ≡ true)) (filter p (map f xs))
All-filter-map f p [] h = tt
All-filter-map f p (x ∷ xs) h = elim (Bool-cases (p (f x))) [
  | inl kept ↦ rw kept ((h x, kept), All-filter-map f p xs h)
  | inr left ↦ rw left (All-filter-map f p xs h)
]

module _ (parse_addr : Text → Option Addr) where
  add_relay_addr-IsRelay :
      (r : RelayInfo) (s : Text) → IsRelay r → IsRelay (add_relay_addr parse_addr r s)
  unfolding add_relay_addr
  add_relay_addr-IsRelay r s h = elim (Option-cases (parse_addr (trim_space s))) [
    | inl bad ↦ rw (bad, add_relay_addr) h
    | inr (a, good) ↦
        rw (good, add_relay_addr)
          (add_canonical-IsRelay r (canonical_ip a) h (canonical_ip-IsCanonical a))
  ]

  add_relay_addrs-IsRelay :
      (r : RelayInfo) (ss : List Text) → IsRelay r → IsRelay (add_relay_addrs parse_addr r ss)
  unfolding add_relay_addrs
  add_relay_addrs-IsRelay r [] h = h
  add_relay_addrs-IsRelay r (s ∷ ss) h =
      add_relay_addrs-IsRelay (add_relay_addr parse_addr r s) ss (add_relay_addr-IsRelay r s h)

  add_two-IsRelay :
      (r : RelayInfo) (s t : Text)
      → IsRelay r
      → IsRelay (add_relay_addr parse_addr (add_relay_addr parse_addr r s) t)
  add_two-IsRelay r s t h = add_relay_addr-IsRelay _ t (add_relay_addr-IsRelay r s h)

  located-IsRelay : (n : Text) (ls : List NordLocation) → IsRelay (located n ls)
  located-IsRelay n [] = new_relay-IsRelay _ _ _ _ _
  located-IsRelay n (l ∷ ls) = new_relay-IsRelay _ _ _ _ _

  mullvad-IsRelay : (r : MullvadRelay) → IsRelay (mullvad_relay parse_addr r)
  unfolding mullvad_relay
  mullvad-IsRelay r = add_two-IsRelay _ r.ipv4 r.ipv6 (new_relay-IsRelay _ _ _ _ _)

  nordvpn-IsRelay : (s : NordServer) → IsRelay (nordvpn_relay parse_addr s)
  unfolding nordvpn_relay
  nordvpn-IsRelay s =
      add_two-IsRelay _ s.station s.ipv6_station (located-IsRelay s.hostname s.locations)

  airvpn-IsRelay : (s : AirServer) → IsRelay (airvpn_relay parse_addr s)
  unfolding airvpn_relay
  airvpn-IsRelay s =
      add_relay_addrs-IsRelay _ _ (add_relay_addrs-IsRelay _ _ (new_relay-IsRelay _ _ _ _ _))

  abbrev pub IsListed : RelayInfo → Type 0
  IsListed r = IsRelay r × (has_addrs r ≡ true)

  ivpn_groups-All : (gs : List IvpnGroup) → All IsListed (ivpn_groups parse_addr gs)
  unfolding ivpn_groups ivpn_relay
  ivpn_groups-All [] = tt
  ivpn_groups-All (g ∷ gs) =
      All-append IsListed _ _
        (All-filter-map (ivpn_relay parse_addr g) has_addrs g.hosts
          (λ h. add_relay_addr-IsRelay _ h.host (new_relay-IsRelay _ _ _ _ _)))
        (ivpn_groups-All gs)

  abbrev pub AllListed : Option (List RelayInfo) → Type 0
  AllListed none = Unit
  AllListed (some rs) = All IsListed rs

  -- Every relay of every provider's feed has an address, its addresses are in canonical form, and
  -- its two endpoints are the first of its addresses in each family, empty where there is none.
  pub feeds-IsRelay :
      (m : List MullvadRelay) (n : List NordServer) (i : IvpnDoc) (a : List AirServer)
      → AllListed (fetch_mullvad parse_addr (some m))
        × AllListed (fetch_nordvpn parse_addr (some n))
        × AllListed (fetch_ivpn parse_addr (some i))
        × AllListed (fetch_airvpn parse_addr (some a))
  unfolding fetch_mullvad fetch_nordvpn fetch_ivpn fetch_airvpn
  feeds-IsRelay m n i a = (
    All-filter-map (mullvad_relay parse_addr) has_addrs m mullvad-IsRelay,
    All-filter-map (nordvpn_relay parse_addr) has_addrs n nordvpn-IsRelay,
    All-append IsListed _ _ (ivpn_groups-All i.wireguard) (ivpn_groups-All i.openvpn),
    All-filter-map (airvpn_relay parse_addr) has_addrs a airvpn-IsRelay,
  )
