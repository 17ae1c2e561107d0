-- ===== src/Snapshot/Nets.antt =====
-- What the derived neighbourhoods say.
use ip_unt1_com.Prelude.{
  ◌≡◌, refl, Bool, true, false, not, ◌&&◌, List, [], ◌∷◌, Option, none, some, Text, bytes, text_eq,
  if◌then◌else◌, Map, lookup, lookup-insert, Option-cases, Bool-cases, inl, inr, arith, ap,
}
use ip_unt1_com.Net.{Addr, Prefix}
use ip_unt1_com.Net.Equality.{prefix_instance}
use ip_unt1_com.Vpn.{net_prefix_for_ip}
use ip_unt1_com.Snapshot.{derive_step, derive_nets}

abbrev multi : Text
multi = bytes "multi"

-- An address of a provider, Tor apart, lies in the neighbourhood.
abbrev pub is_near : Prefix → Addr → Text → Bool
is_near pfx ip provider =
    not (text_eq provider (bytes "tor"))
    && elim (net_prefix_for_ip ip) [ none ↦ false | some p ↦ prefix_instance.beq p pfx ]

-- The providers that publish addresses of the neighbourhood.
abbrev pub providers_near : Prefix → List (Addr × Text) → List Text
providers_near pfx [] = []
providers_near pfx ((ip, provider) ∷ rest) =
    if is_near pfx ip provider then provider ∷ providers_near pfx rest else providers_near pfx rest

abbrev pub all_are : Text → List Text → Bool
all_are q [] = true
all_are q (p ∷ ps) = text_eq q p && all_are q ps

-- The one provider of them all, or "multi".
abbrev pub agreed : List Text → Option Text
agreed [] = none
agreed (p ∷ ps) = some (if all_are p ps then p else multi)

-- The same, with a provider that was found before.
abbrev agreed_with : Option Text → List Text → Option Text
agreed_with none ps = agreed ps
agreed_with (some q) ps = some (if all_are q ps then q else multi)

abbrev joined : Option Text → Text → Text
joined none p = p
joined (some q) p = if text_eq q p then q else multi

all_are-joined :
    (q p : Text) (ps : List Text)
    → (if all_are (joined (some q) p) ps then joined (some q) p else multi)
      ≡ (if text_eq q p && all_are q ps then q else multi)
all_are-joined q p ps = ground arith

agreed_with-joined :
    (o : Option Text) (p : Text) (ps : List Text)
    → agreed_with (some (joined o p)) ps ≡ agreed_with o (p ∷ ps)
agreed_with-joined none p ps = refl
agreed_with-joined (some q) p ps = ap some (all_are-joined q p ps)

lookup-derive_step :
    (pfx : Prefix) (nets : Map Prefix Text) (ip : Addr) (provider : Text)
    → lookup pfx (derive_step nets ip provider) ≡ (
        if is_near pfx ip provider
        then some (joined (lookup pfx nets) provider)
        else lookup pfx nets)
unfolding derive_step
lookup-derive_step pfx nets ip provider = elim (Option-cases (net_prefix_for_ip ip)) [
  | inl none_at ↦ ground arith
  | inr (p, at) ↦ ground (
    arith,
    prefix_instance.beq_iff p pfx,
    lookup-insert p pfx provider nets,
    lookup-insert p pfx multi nets,
  )
]

agreed_with-nil : (o : Option Text) → o ≡ agreed_with o []
agreed_with-nil none = refl
agreed_with-nil (some q) = refl

lookup-derive_from :
    (pfx : Prefix) (nets : Map Prefix Text) (es : List (Addr × Text))
    → lookup pfx (derive_nets nets es) ≡ agreed_with (lookup pfx nets) (providers_near pfx es)
unfolding derive_nets
lookup-derive_from pfx nets [] = agreed_with-nil (lookup pfx nets)
lookup-derive_from pfx nets ((ip, provider) ∷ rest) =
    let step = lookup-derive_step pfx nets ip provider in
    elim (Bool-cases (is_near pfx ip provider)) [
      | inl near ↦
          rw (lookup-derive_from pfx (derive_step nets ip provider) rest, step, near)
            (agreed_with-joined (lookup pfx nets) provider (providers_near pfx rest))
      | inr far ↦ rw (lookup-derive_from pfx (derive_step nets ip provider) rest, step, far)
    ]

-- A neighbourhood is ascribed to a provider when every address of a server list in it, Tor exits
-- apart, is that provider's; it is "multi" when two of them differ, and absent when there is none.
-- This holds in whatever order the addresses are visited.
pub lookup-derive_nets :
    (pfx : Prefix) (es : List (Addr × Text))
    → lookup pfx (derive_nets [] es) ≡ agreed (providers_near pfx es)
unfolding lookup
lookup-derive_nets pfx es = lookup-derive_from pfx [] es
