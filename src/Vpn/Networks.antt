-- ===== src/Vpn/Networks.antt =====
-- vpn.go: the networks that rent to VPNs or only host.
use ip_unt1_com.Prelude.{
  ℕ, Bool, true, false, [], ◌∷◌, Option, none, Text, bytes, Map, lookup, nat_instance,
}
use ip_unt1_com.Prelude.Int.{ℤ, pos, negsuc}
use ip_unt1_com.Net.Equality.{addr_instance, prefix_instance}
use ip_unt1_com.Relay.{label}

pub record AsnTier : Type 0 where
  pub label : Text
  pub rental : Bool

abbrev rents : ℕ → Text → ℕ × AsnTier
rents asn label = (asn, record { label = label; rental = true })

abbrev hosts : ℕ → Text → ℕ × AsnTier
hosts asn label = (asn, record { label = label; rental = false })

-- `datacenterASNs`.
unfoldable pub datacenter_asns : Map ℕ AsnTier
datacenter_asns =
    rents 9009 (bytes "M247")
    ∷ rents 60068 (bytes "Datacamp / CDN77")
    ∷ rents 200651 (bytes "Flokinet")
    ∷ rents 20473 (bytes "Choopa / Vultr")
    ∷ rents 16276 (bytes "OVH")
    ∷ rents 24940 (bytes "Hetzner")
    ∷ rents 14061 (bytes "DigitalOcean")
    ∷ rents 63949 (bytes "Akamai / Linode")
    ∷ rents 36352 (bytes "ColoCrossing")
    ∷ rents 29802 (bytes "HVC / Quadranet")
    ∷ rents 40676 (bytes "Psychz Networks")
    ∷ rents 29761 (bytes "QuadraNet Enterprises")
    ∷ rents 46606 (bytes "Unified Layer")
    ∷ rents 20860 (bytes "iomart")
    ∷ rents 51852 (bytes "Total Server Solutions")
    ∷ rents 8100 (bytes "QuadraNet Enterprises")
    ∷ rents 63473 (bytes "HostHatch")
    ∷ rents 395954 (bytes "ServerMania")
    ∷ rents 54600 (bytes "PEG.TECH")
    ∷ rents 201942 (bytes "GreenFloid")
    ∷ rents 200019 (bytes "AlexHost")
    ∷ rents 206264 (bytes "Amarutu Technology")
    ∷ rents 211252 (bytes "Delis LLC")
    ∷ rents 23470 (bytes "ReliableSite")
    ∷ rents 212238 (bytes "Datapacket / CDN77")
    ∷ rents 51747 (bytes "Internetbolaget / Packethub")
    ∷ rents 44477 (bytes "Stark Industries")
    ∷ rents 6206 (bytes "Netrouting")
    ∷ rents 137409 (bytes "GSL Networks")
    ∷ hosts 396982 (bytes "Google Cloud")
    ∷ hosts 15169 (bytes "Google")
    ∷ hosts 8075 (bytes "Microsoft Azure")
    ∷ hosts 16509 (bytes "Amazon AWS")
    ∷ hosts 14618 (bytes "Amazon AWS")
    ∷ hosts 13335 (bytes "Cloudflare")
    ∷ hosts 31898 (bytes "Oracle Cloud")
    ∷ hosts 36351 (bytes "SoftLayer / IBM Cloud")
    ∷ []

-- `datacenterASN`.
unfoldable pub datacenter_asn : ℤ → Option AsnTier
datacenter_asn (pos n) = lookup n datacenter_asns
datacenter_asn (negsuc n) = none
