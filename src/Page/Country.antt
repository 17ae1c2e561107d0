-- ===== src/Page/Country.antt =====
-- main.go: the country of a dataset, and where it comes from.
use ip_unt1_com.Prelude.{
  ◌≡◌, refl, Bool, true, Option, none, some, Text, bytes, is_empty, arith, ◌∙◌, ap, sym,
}
use ip_unt1_com.Net.{Addr}
use ip_unt1_com.Relay.{RelayInfo}
use ip_unt1_com.View.{Request, RequestInfo}
use ip_unt1_com.Page.{
  Dataset, Server, World, relay_country, choose_country, with_relay, verdict_on, dataset_of,
}

choose_country-source :
    (cf : Text) (is_lookup : Bool) (registered exit : Text)
    → is_empty (choose_country cf is_lookup registered exit).0
      ≡ is_empty (choose_country cf is_lookup registered exit).1
unfolding choose_country bytes
choose_country-source cf is_lookup registered exit = ground arith

country-with_relay :
    (d : Dataset) (r : Option RelayInfo)
    → ((with_relay d r).country ≡ d.country) × ((with_relay d r).country_source ≡ d.country_source)
unfolding with_relay
country-with_relay d none = (refl, refl)
country-with_relay d (some r) = (refl, refl)

-- The dataset of a look-up for someone else is the same whatever country Cloudflare names for the
-- visitor; and in every dataset the source of the country is empty exactly when the country is.
pub dataset_of-country :
    (s : Server) (w : World) (r : Request) (info : RequestInfo) (ip : Addr) (raw : Text)
    (is_lookup : Bool) (other : Text)
    → (dataset_of s w r (record info { country = other }) ip raw true
        ≡ dataset_of s w r info ip raw true)
      × (is_empty (dataset_of s w r info ip raw is_lookup).country
          ≡ is_empty (dataset_of s w r info ip raw is_lookup).country_source)
unfolding dataset_of choose_country
dataset_of-country s w r info ip raw is_lookup other =
    let rel = (verdict_on s.snapshot w ip).relay in
    let cc = (w.asn_of ip).country in
    (
      refl,
      ap is_empty (country-with_relay _ rel).0
          ∙ choose_country-source info.country is_lookup cc (relay_country rel)
          ∙ sym (ap is_empty (country-with_relay _ rel).1),
    )
