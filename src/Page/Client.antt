-- ===== src/Page/Client.antt =====
-- main.go: what a client reads back of the records that `writeJSON` encodes.
use mathlib.Core.Path.{fun_ext}
use ip_unt1_com.Prelude.{
  ◌≡◌, refl, Bool, true, false, List, [], Option, none, some, Text, bytes, text_eq, text_instance,
  arith, contains, ap, ◌∙◌,
}
use ip_unt1_com.Prelude.Distinct.{IsDistinct}
use ip_unt1_com.Relay.{RelayInfo}
use ip_unt1_com.Vpn.{VpnVerdict, no_verdict}
use ip_unt1_com.Page.Json.{
  Json, null, object, Row, is_zero, members, relay_members, json_of_relay, verdict_members,
  json_of_verdict,
}
use ip_unt1_com.Page.Decoded.{
  find, row_at, find-members, text_of, truth_of, texts_of, text_of_zero, truth_of_zero,
  texts_of_zero,
}

abbrev relay_from : (Text → Text) → RelayInfo
relay_from str = record {
  provider = str (bytes "provider");
  hostname = str (bytes "hostname");
  city = str (bytes "city");
  country = str (bytes "country");
  host = str (bytes "host");
  pop_v4 = str (bytes "pop_v4");
  pop_v6 = str (bytes "pop_v6");
  addrs = [];
}

pub read_relay : Json → Option RelayInfo
read_relay (object ms) = some (relay_from (λ k. text_of (find k ms)))
read_relay _ = none

-- The addresses of a relay are kept from the client.
abbrev pub public_relay : Option RelayInfo → Option RelayInfo
public_relay none = none
public_relay (some r) = some (record r { addrs = [] })

relay_members-IsDistinct : (r : RelayInfo) → IsDistinct (relay_members r)
unfolding relay_members contains bytes text_eq
relay_members-IsDistinct r = ground arith

pub texts-members :
    (rows : List Row)
    → IsDistinct rows
    → ◌≡◌ {A = Text → Text} (λ k. text_of (find k (members rows))) (λ k. text_of (row_at k rows))
texts-members rows d = fun_ext λ k. find-members text_of text_of_zero k rows d

relay_from_rows :
    (r : RelayInfo)
    → some (relay_from (λ k. text_of (row_at k (relay_members r)))) ≡ public_relay (some r)
unfolding relay_members row_at bytes text_eq
relay_from_rows r = refl

read_relay-json_of_relay : (r : Option RelayInfo) → read_relay (json_of_relay r) ≡ public_relay r
unfolding read_relay json_of_relay
read_relay-json_of_relay none = refl
read_relay-json_of_relay (some r) =
    ap (λ str. some (relay_from str)) (texts-members (relay_members r) (relay_members-IsDistinct r))
    ∙ relay_from_rows r

read_relay_zero : (v : Json) → is_zero v ≡ true → read_relay v ≡ read_relay null
unfolding is_zero read_relay
read_relay_zero (object ms) z = absurd (ground (arith, z))
read_relay_zero _ z = refl

pub truths-members :
    (rows : List Row)
    → IsDistinct rows
    → ◌≡◌ {A = Text → Bool} (λ k. truth_of (find k (members rows))) (λ k. truth_of (row_at k rows))
truths-members rows d = fun_ext λ k. find-members truth_of truth_of_zero k rows d

abbrev verdict_from : (Text → Text) → (Text → Bool) → List Text → Option RelayInfo → VpnVerdict
verdict_from str flag reasons relay = record {
  vpn = flag (bytes "vpn");
  hosting = flag (bytes "hosting");
  tor = flag (bytes "tor");
  privacy_proxy = flag (bytes "privacy_proxy");
  provider = str (bytes "provider");
  network = str (bytes "network");
  relay = relay;
  reasons = reasons;
  source = str (bytes "source");
  ready = flag (bytes "ready");
}

unfoldable pub read_verdict : Json → VpnVerdict
read_verdict (object ms) =
    verdict_from (λ k. text_of (find k ms)) (λ k. truth_of (find k ms))
      (texts_of (find (bytes "reasons") ms)) (read_relay (find (bytes "relay") ms))
read_verdict _ = no_verdict false

abbrev pub public_verdict : VpnVerdict → VpnVerdict
public_verdict v = record v { relay = public_relay v.relay }

verdict_members-IsDistinct : (v : VpnVerdict) → IsDistinct (verdict_members v)
unfolding verdict_members contains bytes text_eq
verdict_members-IsDistinct v = ground arith

verdict_from_rows :
    (v : VpnVerdict)
    → verdict_from
        (λ k. text_of (row_at k (verdict_members v)))
        (λ k. truth_of (row_at k (verdict_members v)))
        (texts_of (row_at (bytes "reasons") (verdict_members v)))
        (read_relay (row_at (bytes "relay") (verdict_members v)))
      ≡ record v { relay = read_relay (json_of_relay v.relay) }
unfolding verdict_members row_at bytes text_eq
verdict_from_rows v = refl

-- The client finds the verdict without the addresses of its relay.
pub read_verdict-json_of_verdict :
    (v : VpnVerdict) → read_verdict (json_of_verdict v) ≡ public_verdict v
unfolding read_verdict json_of_verdict
read_verdict-json_of_verdict v =
    let rows = verdict_members v in
    let d = verdict_members-IsDistinct v in
    (λ i.
      verdict_from (texts-members rows d i) (truths-members rows d i)
        (find-members texts_of texts_of_zero (bytes "reasons") rows d i)
        (find-members read_relay read_relay_zero (bytes "relay") rows d i))
    ∙ verdict_from_rows v
    ∙ ap (λ r. record v { relay = r }) (read_relay-json_of_relay v.relay)
