-- ===== src/Page/Fields.antt =====
-- main.go: what a client reads back of the dataset that `/json` answers with.
use ip_unt1_com.Prelude.{
  ◌≡◌, refl, Bool, true, false, [], Text, bytes, text_eq, text_instance, arith, contains, ap, ◌∙◌,
}
use ip_unt1_com.Prelude.Distinct.{IsDistinct}
use ip_unt1_com.Prelude.Int.{ℤ, pos}
use ip_unt1_com.Vpn.{VpnVerdict, no_verdict}
use ip_unt1_com.Ua.Detect.{UaInfo}
use ip_unt1_com.Page.{Dataset}
use ip_unt1_com.Page.Json.{
  Json, null, object, is_zero, json_of_verdict, dataset_members, json_of_dataset,
}
use ip_unt1_com.Page.Decoded.{
  find, row_at, find-members, text_of, number_of, truth_of, number_of_zero,
}
use ip_unt1_com.Page.Client.{
  texts-members, truths-members, read_verdict, public_verdict, read_verdict-json_of_verdict,
}

abbrev ua_from : (Text → Text) → (Text → Bool) → UaInfo
ua_from str flag = record {
  browser = str (bytes "browser");
  browser_version = str (bytes "browser_version");
  browser_slug = [];
  engine = str (bytes "engine");
  os = str (bytes "os");
  os_version = str (bytes "os_version");
  os_slug = [];
  device = str (bytes "device");
  device_slug = [];
  bot = flag (bytes "bot");
}

abbrev dataset_from : (Text → Text) → (Text → Bool) → ℤ → VpnVerdict → Dataset
dataset_from str flag asn vpn = record {
  ip = str (bytes "ip");
  version = str (bytes "version");
  country = str (bytes "country");
  asn = asn;
  as_org = str (bytes "asorg");
  prefix = str (bytes "prefix");
  rir = str (bytes "rir");
  allocated = str (bytes "allocated");
  reverse = str (bytes "reverse");
  ua = str (bytes "ua");
  ua_pretty = str (bytes "ua_pretty");
  ua_info = ua_from str flag;
  ua_hints = flag (bytes "ua_hints");
  via = str (bytes "via");
  ray = str (bytes "ray");
  colo = str (bytes "colo");
  colo_city = str (bytes "colo_city");
  colo_country = str (bytes "colo_country");
  vpn = vpn;
  db_loaded = str (bytes "db_loaded");
  is_lookup = false;
  req_ip = [];
  country_source = str (bytes "country_source");
  pop = str (bytes "pop");
  pop_city = str (bytes "pop_city");
  pop_country = str (bytes "pop_country");
  pop_host = str (bytes "pop_host");
  pop_v4 = str (bytes "pop_v4");
  pop_v6 = str (bytes "pop_v6");
  pop_provider = str (bytes "pop_provider");
}

pub read_dataset : Json → Dataset
read_dataset (object ms) =
    dataset_from (λ k. text_of (find k ms)) (λ k. truth_of (find k ms))
      (number_of (find (bytes "asn") ms)) (read_verdict (find (bytes "vpn") ms))
read_dataset _ = dataset_from (λ k. []) (λ k. false) (pos 0) (no_verdict false)

-- What is kept from the client: the slugs of the icons, what the page itself was asked, and the
-- addresses of the relay.
abbrev pub public_dataset : Dataset → Dataset
public_dataset d = record d {
  ua_info = record d.ua_info { browser_slug = []; os_slug = []; device_slug = [] };
  vpn = public_verdict d.vpn;
  is_lookup = false;
  req_ip = [];
}

read_verdict_zero : (v : Json) → is_zero v ≡ true → read_verdict v ≡ read_verdict null
unfolding is_zero read_verdict
read_verdict_zero (object ms) z = absurd (ground (arith, z))
read_verdict_zero _ z = refl

dataset_members-IsDistinct : (d : Dataset) → IsDistinct (dataset_members d)
unfolding dataset_members contains bytes text_eq
dataset_members-IsDistinct d = ground arith

dataset_from_rows :
    (d : Dataset)
    → dataset_from
        (λ k. text_of (row_at k (dataset_members d)))
        (λ k. truth_of (row_at k (dataset_members d)))
        (number_of (row_at (bytes "asn") (dataset_members d)))
        (read_verdict (row_at (bytes "vpn") (dataset_members d)))
      ≡ record (public_dataset d) { vpn = read_verdict (json_of_verdict d.vpn) }
unfolding dataset_members row_at bytes text_eq
dataset_from_rows d = refl

-- A client that decodes the JSON of a dataset, a field that is left out as the zero value of its
-- type, has every field of the dataset but those that are kept from it.
pub read_dataset-json_of_dataset :
    (d : Dataset) → read_dataset (json_of_dataset d) ≡ public_dataset d
unfolding read_dataset json_of_dataset
read_dataset-json_of_dataset d =
    let rows = dataset_members d in
    let distinct = dataset_members-IsDistinct d in
    (λ i.
      dataset_from (texts-members rows distinct i) (truths-members rows distinct i)
        (find-members number_of number_of_zero (bytes "asn") rows distinct i)
        (find-members read_verdict read_verdict_zero (bytes "vpn") rows distinct i))
    ∙ dataset_from_rows d
    ∙ ap (λ v. record (public_dataset d) { vpn = v }) (read_verdict-json_of_verdict d.vpn)
