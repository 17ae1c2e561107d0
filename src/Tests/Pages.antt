-- ===== src/Tests/Pages.antt =====
-- The handlers and the views, run.
use ip_unt1_com.Prelude.{
  ℕ, ltb, Bool, Text, arith, ◌++◌, some, ◌≡◌, refl, ◌+◌, true, false, [], ◌∷◌, none, bytes,
  is_empty, length, if◌then◌else◌, All, text_instance,
}
use ip_unt1_com.Strings.{itoa, has_prefix, has_suffix}
use ip_unt1_com.Net.{v4}
use ip_unt1_com.Net.Show.{hex_digit}
use ip_unt1_com.Asn.{no_asn, itoa_ℤ}
use ip_unt1_com.Prelude.Int.{pos}
use ip_unt1_com.Vpn.{no_verdict}
use ip_unt1_com.View.{Request, RequestInfo}
use ip_unt1_com.Page.{Dataset, Server, World, Call}
use ip_unt1_com.Page.Handlers.{handle, vpn}
use ip_unt1_com.Page.Texts.{TraceArgs, trace_rows, trace_text, on_off, ready_word, scheme_of}
use ip_unt1_com.Strings.Quote.{quote, escape, escape_from, piece, wide, rune_text, hex_pad}
use ip_unt1_com.Page.Yaml.{top_rows, verdict_rows, yaml_text, scalar, is_quoted, special}
use ip_unt1_com.Page.Json.{json_of_dataset}
use ip_unt1_com.Page.Fields.{read_dataset, public_dataset, read_dataset-json_of_dataset}
use ip_unt1_com.Page.Status.{Fits, handle-Fits, target_of}
use ip_unt1_com.Page.Lines.{breaks, shown_rows, breaks-yaml_text}
use ip_unt1_com.Page.Quoted.{read_scalar, read_scalar-scalar}
use ip_unt1_com.Page.Reading.{IsUnbroken, read_fields}
use ip_unt1_com.Page.Published.{trace_fields, present, read_fields-trace_text}
use ip_unt1_com.Ua.Detect.{no_ua}
use ip_unt1_com.Service.{new_server}

abbrev server : Server
server = new_server true

-- A parser that knows no address.
abbrev world : World
world = record {
  parse_addr = λ s. none;
  host_of = λ s. none;
  asn_of = λ a. no_asn;
  names_of = λ a. [];
  whois_of = λ a. none;
  now = 7;
  limit_order = [];
  seen_order = [];
  is_print = λ r. true;
}

abbrev bare : Request
bare = record { header = λ k. []; host = bytes "ip.unt1.com"; remote_addr = bytes "8.8.8.8:99" }

-- A request about what is no address.
abbrev wrong : Call
wrong = record { request = bare; in_path = bytes "nowhere"; in_query = [] }

abbrev info : RequestInfo
info = record {
  ip = v4 0x08080808;
  ip_raw = bytes "8.8.8.8";
  country = bytes "FR";
  ua = bytes "curl/8.4.0";
  cf_ray = bytes "9f7aa17abb769816-MRS";
  host = bytes "ip.unt1.com";
  via = bytes "caddy+cf";
  remote_addr = bytes "8.8.8.8:99";
}

-- A visitor behind a listed address.
abbrev shown : Dataset
shown = record {
  ip = bytes "8.8.8.8";
  version = bytes "v4";
  country = bytes "FR";
  asn = pos 15169;
  as_org = bytes "GOOGLE, US";
  prefix = bytes "8.8.8.0/24";
  rir = bytes "arin";
  allocated = [];
  reverse = bytes "dns.google";
  ua = bytes "curl/8.4.0";
  ua_pretty = [];
  ua_info = no_ua;
  ua_hints = false;
  via = bytes "direct";
  ray = [];
  colo = [];
  colo_city = [];
  colo_country = [];
  vpn = record (no_verdict true) {
    vpn = true;
    provider = bytes "ivpn";
    reasons = bytes "address\nlisted" ∷ [];
  };
  db_loaded = [];
  is_lookup = false;
  req_ip = bytes "8.8.8.8";
  country_source = bytes "cf";
  pop = [];
  pop_city = [];
  pop_country = [];
  pop_host = [];
  pop_v4 = [];
  pop_v6 = [];
  pop_provider = [];
}

-- The same, with a line break in the user agent.
abbrev broken : Dataset
broken = record shown { ua = bytes "curl\nip: 1.1.1.1" }

-- A table of printable characters that holds no emoji.
abbrev latin : ℕ → Bool
latin r = ltb r 0x2000

breaks-yaml_text_example :
    breaks (yaml_text latin broken)
    ≡ shown_rows (top_rows latin broken)
      + (1
          + (shown_rows (verdict_rows broken)
              + (if is_empty broken.vpn.reasons then 0 else 1 + length broken.vpn.reasons)))
unfolding bytes
breaks-yaml_text_example = breaks-yaml_text latin broken refl refl

abbrev args : TraceArgs
args = record { forwarded = []; tls = true; host = bytes "ip.unt1.com"; ts = bytes "1.000" }

shown-IsUnbroken : All IsUnbroken (trace_rows args shown)
unfolding bytes on_off ready_word scheme_of trace_rows itoa_ℤ itoa
shown-IsUnbroken = search

read_fields-trace_text_example :
    read_fields (trace_text args shown) ≡ present (trace_fields args shown)
read_fields-trace_text_example = read_fields-trace_text args shown shown-IsUnbroken

-- What a line feed in a user agent becomes.
scalar_break : scalar latin (bytes "a\nb") ≡ bytes "\"a\\nb\""
unfolding bytes scalar is_quoted special has_prefix has_suffix quote escape_from piece escape
scalar_break = refl

-- Printable text stays as it is, other characters and bytes that begin none are written by number.
scalar_wide :
    scalar latin (bytes "\"é" ++ 0xf0 ∷ 0x9f ∷ 0x90 ∷ 0x9f ∷ 0xff ∷ [])
    ≡ bytes "\"\\\"é\\U0001f41f\\xff\""
unfolding bytes scalar is_quoted special has_prefix has_suffix quote escape_from piece escape wide
    rune_text hex_pad hex_digit
scalar_wide = refl

-- A country that YAML reads as a truth value is not quoted, nor is a carriage return.
scalar_norway : scalar latin (bytes "NO") ≡ bytes "NO"
unfolding bytes scalar is_quoted special has_prefix has_suffix quote escape_from piece escape
scalar_norway = refl

scalar_return : scalar latin (97 ∷ 13 ∷ 98 ∷ []) ≡ 97 ∷ 13 ∷ 98 ∷ []
unfolding bytes scalar is_quoted special has_prefix has_suffix quote escape_from piece escape
scalar_return = refl

-- A user agent with a line feed, an emoji and a byte that is no text.
abbrev odd_agent : Text
odd_agent = 34 ∷ 10 ∷ 0xf0 ∷ 0x9f ∷ 0x90 ∷ 0x9f ∷ 0xff ∷ []

read_scalar-scalar_example :
    read_scalar (scalar latin odd_agent ++ 10 ∷ bytes "via: direct")
    ≡ some (odd_agent, 10 ∷ bytes "via: direct")
read_scalar-scalar_example = read_scalar-scalar latin odd_agent (bytes "via: direct") (omega arith)

read_dataset-json_of_dataset_example : read_dataset (json_of_dataset shown) ≡ public_dataset shown
read_dataset-json_of_dataset_example = read_dataset-json_of_dataset shown

handle-Fits_example : Fits (handle vpn [] server world wrong).1 (target_of server world wrong)
handle-Fits_example = handle-Fits vpn [] server world wrong
