-- ===== src/Tests/Quotas.antt =====
-- The quota of a visitor, run.
use ip_unt1_com.Prelude.{
  ◌+◌, ◌*◌, ◌≤◌, ◌≡◌, refl, [], ◌∷◌, List, Option, none, some, Text, text_eq, bytes, if◌then◌else◌,
  arith, insert, delete, ap, ℕ, true,
}
use ip_unt1_com.Net.{Addr, v4, canonical_ip, is_routable, prefix_contains, reserved_prefixes}
use ip_unt1_com.Asn.{no_asn}
use ip_unt1_com.Strings.{trim_space, trim, trim_left, is_space, itoa, digits_from, join}
use ip_unt1_com.Net.Show.{show_addr, show_v4}
use ip_unt1_com.Net.Equality.{addr_eq}
use ip_unt1_com.Limit.{second, new_rate_limiter, limiter_key}
use ip_unt1_com.Limit.Answers.{IsCalm}
use ip_unt1_com.Limit.Callers.{times_of, last_time}
use ip_unt1_com.View.{inspect, read_cf, peer_ip, identified}
use ip_unt1_com.Page.{World, Call}
use ip_unt1_com.Page.Handlers.{root, json}
use ip_unt1_com.Service.{Event, asks, marks, start}
use ip_unt1_com.Service.Quota.{turns, looked_up, looked_up-budget}

-- A visitor who asks about two addresses, and about the own one in between.
abbrev parse : Text → Option Addr
parse s =
    if text_eq s (bytes "1.1.1.1")
    then some (v4 0x01010101)
    else if text_eq s (bytes "9.9.9.9")
    then some (v4 0x09090909)
    else some (v4 0x08080808)

abbrev at : ℕ → World
at now = record {
  parse_addr = parse;
  host_of = λ s. none;
  asn_of = λ a. no_asn;
  names_of = λ a. [];
  whois_of = λ a. none;
  now = now;
  limit_order = [];
  seen_order = [];
  is_print = λ r. true;
}

abbrev about : Text → Call
about addr = record {
  request = record {
    header = λ k. [];
    host = bytes "ip.unt1.com";
    remote_addr = bytes "8.8.8.8:99";
  };
  in_path = addr;
  in_query = [];
}

abbrev morning : List Event
morning =
    asks root [] (at 5) (about (bytes "1.1.1.1"))
    ∷ asks json [] (at 6) (about (bytes "8.8.8.8"))
    ∷ marks (bytes "noon")
    ∷ asks root [] (at 9) (about (bytes "9.9.9.9"))
    ∷ []

abbrev key : Text
key = bytes "8.8.8.8"

morning-turns : turns true morning ≡ (key, 5, []) ∷ (key, 9, []) ∷ []
unfolding turns inspect read_cf peer_ip identified trim_space trim trim_left is_space is_routable
    canonical_ip limiter_key show_addr show_v4 itoa digits_from addr_eq prefix_contains
    reserved_prefixes bytes text_eq join
morning-turns = refl

morning-IsCalm : IsCalm (new_rate_limiter 1 30 20_000) 0 [] (turns true morning)
unfolding new_rate_limiter insert delete text_eq bytes
morning-IsCalm = rw morning-turns (omega arith)

looked_up-budget_example :
    looked_up key (start true) morning * second + 5 ≤ 30 * second + last_time 5 (9 ∷ [])
unfolding times_of text_eq bytes
looked_up-budget_example =
    looked_up-budget true morning key 5 (9 ∷ []) morning-IsCalm (ap (times_of key) morning-turns)
