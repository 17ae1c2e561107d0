-- ===== src/Asn.antt =====
-- asn.go: the answers of the Cymru name service, and the query names. The two look-ups of the
-- resolver are arguments: what the name service answered, or that it failed.
pub mod Query
pub mod Origin
pub mod Kept
use ip_unt1_com.Prelude.{
  ℕ, zero, suc, ◌+◌, ◌-◌, ◌*◌, ◌/◌, ◌%◌, ◌^◌, Bool, true, false, not, ◌&&◌, ◌||◌, List, [], ◌∷◌,
  ◌++◌, map, Option, none, some, Text, bytes, leb, ltb, ◌==◌, if◌then◌else◌, length, get_elem?,
}
use ip_unt1_com.Prelude.Int.{ℤ, pos, negsuc}
use ip_unt1_com.Strings.{split, join, trim_space, itoa, digits_value}
use ip_unt1_com.Net.{Addr, invalid, v4, v6, is_4, value, canonical_ip, is_routable}
use ip_unt1_com.Net.Show.{show_addr, hex_digit}

pub record AsnInfo : Type 0 where
  pub asn : ℤ
  pub org : Text
  pub prefix : Text
  pub rir : Text
  pub allocated : Text
  pub country : Text

abbrev pub no_asn : AsnInfo
no_asn = record { asn = pos 0; org = []; prefix = []; rir = []; allocated = []; country = [] }

pub record AsnResult : Type 0 where
  pub info : AsnInfo
  pub ok : Bool

-- Nanoseconds.
abbrev pub asn_cache_ttl : ℕ
asn_cache_ttl = 43_200_000_000_000

abbrev pub asn_error_ttl : ℕ
asn_error_ttl = 60_000_000_000

abbrev pub asn_cache_max : ℕ
asn_cache_max = 50_000

abbrev pub org_cache_max : ℕ
org_cache_max = 8_192

-- `strconv.Atoi`: an optional sign, digits, and the range of a 64-bit integer.
abbrev digits_only : Text → Option ℕ
digits_only [] = none
digits_only (c ∷ s) = digits_value (c ∷ s) 0

abbrev signed : Bool → Option ℕ → Option ℤ
signed minus none = none
signed true (some zero) = some (pos 0)
signed true (some (suc n)) = if ltb n (2 ^ 63) then some (negsuc n) else none
signed false (some n) = if ltb n (2 ^ 63) then some (pos n) else none

unfoldable pub atoi : Text → Option ℤ
atoi [] = none
atoi (c ∷ s) =
    if c == b'-'
    then signed true (digits_only s)
    else if c == b'+'
    then signed false (digits_only s)
    else signed false (digits_only (c ∷ s))

unfoldable pub itoa_ℤ : ℤ → Text
itoa_ℤ (pos n) = itoa n
itoa_ℤ (negsuc n) = b'-' ∷ itoa (suc n)

-- `strings.SplitN(s, " ", 2)[0]`.
abbrev pub first_word : List Text → Text
first_word [] = []
first_word (w ∷ ws) = w

unfoldable pub of_parts : List Text → AsnInfo
of_parts (a ∷ prefix ∷ country ∷ rir ∷ allocated ∷ rest) = elim (atoi (first_word (split a b' '))) [
  | none ↦ no_asn
  | some n ↦ record {
    asn = n;
    org = [];
    prefix = prefix;
    rir = rir;
    allocated = allocated;
    country = country;
  }
]
of_parts _ = no_asn

-- `parseOriginTXT`; fewer than five parts give the zero value.
unfoldable pub parse_origin_txt : Text → AsnInfo
parse_origin_txt txt = of_parts (map trim_space (split txt b'|'))

-- The digits of `nibbleReverseV6`: the low half of the last byte first.
unfoldable pub nibbles : ℕ → ℕ → List Text
nibbles zero n = []
nibbles (suc k) n = (hex_digit (n % 16) ∷ []) ∷ (hex_digit (n / 16 % 16) ∷ []) ∷ nibbles k (n / 256)

-- `nibbleReverseV6`, of the number of the address.
unfoldable pub nibble_reverse_v6 : ℕ → Text
nibble_reverse_v6 n = join (nibbles 16 n) (b'.' ∷ [])

-- The query name of `resolve`.
unfoldable pub origin_qname : Addr → Text
origin_qname (v4 n) =
    join
      (itoa (n % 256) ∷ itoa (n / 2 ^ 8 % 256) ∷ itoa (n / 2 ^ 16 % 256) ∷ itoa (n / 2 ^ 24) ∷ [])
      (b'.' ∷ [])
    ++ bytes ".origin.asn.cymru.com"
origin_qname a = nibble_reverse_v6 (value a) ++ bytes ".origin6.asn.cymru.com"

-- What `LookupTXT` came back with.
pub data TxtAnswer : Type 0 where
  texts : List Text → TxtAnswer
  not_found : TxtAnswer
  failed : TxtAnswer

abbrev pub is_zero : ℤ → Bool
is_zero (pos n) = n == 0
is_zero (negsuc n) = false

-- The computation that `lookupOrg` hands to its cache: the name, and how long to keep it.
unfoldable pub org_answer : TxtAnswer → Text × ℕ
org_answer (texts (t ∷ ts)) = elim (get_elem? (split t b'|') 4) [
  | none ↦ ([], asn_cache_ttl)
  | some part ↦ (trim_space part, asn_cache_ttl)
]
org_answer _ = ([], asn_error_ttl)

-- The query name of `lookupOrg`.
unfoldable pub org_qname : ℤ → Text
org_qname asn = bytes "AS" ++ (itoa_ℤ asn ++ bytes ".asn.cymru.com")

-- `lookupOrg`; the cache is an argument, from the key and the computation to the value.
unfoldable pub lookup_org : (Text → TxtAnswer) → (Text → Text × ℕ → Text) → ℤ → Text
lookup_org lookup_txt cached asn = cached (itoa_ℤ asn) (org_answer (lookup_txt (org_qname asn)))

module _ (lookup_txt : Text → TxtAnswer) (org_of : ℤ → Text) where
  -- `resolve`.
  unfoldable pub resolve : Addr → AsnResult
  resolve ip = elim (lookup_txt (origin_qname ip)) [
    | failed ↦ record { info = no_asn; ok = false }
    | not_found ↦ record { info = no_asn; ok = true }
    | texts [] ↦ record { info = no_asn; ok = true }
    | texts (t ∷ ts) ↦
        let info = parse_origin_txt t in
        if is_zero info.asn
        then record { info = no_asn; ok = true }
        else record { info = record info { org = org_of info.asn }; ok = true }
  ]

  -- The computation that `Lookup` hands to its cache.
  unfoldable pub cached_answer : Addr → AsnResult × ℕ
  cached_answer ip = let r = resolve ip in if r.ok then (r, asn_cache_ttl) else (r, asn_error_ttl)

-- `Lookup`; the cache is an argument, from the key and the address to the result.
unfoldable pub lookup_asn : (Text → Addr → AsnResult) → Addr → AsnInfo
lookup_asn cached addr =
    let ip = canonical_ip addr in
    if not (is_routable ip) then no_asn else (cached (show_addr ip) ip).info
