-- ===== src/Index.antt =====
-- The sorted-range index of cidrindex.go. Within one slice all addresses are of one family and
-- carry no zone, so `netip.Addr.Compare` is the comparison of numbers; `w` is the family's width.
pub mod Search
pub mod Rounds
pub mod Merge
pub mod Separate
pub mod Sorting
pub mod Ranges
pub mod LastAddr
pub mod Entries
pub mod Lookup
use ip_unt1_com.Prelude.{
  ℕ, zero, suc, ◌+◌, ◌-◌, ◌/◌, ◌%◌, ◌*◌, ◌^◌, Bool, true, false, not, ◌&&◌, ◌||◌, List, [], ◌∷◌,
  ◌++◌, Option, none, some, Text, text_eq, leb, ltb, ◌==◌, if◌then◌else◌, length, get_elem?,
  is_empty, min,
}
use ip_unt1_com.Net.{
  Addr, invalid, v4, v6, Prefix, is_valid, is_4, value, canonical_ip, masked, prefix_is_valid,
  clear_low,
}

pub record CidrEntry : Type 0 where
  pub prefix : Prefix
  pub provider : Text

pub record IpRange : Type 0 where
  pub first : ℕ
  pub last : ℕ
  pub provider : Text

pub record CidrIndex : Type 0 where
  pub ranges4 : List IpRange
  pub ranges6 : List IpRange

-- `x | (1 << k - 1)`: the low `k` bits set.
abbrev pub or_low : ℕ → ℕ → ℕ
or_low x k = clear_low x k + (2 ^ k - 1)

-- `As16` and `AddrFrom16`, the bytes from the last one to the first.
unfoldable pub to_bytes : ℕ → ℕ → List ℕ
to_bytes zero n = []
to_bytes (suc k) n = n % 256 ∷ to_bytes k (n / 256)

unfoldable pub of_bytes : List ℕ → ℕ
of_bytes [] = 0
of_bytes (b ∷ bs) = b + 256 * of_bytes bs

-- The loop of `lastAddr` over the bytes, from the last one on.
unfoldable pub fill_host : List ℕ → ℕ → List ℕ
fill_host [] host = []
fill_host (b ∷ bs) host =
    let rest = fill_host bs (host - min host 8) in
    if host == 0 then b ∷ bs else or_low b (min host 8) ∷ rest

-- `lastAddr`, as the number of an address of the same family.
unfoldable pub last_addr : Prefix → ℕ
last_addr prefix =
    let p = masked prefix in
    if is_4 p.addr
    then or_low (value p.addr) (min (32 - p.bits) 32)
    else of_bytes (fill_host (to_bytes 16 (value p.addr)) (128 - p.bits))

-- `nextAddr`.
abbrev pub next_addr : ℕ → ℕ → Option ℕ
next_addr w n = if ltb (n + 1) (2 ^ w) then some (n + 1) else none

-- The order that `sortMerge` sorts by: a wider range comes before one with the same start.
abbrev pub less : IpRange → IpRange → Bool
less a b = if a.first == b.first then ltb b.last a.last else ltb a.first b.first

-- `sort.Slice`.
unfoldable pub insert_sorted : IpRange → List IpRange → List IpRange
insert_sorted r [] = r ∷ []
insert_sorted r (x ∷ xs) =
    let rest = x ∷ insert_sorted r xs in if less x r then rest else r ∷ x ∷ xs

unfoldable pub sort : List IpRange → List IpRange
unfolding insert_sorted
sort [] = []
sort (r ∷ rs) = insert_sorted r (sort rs)

-- `r` starts inside `prev` or immediately after it.
abbrev pub touches : ℕ → IpRange → IpRange → Bool
touches w prev r =
    leb r.first prev.last
    || elim (next_addr w prev.last) [ none ↦ false | some limit ↦ r.first == limit ]

abbrev pub widen : IpRange → IpRange → IpRange
widen prev r = if ltb prev.last r.last then record prev { last = r.last } else prev

-- The loop of `sortMerge`; `prev` is the last range of the output so far. The output shares the
-- array of the input, and never writes past the range that was read last.
unfoldable pub merge_from : ℕ → IpRange → List IpRange → List IpRange
merge_from w prev [] = prev ∷ []
merge_from w prev (r ∷ rs) =
    let push = prev ∷ merge_from w r rs in
    let absorb = merge_from w (widen prev r) rs in
    if not (text_eq prev.provider r.provider)
    then push
    else if touches w prev r
    then absorb
    else push

abbrev merge : ℕ → List IpRange → List IpRange
merge w [] = []
merge w (r ∷ rs) = merge_from w r rs

-- `sortMerge`.
unfoldable pub sort_merge : ℕ → List IpRange → List IpRange
unfolding sort merge_from
sort_merge w rs = if ltb (length rs) 2 then rs else merge w (sort rs)

-- The body of the loop of `buildCIDRIndex`.
unfoldable pub add_entry : CidrIndex → CidrEntry → CidrIndex
add_entry idx e =
    let p = masked e.prefix in
    let r : IpRange = record { first = value p.addr; last = last_addr p; provider = e.provider } in
    if not (prefix_is_valid p)
    then idx
    else if is_4 p.addr
    then record idx { ranges4 = idx.ranges4 ++ r ∷ [] }
    else record idx { ranges6 = idx.ranges6 ++ r ∷ [] }

unfoldable pub add_entries : CidrIndex → List CidrEntry → CidrIndex
add_entries idx [] = idx
add_entries idx (e ∷ es) = add_entries (add_entry idx e) es

abbrev pub empty_index : CidrIndex
empty_index = record { ranges4 = []; ranges6 = [] }

-- `buildCIDRIndex`.
unfoldable pub build_cidr_index : List CidrEntry → CidrIndex
build_cidr_index entries =
    let idx = add_entries empty_index entries in
    record { ranges4 = sort_merge 32 idx.ranges4; ranges6 = sort_merge 128 idx.ranges6 }

-- `sort.Search(n, f)`: the index, or `none` where the fuel is spent before the loop is over. The
-- fuel that `Lookup` is given is the length of the interval, which every round shortens.
unfoldable pub search_loop : ℕ → (ℕ → Bool) → ℕ → ℕ → Option ℕ
search_loop zero f i j = if ltb i j then none else some i
search_loop (suc k) f i j =
    let h = (i + j) / 2 in
    let left = search_loop k f i h in
    let right = search_loop k f (h + 1) j in
    if ltb i j then (if f h then left else right) else some i

abbrev pub starts_after : List IpRange → ℕ → ℕ → Bool
starts_after rs ip i = elim (get_elem? rs i) [ none ↦ false | some r ↦ ltb ip r.first ]

-- What `Lookup` makes of the index that the search returns.
abbrev pub answer_at : List IpRange → ℕ → ℕ → Option Text
answer_at rs ip zero = none
answer_at rs ip (suc k) = elim (get_elem? rs k) [
  | none ↦ none
  | some r ↦ if leb ip r.last then some r.provider else none
]

unfoldable pub lookup_ranges : List IpRange → ℕ → Option Text
unfolding search_loop
lookup_ranges rs ip =
    if is_empty rs
    then none
    else elim (search_loop (length rs) (starts_after rs ip) 0 (length rs)) [
      | none ↦ none
      | some i ↦ answer_at rs ip i
    ]

-- `Lookup`; the first argument is `none` for a nil index.
unfoldable pub lookup_ip : Option CidrIndex → Addr → Option Text
lookup_ip none addr = none
lookup_ip (some c) addr =
    let ip = canonical_ip addr in
    if not (is_valid addr)
    then none
    else lookup_ranges (if is_4 ip then c.ranges4 else c.ranges6) (value ip)

-- `Len`.
unfoldable pub index_len : Option CidrIndex → ℕ
index_len none = 0
index_len (some c) = length c.ranges4 + length c.ranges6
