-- ===== src/Tests/Ranges.antt =====
-- The index of ranges, run.
use ip_unt1_com.Prelude.{ℕ, ◌≡◌, refl, List, [], ◌∷◌, some, Text, bytes, inl, inr, arith}
use ip_unt1_com.Net.{v4, v6, canonical_ip}
use ip_unt1_com.Index.{CidrEntry, IpRange, build_cidr_index, lookup_ip, sort_merge}
use ip_unt1_com.Index.Search.{AreDisjoint}
use ip_unt1_com.Index.Sorting.{AreApart}
use ip_unt1_com.Index.Separate.{AreSeparate, sort_merge-AreSeparate}
use ip_unt1_com.Index.Entries.{entry_owner}
use ip_unt1_com.Index.Lookup.{lookup_ip-build}

abbrev net : ℕ → ℕ → Text → CidrEntry
net n bits provider = record { prefix = record { addr = v4 n; bits = bits }; provider = provider }

abbrev apple : Text
apple = bytes "apple"

-- 10.0.1.0/24 and 10.0.0.0/24, of one provider.
abbrev two_nets : List CidrEntry
two_nets = net 0x0a000100 24 apple ∷ net 0x0a000000 24 apple ∷ []

lookup_ip-build_example :
    lookup_ip (some (build_cidr_index two_nets)) (v6 0xffff0a000105 (bytes "eth0"))
    ≡ entry_owner (canonical_ip (v6 0xffff0a000105 (bytes "eth0"))) two_nets
lookup_ip-build_example =
    lookup_ip-build two_nets (v6 0xffff0a000105 (bytes "eth0")) (omega arith, (omega arith, tt))
      ((inl refl, tt), (tt, tt))

abbrev range_of : ℕ → ℕ → Text → IpRange
range_of a b p = record { first = a; last = b; provider = p }

abbrev three_ranges : List IpRange
three_ranges = range_of 20 29 apple ∷ range_of 10 19 apple ∷ range_of 40 50 (bytes "tor") ∷ []

abbrev merged_ranges : List IpRange
merged_ranges = range_of 10 29 apple ∷ range_of 40 50 (bytes "tor") ∷ []

three_ranges-AreApart : AreApart three_ranges
three_ranges-AreApart = (
  omega arith,
  ((inl refl, omega arith), ((inr (inl (omega arith)), omega arith), tt)),
  (omega arith, ((inr (inl (omega arith)), omega arith), tt), (omega arith, tt, tt)),
)

sort_merge-AreSeparate_example :
    AreDisjoint (sort_merge 32 three_ranges) × AreSeparate (sort_merge 32 three_ranges)
sort_merge-AreSeparate_example =
    sort_merge-AreSeparate 32 three_ranges three_ranges-AreApart (omega arith)
