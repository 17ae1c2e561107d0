-- ===== src/Index/Ranges.antt =====
-- `buildCIDRIndex` before its sort: each valid prefix becomes the interval of the numbers that
-- agree with it in the high bits, in the slice of its family.
use native.Mathlib.Nat.{mul-div_cancel, div-mul-le_self}
use ip_unt1_com.Prelude.{
  ℕ, ◌+◌, ◌-◌, ◌*◌, ◌/◌, ◌^◌, ◌≤◌, ◌<◌, ◌≡◌, refl, false, [], ◌∷◌, ◌++◌, Text, leb, if◌then◌else◌,
  Bool-cases, inl, inr, arith, ◌∙◌, ap, min, leb→le, le→leb,
}
use ip_unt1_com.Net.{
  Addr, invalid, v4, v6, Prefix, is_4, value, bit_len, clear_low, masked, prefix_is_valid,
  same_high,
}
use ip_unt1_com.Index.{
  CidrEntry, IpRange, CidrIndex, or_low, to_bytes, of_bytes, fill_host, last_addr, add_entry,
}
use ip_unt1_com.Index.Search.{covers}
use ip_unt1_com.Index.LastAddr.{
  pow-pos, of_bytes-fill_host, of_bytes-to_bytes, to_bytes-All, length-to_bytes, block-eq_quotient,
}

-- The number of an address fits its family.
abbrev pub IsAddr : Addr → Type 0
IsAddr a = value a < 2 ^ bit_len a

abbrev pub host_bits : Prefix → ℕ
host_bits p = bit_len p.addr - p.bits

-- The interval of an entry.
abbrev pub entry_range : CidrEntry → IpRange
entry_range e = record {
  first = clear_low (value e.prefix.addr) (host_bits e.prefix);
  last = or_low (value e.prefix.addr) (host_bits e.prefix);
  provider = e.provider;
}

-- The interval holds the numbers with the same high bits.
pub covers-entry_range :
    (x : ℕ) (e : CidrEntry)
    → covers x (entry_range e) ≡ same_high (host_bits e.prefix) x (value e.prefix.addr)
covers-entry_range x e =
    block-eq_quotient (2 ^ host_bits e.prefix) (value e.prefix.addr / 2 ^ host_bits e.prefix) x
      (pow-pos (host_bits e.prefix))

pub entry_range-nonempty : (e : CidrEntry) → (entry_range e).first ≤ (entry_range e).last
entry_range-nonempty e = omega arith

clear_low-div : (n h : ℕ) → clear_low n h / 2 ^ h ≡ n / 2 ^ h
clear_low-div n h = mul-div_cancel (n / 2 ^ h) (pow-pos h)

clear_low_idem : (n h : ℕ) → clear_low (clear_low n h) h ≡ clear_low n h
clear_low_idem n h = ap (λ (q : ℕ). q * 2 ^ h) (clear_low-div n h)

last_addr-v6 :
    (n h : ℕ)
    → n < 2 ^ 128
    → h ≤ 128
    → of_bytes (fill_host (to_bytes 16 (clear_low n h)) h) ≡ or_low n h
last_addr-v6 n h lt le =
    let m : ℕ = clear_low n h in
    let small : clear_low n h < 256 ^ 16 = omega (arith, div-mul-le_self n (2 ^ h)) in
    of_bytes-fill_host (to_bytes 16 m) h (to_bytes-All 16 m) (omega (arith, length-to_bytes 16 m))
    ∙ ap (λ x. or_low x h) (of_bytes-to_bytes 16 m small)
    ∙ ap (λ x. x + (2 ^ h - 1)) (clear_low_idem n h)

-- What one entry adds.
abbrev pub place : CidrIndex → CidrEntry → CidrIndex
place idx e =
    if prefix_is_valid e.prefix
    then if is_4 e.prefix.addr
      then record idx { ranges4 = idx.ranges4 ++ entry_range e ∷ [] }
      else record idx { ranges6 = idx.ranges6 ++ entry_range e ∷ [] }
    else idx

masked-v4 :
    (n bits : ℕ)
    → bits ≤ 32
    → masked (record { addr = v4 n; bits = bits })
      ≡ record { addr = v4 (clear_low n (32 - bits)); bits = bits }
unfolding masked
masked-v4 n bits h = rw (le→leb bits 32 h, masked)

masked-v6 :
    (n : ℕ) (z : Text) (bits : ℕ)
    → bits ≤ 128
    → masked (record { addr = v6 n z; bits = bits })
      ≡ record { addr = v6 (clear_low n (128 - bits)) []; bits = bits }
unfolding masked
masked-v6 n z bits h = rw (le→leb bits 128 h, masked)

masked-invalid :
    (a : Addr) (bits : ℕ)
    → prefix_is_valid (record { addr = a; bits = bits }) ≡ false
    → masked (record { addr = a; bits = bits }) ≡ record { addr = invalid; bits = 0 }
unfolding masked
masked-invalid invalid bits h = refl
masked-invalid (v4 n) bits h = rw (h, masked)
masked-invalid (v6 n z) bits h = rw (h, masked)

last_addr-v4_masked :
    (n bits : ℕ)
    → bits ≤ 32
    → last_addr (record { addr = v4 (clear_low n (32 - bits)); bits = bits }) ≡ or_low n (32 - bits)
unfolding last_addr
last_addr-v4_masked n bits h =
    let least : min (32 - bits) 32 ≡ 32 - bits = omega arith in
    rw (masked-v4 (clear_low n (32 - bits)) bits h, least)
      (ap (λ x. x + (2 ^ (32 - bits) - 1))
        (clear_low_idem (clear_low n (32 - bits)) (32 - bits) ∙ clear_low_idem n (32 - bits)))

last_addr-v6_masked :
    (n bits : ℕ)
    → n < 2 ^ 128
    → bits ≤ 128
    → last_addr (record { addr = v6 (clear_low n (128 - bits)) []; bits = bits })
      ≡ or_low n (128 - bits)
unfolding last_addr
last_addr-v6_masked n bits lt h =
    rw (masked-v6 (clear_low n (128 - bits)) [] bits h, clear_low_idem n (128 - bits))
      (last_addr-v6 n (128 - bits) lt (omega arith))

add_entry-place_of :
    (idx : CidrIndex) (a : Addr) (bits : ℕ) (provider : Text)
    → IsAddr a
    → add_entry idx (record { prefix = record { addr = a; bits = bits }; provider = provider })
      ≡ place idx (record { prefix = record { addr = a; bits = bits }; provider = provider })
unfolding add_entry
add_entry-place_of idx invalid bits provider h = rw (masked-invalid invalid bits refl)
add_entry-place_of idx (v4 n) bits provider h = elim (Bool-cases (leb bits 32)) [
  | inl fits ↦
      let le = leb→le bits 32 fits in rw (masked-v4 n bits le, last_addr-v4_masked n bits le, fits)
  | inr long ↦ rw (masked-invalid (v4 n) bits long, long)
]
add_entry-place_of idx (v6 n z) bits provider h = elim (Bool-cases (leb bits 128)) [
  | inl fits ↦
      let le = leb→le bits 128 fits in
      rw (masked-v6 n z bits le, last_addr-v6_masked n bits h le, fits)
  | inr long ↦ rw (masked-invalid (v6 n z) bits long, long)
]

pub add_entry-place :
    (idx : CidrIndex) (e : CidrEntry) → IsAddr e.prefix.addr → add_entry idx e ≡ place idx e
add_entry-place idx e h = add_entry-place_of idx e.prefix.addr e.prefix.bits e.provider h
