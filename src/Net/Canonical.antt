-- ===== src/Net/Canonical.antt =====
-- `canonicalIP`: one form for each address.
use ip_unt1_com.Prelude.{ℕ, ◌+◌, ◌*◌, ◌^◌, ◌<◌, ◌≡◌, refl, false, [], ◌∷◌, Text, arith}
use ip_unt1_com.Net.{Addr, invalid, v4, v6, is_valid, is_4in6, zone, canonical_ip, is_routable}

-- A canonical address has no zone and is not IPv4-mapped.
pub canonical_ip-IsCanonical :
    (a : Addr) → (zone (canonical_ip a) ≡ []) × (is_4in6 (canonical_ip a) ≡ false)
unfolding canonical_ip
canonical_ip-IsCanonical invalid = (refl, refl)
canonical_ip-IsCanonical (v4 n) = (refl, refl)
canonical_ip-IsCanonical (v6 n []) = ground arith
canonical_ip-IsCanonical (v6 n (c ∷ z)) = ground arith

pub canonical_ip_of_IsCanonical : (a : Addr) → zone a ≡ [] → is_4in6 a ≡ false → canonical_ip a ≡ a
unfolding canonical_ip
canonical_ip_of_IsCanonical invalid h k = refl
canonical_ip_of_IsCanonical (v4 n) h k = refl
canonical_ip_of_IsCanonical (v6 n []) h k = ground arith
canonical_ip_of_IsCanonical (v6 n (c ∷ z)) h k = ground arith

-- Canonicalising twice changes nothing.
pub canonical_ip_idem : (a : Addr) → canonical_ip (canonical_ip a) ≡ canonical_ip a
canonical_ip_idem a =
    let (h, k) = canonical_ip-IsCanonical a in canonical_ip_of_IsCanonical (canonical_ip a) h k

-- An IPv4 address and its IPv4-mapped IPv6 form, with any zone, are one address; every other IPv6
-- address keeps its number and loses its zone; an IPv4 address is left alone.
pub canonical_ip_cases :
    (n : ℕ) (z : Text)
    → (n < 2 ^ 32 → canonical_ip (v6 (0xffff * 2 ^ 32 + n) z) ≡ canonical_ip (v4 n))
      × (is_4in6 (v6 n z) ≡ false → canonical_ip (v6 n z) ≡ v6 n [])
      × (canonical_ip (v4 n) ≡ v4 n)
unfolding canonical_ip
canonical_ip_cases n [] = (λ h. ground arith, λ h. ground arith, refl)
canonical_ip_cases n (c ∷ z) = (λ h. ground arith, λ h. ground arith, refl)

pub is_valid-canonical_ip : (a : Addr) → is_valid (canonical_ip a) ≡ is_valid a
unfolding canonical_ip
is_valid-canonical_ip invalid = refl
is_valid-canonical_ip (v4 n) = refl
is_valid-canonical_ip (v6 n []) = ground arith
is_valid-canonical_ip (v6 n (c ∷ z)) = ground arith

-- Whether an address is looked up does not depend on the form in which it was written.
pub is_routable-canonical_ip : (a : Addr) → is_routable (canonical_ip a) ≡ is_routable a
unfolding is_routable
is_routable-canonical_ip a = rw (canonical_ip_idem a)
