-- ===== src/Limit/Key.antt =====
-- Who shares a bucket.
use ip_unt1_com.Prelude.{ℕ, ◌+◌, ◌*◌, ◌/◌, ◌^◌, ◌<◌, ◌≡◌, false, Text, [], sym, ◌∙◌, ap}
use ip_unt1_com.Net.{Addr, v4, v6, is_4in6, canonical_ip, addr_prefix, masked}
use ip_unt1_com.Net.Canonical.{canonical_ip_cases}
use ip_unt1_com.Net.Show.{show_prefix}
use ip_unt1_com.Limit.{key_of, limiter_key}

limiter_key_of_canonical :
    (a b : Addr) → canonical_ip a ≡ canonical_ip b → limiter_key a ≡ limiter_key b
unfolding limiter_key
limiter_key_of_canonical a b h = ap key_of h

key_of-v6 : (n m : ℕ) → n / 2 ^ 64 ≡ m / 2 ^ 64 → key_of (v6 n []) ≡ key_of (v6 m [])
unfolding addr_prefix
key_of-v6 n m e =
    ap (λ (q : ℕ). show_prefix (masked (record { addr = v6 (q * 2 ^ 64) []; bits = 64 }))) e

-- Hosts of one IPv6 /64 share a bucket, whatever their zones are.
pub limiter_key_same_net :
    (n m : ℕ) (y z : Text)
    → is_4in6 (v6 n y) ≡ false
    → is_4in6 (v6 m z) ≡ false
    → n / 2 ^ 64 ≡ m / 2 ^ 64
    → limiter_key (v6 n y) ≡ limiter_key (v6 m z)
unfolding limiter_key
limiter_key_same_net n m y z p q e =
    ap key_of ((canonical_ip_cases n y).1 p)
    ∙ key_of-v6 n m e
    ∙ sym (ap key_of ((canonical_ip_cases m z).1 q))

-- An IPv4-mapped IPv6 address has the bucket of the IPv4 address.
pub limiter_key-mapped :
    (n : ℕ) (z : Text) → n < 2 ^ 32 → limiter_key (v6 (0xffff * 2 ^ 32 + n) z) ≡ limiter_key (v4 n)
limiter_key-mapped n z h = limiter_key_of_canonical _ _ ((canonical_ip_cases n z).0 h)
