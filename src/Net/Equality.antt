-- ===== src/Net/Equality.antt =====
-- Addresses and prefixes as map keys.
use ip_unt1_com.Prelude.{Bool, true, false, ◌&&◌, text_eq, text_eq_iff, ◌==◌, ◌≡◌, ◌↔◌, arith, Eq}
use ip_unt1_com.Net.{Addr, invalid, v4, v6, Prefix}

unfoldable pub addr_eq : Addr → Addr → Bool
addr_eq invalid invalid = true
addr_eq (v4 n) (v4 m) = n == m
addr_eq (v6 n y) (v6 m z) = n == m && text_eq y z
addr_eq _ _ = false

pub addr_eq_iff : (a b : Addr) → (addr_eq a b ≡ true) ↔ (a ≡ b)
unfolding addr_eq
addr_eq_iff invalid invalid = ground arith
addr_eq_iff (v4 n) (v4 m) = ground arith
addr_eq_iff (v6 n y) (v6 m z) = ground (arith, text_eq_iff y z)
addr_eq_iff _ _ = ground arith

unfoldable pub prefix_eq : Prefix → Prefix → Bool
prefix_eq p q = addr_eq p.addr q.addr && p.bits == q.bits

pub prefix_eq_iff : (p q : Prefix) → (prefix_eq p q ≡ true) ↔ (p ≡ q)
unfolding prefix_eq
prefix_eq_iff p q = ground (arith, addr_eq_iff p.addr q.addr)

instance abbrev pub addr_instance : Eq Addr
addr_instance = record { beq = addr_eq; beq_iff = addr_eq_iff }

instance abbrev pub prefix_instance : Eq Prefix
prefix_instance = record { beq = prefix_eq; beq_iff = prefix_eq_iff }
