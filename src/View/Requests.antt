-- ===== src/View/Requests.antt =====
-- Whom a request is about, and what it takes to look up someone else.
use ip_unt1_com.Prelude.{
  ℕ, ◌≡◌, refl, true, false, List, Option, none, some, Text, bytes, if◌then◌else◌, is_empty,
  Bool-cases, inl, inr,
}
use ip_unt1_com.Strings.{trim_space}
use ip_unt1_com.Net.{Addr, canonical_ip, is_routable}
use ip_unt1_com.Net.Show.{show_addr}
use ip_unt1_com.Net.Canonical.{canonical_ip_idem}
use ip_unt1_com.Net.Equality.{addr_eq, addr_eq_iff}
use ip_unt1_com.Limit.{RateLimiter, allow, limiter_key}
use ip_unt1_com.View.{
  Target, found, refused, target_allowed, target_named, target_ip, Request, inspect, peer_ip,
}

-- The outcome of a look-up for someone else, as it is charged.
pub record IsCharged (l : RateLimiter) (visitor : Addr) (now : ℕ) (order : List Text) (a : Addr)
    (t : Text) (out : RateLimiter) : Type 0 where
  pub routable : is_routable a ≡ true
  pub canonical : canonical_ip a ≡ a
  pub other : addr_eq a visitor ≡ false
  pub shown : t ≡ show_addr a
  pub granted : (allow l (limiter_key visitor) now order).1 ≡ true
  pub charged : out ≡ (allow l (limiter_key visitor) now order).0

-- The outcome of a request that is refused: it is wrong, which costs nothing, or the visitor's
-- bucket is empty.
pub data IsRefused (l : RateLimiter) (visitor : Addr) (now : ℕ) (order : List Text)
    : ℕ → RateLimiter → Type 0 where
  wrong : IsRefused l visitor now order 400 l
  spent :
      (allow l (limiter_key visitor) now order).1 ≡ false
      → IsRefused l visitor now order 429 (allow l (limiter_key visitor) now order).0

pub IsFor : RateLimiter → Addr → ℕ → List Text → RateLimiter × Target → Type 0
IsFor l visitor now order (out, found a t true) = IsCharged l visitor now order a t out
IsFor l visitor now order (out, found a t false) = (a ≡ visitor) × (out ≡ l)
IsFor l visitor now order (out, refused status msg) = IsRefused l visitor now order status out

target_allowed-IsFor :
    (l : RateLimiter) (visitor : Addr) (now : ℕ) (order : List Text) (a : Addr)
    → is_routable a ≡ true
    → canonical_ip a ≡ a
    → IsFor l visitor now order (target_allowed l visitor now order a)
unfolding target_allowed IsFor
target_allowed-IsFor l visitor now order a r c = elim (Bool-cases (addr_eq a visitor)) [
  | inl own ↦ rw own ((addr_eq_iff a visitor).0 own, refl)
  | inr other ↦ elim (Bool-cases (allow l (limiter_key visitor) now order).1) [
    | inr none_left ↦ rw (other, none_left) (spent none_left)
    | inl ok ↦
        rw (other, ok)
          (record {
            routable = r;
            canonical = c;
            other = other;
            shown = refl;
            granted = ok;
            charged = refl;
          })
  ]
]

target_named-IsFor :
    (l : RateLimiter) (visitor : Addr) (now : ℕ) (order : List Text) (s : Text) (o : Option Addr)
    → IsFor l visitor now order (target_named l visitor now order s o)
unfolding target_named IsFor
target_named-IsFor l visitor now order s none = wrong
target_named-IsFor l visitor now order s (some a) =
    elim (Bool-cases (is_routable (canonical_ip a))) [
      | inr off ↦ rw off wrong
      | inl routable ↦
          rw routable (
            target_allowed-IsFor l visitor now order (canonical_ip a) routable
              (canonical_ip_idem a))
    ]

module _ (parse_addr : Text → Option Addr) where
  -- Whatever a request names, and in its path or its query: a look-up of an address that is not the
  -- visitor's is marked as one, and goes ahead only if the address is routable and in canonical form
  -- and the visitor's bucket, which is charged for it, granted it; every other look-up is of the
  -- visitor's own address, and costs nothing. A refusal has the status 400 and costs nothing, or it
  -- has 429 and the bucket did not grant the look-up.
  pub target_ip-IsFor :
      (l : RateLimiter) (visitor : Addr) (raw : Text) (now : ℕ) (order : List Text)
      (in_path in_query : Text)
      → IsFor l visitor now order (target_ip parse_addr l visitor raw now order in_path in_query)
  unfolding target_ip IsFor
  target_ip-IsFor l visitor raw now order in_path in_query =
      let path = trim_space in_path in
      let override = if is_empty path then trim_space in_query else path in
      elim (Bool-cases (is_empty override)) [
        | inl own ↦ rw own (refl, refl)
        | inr other ↦
            rw other (target_named-IsFor l visitor now order override (parse_addr override))
      ]

  -- Where the headers of Cloudflare are not trusted, only the host, the peer's address and the
  -- headers X-Real-IP and User-Agent count: two requests from one peer to one host that agree on
  -- these headers are inspected alike, whatever else their headers say.
  pub inspect-untrusted :
      (host_of : Text → Option Text) (r : Request) (forged : Text → Text)
      → forged (bytes "X-Real-IP") ≡ r.header (bytes "X-Real-IP")
      → forged (bytes "User-Agent") ≡ r.header (bytes "User-Agent")
      → inspect parse_addr host_of false (record r { header = forged })
        ≡ inspect parse_addr host_of false r
  unfolding inspect peer_ip
  inspect-untrusted host_of r forged real ua = rw (real, ua)
