-- ===== src/Signals/Kept.antt =====
-- signals.go: who shares an answer of WHOIS, and for how long.
use ip_unt1_com.Prelude.{
  ℕ, ◌+◌, ◌<◌, ◌≡◌, refl, true, false, [], Option, none, some, Text, if◌then◌else◌, ltb, is_empty,
  arith, ◌∙◌, ap,
}
use ip_unt1_com.Prelude.Int.{ℤ, pos}
use ip_unt1_com.Strings.{to_lower, trim_space}
use ip_unt1_com.Net.{Addr, canonical_ip, is_routable}
use ip_unt1_com.Net.Show.{show_addr}
use ip_unt1_com.Cache.{TtlCache, get}
use ip_unt1_com.Cache.Alone.{Times, do_alone, do_alone_again, HasPlace}
use ip_unt1_com.Signals.{
  WhoisAnswer, query_whois, server_for, whois_answer, whois_key, lookup_whois, whois_ttl,
  whois_error_ttl,
}

abbrev pub norm : Text → Text
norm rir = to_lower (trim_space rir)

-- An empty label stands for none.
abbrev pub shown : Text → Option Text
shown label = if is_empty label then none else some label

-- What a look-up that no other one meets, and that has a place in the semaphore, asks and keeps.
module _ (dial : Text → Text → WhoisAnswer) where
  abbrev pub label_for : Text → Addr → Text
  label_for rir ip = elim (query_whois dial (server_for rir) (show_addr ip)) [
    | none ↦ []
    | some label ↦ label
  ]

  -- A day for an answer, five minutes for a failure.
  abbrev pub ttl_for : Text → Addr → ℕ
  ttl_for rir ip = elim (query_whois dial (server_for rir) (show_addr ip)) [
    | none ↦ whois_error_ttl
    | some label ↦ whois_ttl
  ]

  abbrev answer_for : Text → Addr → Text × ℤ
  answer_for rir ip = let (label, ttl) = whois_answer true dial rir ip in (label, pos ttl)

  whois_answer_cases :
      (rir : Text) (ip : Addr) → whois_answer true dial rir ip ≡ (label_for rir ip, ttl_for rir ip)
  unfolding whois_answer
  whois_answer_cases rir ip = ground arith

  abbrev pub after_lookup : TtlCache Text → Times → Addr → Text → Text → TtlCache Text
  after_lookup c t ip prefix rir =
      (do_alone c (whois_key ip prefix rir) t (answer_for (norm rir) ip)).0

  abbrev pub lookup_at : TtlCache Text → Times → Addr → Text → Text → Option Text
  lookup_at c t = lookup_whois (λ key rir ip. (do_alone c key t (answer_for rir ip)).1)

  lookup_at-routable :
      (c : TtlCache Text) (t : Times) (a : Addr) (prefix rir : Text)
      → is_routable (canonical_ip a) ≡ true
      → lookup_at c t a prefix rir
        ≡ shown
            (do_alone c
              (whois_key (canonical_ip a) prefix rir)
              t
              (answer_for (norm rir) (canonical_ip a))).1
  unfolding lookup_whois
  lookup_at-routable c t a prefix rir routable = rw routable refl

  ttl_for_pos : (rir : Text) (ip : Addr) → 0 < ttl_for rir ip
  ttl_for_pos rir ip = ground arith

-- In one announced prefix all addresses share a key, whatever the case of the registry's name.
whois_key_shared :
    (a b : Addr) (prefix rir rir' : Text)
    → is_empty prefix ≡ false
    → norm rir' ≡ norm rir
    → whois_key b prefix rir' ≡ whois_key a prefix rir
unfolding whois_key
whois_key_shared a b prefix rir rir' named same = rw (named, same) refl

-- Addresses of one announced prefix share an answer of WHOIS: what was found for one of them is
-- given for every other, from the same registry, as long as it is kept, which is a day for an
-- answer and five minutes for a failure, and is asked for anew from then on; this where the cache
-- did not have the prefix and has room for it, and no two look-ups meet.
pub lookup_whois_again :
    (dial dial' : Text → Text → WhoisAnswer) (c : TtlCache Text) (t u : Times) (a b : Addr)
    (prefix rir rir' : Text)
    → is_empty prefix ≡ false
    → norm rir' ≡ norm rir
    → is_routable (canonical_ip b) ≡ true
    → get c (whois_key (canonical_ip a) prefix rir) t.entered ≡ none
    → HasPlace c
        (whois_key (canonical_ip a) prefix rir)
        (label_for dial (norm rir) (canonical_ip a))
        (t.stored + ttl_for dial (norm rir) (canonical_ip a))
    → lookup_at dial' (after_lookup dial c t (canonical_ip a) prefix rir) u b prefix rir'
      ≡ shown (
          if ltb u.entered (t.stored + ttl_for dial (norm rir) (canonical_ip a))
          then label_for dial (norm rir) (canonical_ip a)
          else label_for dial' (norm rir) (canonical_ip b))
lookup_whois_again dial dial' c t u a b prefix rir rir' named same routable miss place =
    let ip = canonical_ip a in
    let other = canonical_ip b in
    let key = whois_key ip prefix rir in
    let c' = after_lookup dial c t ip prefix rir in
    lookup_at-routable dial' c' u b prefix rir' routable
    ∙ ap (λ k. shown (do_alone c' k u (answer_for dial' (norm rir') other)).1)
        (whois_key_shared ip other prefix rir rir' named same)
    ∙ ap (λ r. shown (do_alone c' key u (answer_for dial' r other)).1) same
    ∙ ap
        (λ w.
          shown
            (do_alone (do_alone c key t (w.0, pos w.1)).0 key u
              (answer_for dial' (norm rir) other)).1)
        (whois_answer_cases dial (norm rir) ip)
    ∙ ap shown (
        do_alone_again c key t u (label_for dial (norm rir) ip) (ttl_for dial (norm rir) ip)
          (answer_for dial' (norm rir) other) miss (ttl_for_pos dial (norm rir) ip) place)
    ∙ ap
        (λ w. shown (
          if ltb u.entered (t.stored + ttl_for dial (norm rir) ip)
          then label_for dial (norm rir) ip
          else w.0))
        (whois_answer_cases dial' (norm rir) other)
