-- ===== src/View/Words.antt =====
-- What the texts shown to a visitor keep of what they show.
use ip_unt1_com.Prelude.{
  ℕ, ◌≡◌, refl, Bool, false, not, ◌&&◌, ◌||◌, List, [], ◌∷◌, ◌++◌, Text, bytes, text_eq,
  if◌then◌else◌, is_empty, Bool-cases, Option-cases, inl, inr, arith, ◌∙◌, ap, ◌⊎◌, sym, subst,
  ◌==◌, lookup,
}
use ip_unt1_com.Strings.{split, onto_head, join, contains_text}
use ip_unt1_com.Net.{Addr, is_valid, canonical_ip}
use ip_unt1_com.Net.Equality.{addr_instance, prefix_instance}
use ip_unt1_com.Asn.{AsnInfo}
use ip_unt1_com.Vpn.{
  VpnVerdict, VpnSnapshot, check, check_exact, check_near, check_cidr, check_asn, append_source,
  no_verdict,
}
use ip_unt1_com.View.{
  IpPart, interleave, split_ip_parts, split_from, split_top_level, classify_verdict,
}

join-onto_head :
    (c sep : ℕ) (ps : List Text) → join (onto_head c ps) (sep ∷ []) ≡ c ∷ join ps (sep ∷ [])
unfolding join
join-onto_head c sep [] = refl
join-onto_head c sep (p ∷ []) = refl
join-onto_head c sep (p ∷ q ∷ ps) = refl

join-nil :
    (sep : ℕ) (ps : List Text)
    → is_empty ps ≡ false
    → join ([] ∷ ps) (sep ∷ []) ≡ sep ∷ join ps (sep ∷ [])
unfolding join
join-nil sep [] h = absurd (ground arith)
join-nil sep (p ∷ ps) h = refl

nonempty-onto_head : (c : ℕ) (ps : List Text) → is_empty (onto_head c ps) ≡ false
nonempty-onto_head c [] = refl
nonempty-onto_head c (p ∷ ps) = refl

nonempty-split_from :
    (inside : Bool) (s : Text) (sep : ℕ) → is_empty (split_from inside s sep) ≡ false
unfolding split_from
nonempty-split_from inside [] sep = refl
nonempty-split_from inside (c ∷ s) sep = ground (
  arith,
  nonempty-onto_head c (split_from (not inside) s sep),
  nonempty-onto_head c (split_from inside s sep),
)

join-split_from :
    (inside : Bool) (s : Text) (sep : ℕ) → join (split_from inside s sep) (sep ∷ []) ≡ s
unfolding split_from
join-split_from inside [] sep = unfold join in refl
join-split_from inside (c ∷ s) sep = elim (Bool-cases (c == 34)) [
  | inl quote ↦ rw quote (
      join-onto_head c sep (split_from (not inside) s sep)
      ∙ ap (λ t. c ∷ t) (join-split_from (not inside) s sep))
  | inr other ↦ elim (Bool-cases (c == sep && not inside)) [
    | inl cut ↦
        let same : c ≡ sep = ground arith in
        rw (other, cut)
          (join-nil sep (split_from inside s sep) (nonempty-split_from inside s sep)
            ∙ rw (join-split_from inside s sep, same))
    | inr keep ↦
        rw (other, keep)
          (join-onto_head c sep (split_from inside s sep)
            ∙ ap (λ t. c ∷ t) (join-split_from inside s sep))
  ]
]

-- Splitting outside quotes loses nothing: the pieces, joined by the separator, are the text.
pub join-split_top_level : (s : Text) (sep : ℕ) → join (split_top_level s sep) (sep ∷ []) ≡ s
unfolding split_top_level
join-split_top_level s sep = join-split_from false s sep

-- The text that the parts show.
pub shown : List IpPart → Text
shown [] = []
shown (p ∷ ps) = p.v ++ shown ps

nonempty-split : (s : Text) (sep : ℕ) → is_empty (split s sep) ≡ false
unfolding split
nonempty-split [] sep = refl
nonempty-split (c ∷ s) sep = ground (arith, nonempty-onto_head c (split s sep))

join-split : (s : Text) (sep : ℕ) → join (split s sep) (sep ∷ []) ≡ s
unfolding split
join-split [] sep = unfold join in refl
join-split (c ∷ s) sep = elim (Bool-cases (c == sep)) [
  | inl cut ↦
      let same : c ≡ sep = ground arith in
      rw cut (join-nil sep (split s sep) (nonempty-split s sep) ∙ rw (join-split s sep, same))
  | inr keep ↦ rw keep (join-onto_head c sep (split s sep) ∙ ap (λ t. c ∷ t) (join-split s sep))
]

append-nil : (s : Text) → s ++ [] ≡ s
append-nil [] = refl
append-nil (c ∷ s) = ap (λ t. c ∷ t) (append-nil s)

shown-interleave : (c : ℕ) (ps : List Text) → shown (interleave c ps) ≡ join ps (c ∷ [])
unfolding shown interleave join
shown-interleave c [] = refl
shown-interleave c (p ∷ []) = append-nil p
shown-interleave c (p ∷ q ∷ ps) = ap (λ t. p ++ c ∷ t) (shown-interleave c (q ∷ ps))

-- The parts of an address, shown one after the other, are the address.
pub shown-split_ip_parts : (ip : Text) → shown (split_ip_parts ip) ≡ ip
unfolding split_ip_parts
shown-split_ip_parts [] = unfold shown in refl
shown-split_ip_parts (x ∷ ip) =
    let c = if contains_text (x ∷ ip) (bytes ":") then b':' else b'.' in
    shown-interleave c (split (x ∷ ip) c) ∙ join-split (x ∷ ip) c

-- A visitor is shown as clean only if no flag is raised and the lists were loaded.
pub classify_verdict-clean :
    (v : VpnVerdict)
    → text_eq (classify_verdict v).stamp (bytes "Clean")
      ≡ (not (v.tor || v.privacy_proxy || v.vpn || v.hosting) && v.ready)
unfolding classify_verdict text_eq bytes
classify_verdict-clean v = ground arith

-- The name that `sourceLabel` has for a published address in a rented network.
abbrev pub is_reversed : Text → Bool
is_reversed s = text_eq s (bytes "asn+ip-list")

-- Neither the text nor what the network adds to it is that name.
abbrev IsOther : Text → Type 0
IsOther s =
    (is_reversed s ≡ false)
    × (is_reversed (append_source s (bytes "asn")) ≡ false)
    × (is_reversed (append_source s (bytes "asn-hosting")) ≡ false)

check_asn-other :
    (asn : AsnInfo) (v : VpnVerdict)
    → IsOther v.source
    → is_reversed (check_asn asn v).source ≡ false
unfolding check_asn
check_asn-other asn v h = ground (arith, h)

check_exact-source :
    (snap : VpnSnapshot) (ip : Addr) (p : Text) (v : VpnVerdict)
    → (check_exact snap ip p v).source ≡ bytes "ip-list"
unfolding check_exact
check_exact-source snap ip p v = ground arith

near-other :
    (snap : VpnSnapshot) (ip : Addr) (v : VpnVerdict)
    → ((check_near snap ip v).source ≡ v.source)
      ⊎ ((check_near snap ip v).source ≡ bytes "ip-prefix")
unfolding check_near
near-other snap ip v = ground arith

cidr-other :
    (snap : VpnSnapshot) (ip : Addr) (v : VpnVerdict)
    → ((check_cidr snap ip v).source ≡ v.source)
      ⊎ ((check_cidr snap ip v).source ≡ append_source v.source (bytes "cidr"))
unfolding check_cidr
cidr-other snap ip v = ground arith

abbrev Both : Text → Type 0
Both s = IsOther s × IsOther (append_source s (bytes "cidr"))

Both-blank : Both []
unfolding append_source text_eq bytes split
Both-blank = ((refl, refl, refl), (refl, refl, refl))

Both-near : Both (bytes "ip-prefix")
unfolding append_source text_eq bytes split
Both-near = ((refl, refl, refl), (refl, refl, refl))

IsOther-exact : IsOther (bytes "ip-list")
unfolding append_source text_eq bytes split
IsOther-exact = (refl, refl, refl)

Both-check_near :
    (snap : VpnSnapshot) (ip : Addr) (ready : Bool)
    → Both (check_near snap ip (no_verdict ready)).source
Both-check_near snap ip ready = elim (near-other snap ip (no_verdict ready)) [
  | inl same ↦ subst Both (sym same) Both-blank
  | inr near ↦ subst Both (sym near) Both-near
]

IsOther-check_cidr :
    (snap : VpnSnapshot) (ip : Addr) (v : VpnVerdict)
    → Both v.source
    → IsOther (check_cidr snap ip v).source
IsOther-check_cidr snap ip v h = elim (cidr-other snap ip v) [
  | inl same ↦ subst IsOther (sym same) h.0
  | inr cidr ↦ subst IsOther (sym cidr) h.1
]

-- No verdict of `Check` has the source "asn+ip-list", for which `sourceLabel` has words of its
-- own: a published address in a rented network has the words the other way round.
pub check-source :
    (snap : VpnSnapshot) (addr : Addr) (asn : AsnInfo)
    → is_reversed (check snap addr asn).source ≡ false
unfolding check
check-source snap addr asn =
    let v = no_verdict snap.ready in
    let ip = canonical_ip addr in
    elim (Bool-cases (is_valid addr)) [
      | inr bad ↦ rw (bad, check) (Both-blank.0.0)
      | inl valid ↦ elim (Option-cases (lookup (canonical_ip addr) snap.ips)) [
        | inr (p, hit) ↦
            rw (valid, hit, check)
              (check_asn-other asn (check_exact snap ip p v)
                (subst IsOther (sym (check_exact-source snap ip p v)) IsOther-exact))
        | inl miss ↦
            rw (valid, miss, check)
              (check_asn-other asn (check_cidr snap ip (check_near snap ip v)) (
                IsOther-check_cidr snap ip (check_near snap ip v)
                  (Both-check_near snap ip snap.ready)))
      ]
    ]
