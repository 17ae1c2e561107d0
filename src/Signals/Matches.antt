-- ===== src/Signals/Matches.antt =====
-- signals.go: what the scan of a WHOIS answer finds.
use ip_unt1_com.Prelude.{
  ◌≡◌, refl, inl, inr, Bool, true, false, not, List, [], ◌∷◌, ◌++◌, Option, none, some, Text, bytes,
  if◌then◌else◌, is_empty, any, ◌==◌, filter, All, All-append, Bool-cases, arith, ◌∙◌, ap,
}
use ip_unt1_com.Strings.{to_lower, trim_space, contains_text, has_prefix}
use ip_unt1_com.Signals.{
  Hint, whois_brand_hints, identity_fields, is_skipped, first_hint, scan_lines, WhoisAnswer, lines,
  whois_query, query_whois,
}

abbrev low : Text → Text
low l = to_lower (trim_space l)

-- The line is of a field that identifies the network.
abbrev pub identifies : Text → Bool
identifies l = any (λ f. has_prefix (low l) f) identity_fields

-- The hints that a line names.
abbrev pub hints_in : Text → List Hint
hints_in l =
    if identifies l then filter (λ h. contains_text (low l) h.needle) whois_brand_hints else []

-- Every hint that an answer names, line by line.
pub matches : List Text → List Hint
matches [] = []
matches (l ∷ ls) = hints_in l ++ matches ls

abbrev pub first_label : List Hint → Option Text
first_label [] = none
first_label (h ∷ hs) = some h.label

first_hint-filter :
    (hs : List Hint) (s : Text)
    → first_hint hs s ≡ first_label (filter (λ h. contains_text s h.needle) hs)
unfolding first_hint
first_hint-filter [] s = refl
first_hint-filter (h ∷ hs) s = ground (arith, first_hint-filter hs s)

abbrev is_named : Text → Bool
is_named s = any (λ f. has_prefix s f) identity_fields

comment_unnamed :
    (s : Text)
    → (is_named (b'%' ∷ s) ≡ false) × (is_named (b'#' ∷ s) ≡ false) × (is_named [] ≡ false)
unfolding identity_fields has_prefix bytes
comment_unnamed s = (refl, refl, refl)

-- A line that identifies the network is no comment and is not blank.
skipped_unnamed : (s : Text) → is_skipped s ≡ not (is_named s)
unfolding is_skipped has_prefix
skipped_unnamed [] = rw ((comment_unnamed []).2)
skipped_unnamed (c ∷ s) = elim (Bool-cases (c == b'%')) [
  | inl percent ↦ let e : c ≡ b'%' = ground arith in rw (e, (comment_unnamed s).0) refl
  | inr other ↦ elim (Bool-cases (c == b'#')) [
    | inl hash ↦ let e : c ≡ b'#' = ground arith in rw (e, (comment_unnamed s).1) refl
    | inr text ↦ rw (other, text) refl
  ]
]

-- No hint has an empty label.
hints_labelled : All (λ h. is_empty h.label ≡ false) whois_brand_hints
unfolding whois_brand_hints bytes
hints_labelled = ground arith

abbrev HasLabel : Hint → Type 0
HasLabel h = is_empty h.label ≡ false

filter-HasLabel : (p : Hint → Bool) (hs : List Hint) → All HasLabel hs → All HasLabel (filter p hs)
filter-HasLabel p [] a = tt
filter-HasLabel p (h ∷ hs) (one, a) = ground (arith, filter-HasLabel p hs a)

hints_in-HasLabel : (l : Text) → All HasLabel (hints_in l)
hints_in-HasLabel l = elim (Bool-cases (identifies l)) [
  | inl named ↦ rw named (filter-HasLabel _ whois_brand_hints hints_labelled)
  | inr other ↦ rw other tt
]

matches-HasLabel : (ls : List Text) → All HasLabel (matches ls)
unfolding matches
matches-HasLabel [] = tt
matches-HasLabel (l ∷ ls) =
    All-append HasLabel (hints_in l) (matches ls) (hints_in-HasLabel l) (matches-HasLabel ls)

abbrev or_empty : Option Text → Text
or_empty none = []
or_empty (some label) = label

abbrev or_else : Option Text → Text → Text
or_else none rest = rest
or_else (some label) rest = label

or_else-first_label :
    (hs ms : List Hint)
    → or_else (first_label hs) (or_empty (first_label ms)) ≡ or_empty (first_label (hs ++ ms))
or_else-first_label [] ms = refl
or_else-first_label (h ∷ hs) ms = refl

elim-or_else :
    (o : Option Text) (rest : Text)
    → (elim o as (λ _. Text) [ none ↦ rest | some label ↦ label ]) ≡ or_else o rest
elim-or_else none rest = refl
elim-or_else (some label) rest = refl

scan_lines-matches : (ls : List Text) → scan_lines ls ≡ or_empty (first_label (matches ls))
unfolding scan_lines matches
scan_lines-matches [] = refl
scan_lines-matches (l ∷ ls) =
    let rest = scan_lines-matches ls in
    let skips = skipped_unnamed (low l) in
    let named = filter (λ h. contains_text (low l) h.needle) whois_brand_hints in
    elim (Bool-cases (identifies l)) [
      | inr other ↦ rw (skips, other, rest) refl
      | inl found ↦
          rw (skips, found, first_hint-filter whois_brand_hints (low l))
            (elim-or_else (first_label named) (scan_lines ls)
              ∙ ap (or_else (first_label named)) rest
              ∙ or_else-first_label named (matches ls))
    ]

-- What an answer says: the brand that it names first, and otherwise none, or a failure if the
-- connection broke off.
abbrev pub verdict_on : List Hint → Bool → Option Text
verdict_on (h ∷ hs) broke = some h.label
verdict_on [] true = none
verdict_on [] false = some []

verdict_on-label :
    (hs : List Hint) (broke : Bool)
    → All HasLabel hs
    → (if not (is_empty (or_empty (first_label hs)))
        then some (or_empty (first_label hs))
        else if broke
        then none
        else some [])
      ≡ verdict_on hs broke
verdict_on-label [] true a = refl
verdict_on-label [] false a = refl
verdict_on-label (h ∷ hs) broke (one, a) = rw one refl

-- A query of WHOIS finds the first of all hints that the lines of the answer name, in the order of
-- the lines and then of the table, where only lines of the fields that identify the network count;
-- without one it finds no brand if the answer is whole, and fails if the connection broke off, also
-- before the first line.
pub query_whois-matches :
    (dial : Text → Text → WhoisAnswer) (server ip : Text) (ls : List Text) (broke : Bool)
    → dial server (whois_query server ip) ≡ lines ls broke
    → query_whois dial server ip ≡ verdict_on (matches ls) broke
unfolding query_whois
query_whois-matches dial server ip ls broke answer =
    rw (answer, query_whois)
      (rw (scan_lines-matches ls) (verdict_on-label (matches ls) broke (matches-HasLabel ls)))
