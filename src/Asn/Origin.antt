-- ===== src/Asn/Origin.antt =====
-- asn.go: an answer of the Cymru name service, written and read back by `parseOriginTXT`.
use ip_unt1_com.Prelude.{
  ℕ, ◌^◌, ◌<◌, ◌≡◌, refl, false, [], ◌∷◌, ◌++◌, map, some, Text, ◌==◌, is_empty, arith, ◌∙◌, ap,
}
use ip_unt1_com.Prelude.Int.{ℤ, pos}
use ip_unt1_com.Strings.{split, trim_space, is_space, itoa, digits_value}
use ip_unt1_com.Strings.Split.{occurs, split-piece, split-whole}
use ip_unt1_com.Strings.Trim.{trim_space-around, trim_space-front, trim_space-back, trim_space-none}
use ip_unt1_com.Strings.Digits.{digits_value-itoa, nonempty-itoa, any-digits}
use ip_unt1_com.Asn.{atoi, first_word, of_parts, parse_origin_txt}

-- A field of an answer: no bar in it, and no white space around it.
pub record IsField (s : Text) : Type 0 where
  pub whole : occurs b'|' s ≡ false
  pub trimmed : trim_space s ≡ s

-- An answer as the service writes it: "ASN | prefix | country | registry | date".
pub write_origin : ℕ → Text → Text → Text → Text → Text
write_origin n prefix country rir allocated =
    (itoa n ++ 32 ∷ [])
    ++ b'|'
      ∷ ((32 ∷ (prefix ++ 32 ∷ []))
          ++ b'|'
            ∷ ((32 ∷ (country ++ 32 ∷ []))
                ++ b'|' ∷ ((32 ∷ (rir ++ 32 ∷ [])) ++ b'|' ∷ (32 ∷ allocated))))

occurs-around : (s : Text) → occurs b'|' s ≡ false → occurs b'|' (s ++ 32 ∷ []) ≡ false
occurs-around [] h = refl
occurs-around (x ∷ s) h = ground (arith, occurs-around s)

atoi-digits :
    (s : Text) (n : ℕ)
    → is_empty s ≡ false
    → digits_value s 0 ≡ some n
    → n < 2 ^ 63
    → atoi s ≡ some (pos n)
unfolding atoi digits_value
atoi-digits [] n e h lt = absurd (ground arith)
atoi-digits (c ∷ s) n e h lt = ground (arith, h, lt)

-- The number of a network, as the reader finds it.
itoa-IsWord :
    (n : ℕ)
    → (occurs b'|' (itoa n ++ 32 ∷ []) ≡ false)
      × (trim_space (itoa n ++ 32 ∷ []) ≡ itoa n)
      × (split (itoa n) b' ' ≡ itoa n ∷ [])
unfolding is_space
itoa-IsWord n =
    let read = digits_value-itoa n in
    (
      occurs-around (itoa n) (any-digits (λ c. c == b'|') (λ c h. ground arith) (itoa n) 0 n read),
      trim_space-back (itoa n)
          ∙ trim_space-none (itoa n) (any-digits is_space (λ c h. ground arith) (itoa n) 0 n read),
      split-whole (itoa n) b' '
          (any-digits (λ c. c == b' ') (λ c h. ground arith) (itoa n) 0 n read),
    )

abbrev spaced : Text → Text
spaced s = 32 ∷ (s ++ 32 ∷ [])

split-field : (s t : Text) → IsField s → split (spaced s ++ b'|' ∷ t) b'|' ≡ spaced s ∷ split t b'|'
split-field s t f = split-piece (spaced s) t b'|' (occurs-around s f.whole)

split-write_origin :
    (n : ℕ) (prefix country rir allocated : Text)
    → IsField prefix
    → IsField country
    → IsField rir
    → IsField allocated
    → split (write_origin n prefix country rir allocated) b'|'
      ≡ (itoa n ++ 32 ∷ []) ∷ spaced prefix ∷ spaced country ∷ spaced rir ∷ (32 ∷ allocated) ∷ []
unfolding write_origin
split-write_origin n prefix country rir allocated p c r a =
    let last = split-whole (32 ∷ allocated) b'|' a.whole in
    let three = split-field rir (32 ∷ allocated) r ∙ ap (λ ps. spaced rir ∷ ps) last in
    let two = split-field country _ c ∙ ap (λ ps. spaced country ∷ ps) three in
    let one = split-field prefix _ p ∙ ap (λ ps. spaced prefix ∷ ps) two in
    split-piece (itoa n ++ 32 ∷ []) _ b'|' (itoa-IsWord n).0
    ∙ ap (λ ps. (itoa n ++ 32 ∷ []) ∷ ps) one

of_parts-known :
    (w prefix country rir allocated : Text) (n : ℤ)
    → atoi (first_word (split w b' ')) ≡ some n
    → of_parts (w ∷ prefix ∷ country ∷ rir ∷ allocated ∷ []) ≡ record {
      asn = n;
      org = [];
      prefix = prefix;
      rir = rir;
      allocated = allocated;
      country = country;
    }
unfolding of_parts
of_parts-known w prefix country rir allocated n h = rw (h, of_parts) refl

-- What the service writes of a network is read back: its number, as far as an `int` holds it, its
-- prefix, country, registry and date, where these hold no bar and no white space at the ends.
pub parse_origin_txt-write_origin :
    (n : ℕ) (prefix country rir allocated : Text)
    → n < 2 ^ 63
    → IsField prefix
    → IsField country
    → IsField rir
    → IsField allocated
    → parse_origin_txt (write_origin n prefix country rir allocated) ≡ record {
      asn = pos n;
      org = [];
      prefix = prefix;
      rir = rir;
      allocated = allocated;
      country = country;
    }
unfolding parse_origin_txt
parse_origin_txt-write_origin n prefix country rir allocated lt p c r a =
    let word = itoa-IsWord n in
    let number = atoi-digits (itoa n) n (nonempty-itoa n) (digits_value-itoa n) lt in
    ap (λ ps. of_parts (map trim_space ps))
      (split-write_origin n prefix country rir allocated p c r a)
    ∙ rw
        (
          word.1,
          trim_space-around prefix,
          trim_space-around country,
          trim_space-around rir,
          trim_space-front allocated,
          p.trimmed,
          c.trimmed,
          r.trimmed,
          a.trimmed,
        )
        (of_parts-known (itoa n) prefix country rir allocated (pos n)
          (ap (λ ws. atoi (first_word ws)) word.2 ∙ number))
