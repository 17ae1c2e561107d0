-- ===== src/Page/Lines.antt =====
-- main.go: the lines of the view that `writeYAML` writes.
use ip_unt1_com.Prelude.{
  ℕ, zero, suc, ◌+◌, ◌/◌, ◌%◌, ◌≡◌, refl, Bool, true, false, List, [], ◌∷◌, ◌++◌, Text, bytes,
  if◌then◌else◌, is_empty, any, map, ◌==◌, length, All, Bool-cases, inl, inr, arith, ap, ◌∙◌,
}
use ip_unt1_com.Prelude.Int.{ℤ, pos, negsuc}
use ip_unt1_com.Strings.{itoa, digits_from}
use ip_unt1_com.Net.Show.{hex_digit}
use ip_unt1_com.Strings.Quote.{
  escape, hex_pad, rune_text, wide, piece, byte_at, rune_two, rune_three, rune_four, is_two,
  is_three, is_four, escape_from, quote,
}
use ip_unt1_com.Asn.{itoa_ℤ}
use ip_unt1_com.Page.{Dataset}
use ip_unt1_com.Page.Rows.{Row, true_false, print_row, print_rows}
use ip_unt1_com.Page.Yaml.{
  special, is_quoted, scalar, top_rows, verdict_rows, reasons_text, reason_row, yaml_text,
}

-- The line feeds of a text.
abbrev pub breaks : Text → ℕ
breaks [] = 0
breaks (c ∷ s) = (if c == 10 then 1 else 0) + breaks s

pub breaks-append : (s t : Text) → breaks (s ++ t) ≡ breaks s + breaks t
breaks-append [] t = omega arith
breaks-append (c ∷ s) t = omega (arith, breaks-append s t)

-- The rows that are shown.
abbrev pub shown_rows : List Row → ℕ
shown_rows [] = 0
shown_rows (r ∷ rs) = (if r.shown then 1 else 0) + shown_rows rs

-- A row that is one line if it is shown.
abbrev IsLine : Row → Type 0
IsLine r = (breaks r.label ≡ 0) × (breaks r.value ≡ 0)

breaks-print_row :
    (sep : Text) (r : Row)
    → breaks sep ≡ 0
    → IsLine r
    → breaks (print_row sep r) ≡ (if r.shown then 1 else 0)
unfolding print_row
breaks-print_row sep r e h = ground (
  arith,
  e,
  h,
  breaks-append r.label (sep ++ (r.value ++ 10 ∷ [])),
  breaks-append sep (r.value ++ 10 ∷ []),
  breaks-append r.value (10 ∷ []),
)

breaks-print_rows :
    (sep : Text) (rs : List Row)
    → breaks sep ≡ 0
    → All IsLine rs
    → breaks (print_rows sep rs) ≡ shown_rows rs
unfolding print_rows
breaks-print_rows sep [] e h = refl
breaks-print_rows sep (r ∷ rs) e h = omega (
  arith,
  breaks-append (print_row sep r) (print_rows sep rs),
  breaks-print_row sep r e h.0,
  breaks-print_rows sep rs e h.1,
)

-- Quoted text has no line feed.
breaks-escape : (c : ℕ) → breaks (escape c) ≡ 0
unfolding escape bytes hex_digit
breaks-escape c = ground arith

breaks-hex_pad : (k n : ℕ) (acc : Text) → breaks (hex_pad k n acc) ≡ breaks acc
unfolding hex_pad
breaks-hex_pad zero n acc = refl
breaks-hex_pad (suc k) n acc =
    breaks-hex_pad k (n / 16) (hex_digit (n % 16) ∷ acc) ∙ (unfold hex_digit in ground arith)

breaks-rune_text :
    (is_print : ℕ → Bool) (r : ℕ) (encoded : Text)
    → breaks encoded ≡ 0
    → breaks (rune_text is_print r encoded) ≡ 0
unfolding rune_text bytes
breaks-rune_text is_print r encoded h =
    ground (arith, h, breaks-hex_pad 4 r [], breaks-hex_pad 8 r [])

breaks-coded : (c : ℕ) → breaks (bytes "\\x" ++ hex_digit (c / 16) ∷ hex_digit (c % 16) ∷ []) ≡ 0
unfolding bytes hex_digit
breaks-coded c = ground arith

breaks-wide : (is_print : ℕ → Bool) (c b d e : ℕ) → breaks (wide is_print c b d e).0 ≡ 0
unfolding wide
breaks-wide is_print c b d e = elim (Bool-cases (is_two c b)) [
  | inl two ↦ rw two (breaks-rune_text is_print (rune_two c b) (c ∷ b ∷ []) (ground arith))
  | inr not_two ↦ elim (Bool-cases (is_three c b d)) [
    | inl three ↦
        rw (not_two, three)
          (breaks-rune_text is_print (rune_three c b d) (c ∷ b ∷ d ∷ []) (ground arith))
    | inr not_three ↦ elim (Bool-cases (is_four c b d e)) [
      | inl four ↦
          rw (not_two, not_three, four)
            (breaks-rune_text is_print (rune_four c b d e) (c ∷ b ∷ d ∷ e ∷ []) (ground arith))
      | inr not_four ↦ rw (not_two, not_three, not_four) (breaks-coded c)
    ]
  ]
]

breaks-piece : (is_print : ℕ → Bool) (c : ℕ) (s : Text) → breaks (piece is_print c s).0 ≡ 0
unfolding piece
breaks-piece is_print c s =
    ground
      (arith, breaks-escape c, breaks-wide is_print c (byte_at 0 s) (byte_at 1 s) (byte_at 2 s))

breaks-escape_from :
    (is_print : ℕ → Bool) (n : ℕ) (s : Text) → breaks (escape_from is_print n s) ≡ 0
unfolding escape_from
breaks-escape_from is_print zero [] = refl
breaks-escape_from is_print (suc n) [] = refl
breaks-escape_from is_print (suc n) (c ∷ s) = breaks-escape_from is_print n s
breaks-escape_from is_print zero (c ∷ s) =
    let n = (piece is_print c s).1 in
    omega (
      arith,
      breaks-append (piece is_print c s).0 (escape_from is_print n s),
      breaks-piece is_print c s,
      breaks-escape_from is_print n s,
    )

breaks-quote : (is_print : ℕ → Bool) (s : Text) → breaks (quote is_print s) ≡ 0
unfolding quote
breaks-quote is_print s =
    omega
      (arith, breaks-append (escape_from is_print 0 s) (34 ∷ []), breaks-escape_from is_print 0 s)

special-break : any (λ d. d == 10) special ≡ true
unfolding special bytes
special-break = refl

breaks-plain : (v : Text) → any (λ c. any (λ d. d == c) special) v ≡ false → breaks v ≡ 0
breaks-plain [] h = refl
breaks-plain (c ∷ v) h = elim (Bool-cases (c == 10)) [
  | inl cut ↦
      let e : c ≡ 10 = ground arith in
      absurd (ground (arith, ap (λ (x : ℕ). any (λ d. d == x) special) e, special-break, h))
  | inr other ↦ ground (arith, breaks-plain v, h)
]

breaks-scalar : (is_print : ℕ → Bool) (v : Text) → breaks (scalar is_print v) ≡ 0
unfolding scalar is_quoted
breaks-scalar is_print v = ground (arith, breaks-quote is_print v, breaks-plain v)

breaks-digits_from : (f n : ℕ) (acc : Text) → breaks acc ≡ 0 → breaks (digits_from f n acc) ≡ 0
unfolding digits_from
breaks-digits_from zero n acc h = h
breaks-digits_from (suc f) n acc h =
    ground (arith, breaks-digits_from f (n / 10) ((48 + n % 10) ∷ acc))

breaks-itoa_ℤ : (z : ℤ) → breaks (itoa_ℤ z) ≡ 0
unfolding itoa_ℤ itoa
breaks-itoa_ℤ (pos n) = breaks-digits_from (suc n) n [] refl
breaks-itoa_ℤ (negsuc n) = ground (arith, breaks-digits_from (suc (suc n)) (suc n) [] refl)

breaks-true_false : (b : Bool) → breaks (true_false b) ≡ 0
unfolding bytes
breaks-true_false true = refl
breaks-true_false false = refl

top_rows-IsLine : (is_print : ℕ → Bool) (d : Dataset) → All IsLine (top_rows is_print d)
unfolding top_rows bytes
top_rows-IsLine is_print d = search (breaks-scalar, breaks-itoa_ℤ)

verdict_rows-IsLine :
    (d : Dataset)
    → breaks d.vpn.provider ≡ 0
    → breaks d.vpn.source ≡ 0
    → All IsLine (verdict_rows d)
unfolding verdict_rows bytes
verdict_rows-IsLine d p s = search (breaks-true_false)

reason_rows-IsLine :
    (is_print : ℕ → Bool) (rs : List Text) → All IsLine (map (reason_row is_print) rs)
unfolding bytes
reason_rows-IsLine is_print [] = tt
reason_rows-IsLine is_print (r ∷ rs) =
    ((refl, breaks-quote is_print r), reason_rows-IsLine is_print rs)

shown_rows-reasons :
    (is_print : ℕ → Bool) (rs : List Text) → shown_rows (map (reason_row is_print) rs) ≡ length rs
shown_rows-reasons is_print [] = refl
shown_rows-reasons is_print (r ∷ rs) = omega (arith, shown_rows-reasons is_print rs)

breaks-reasons_text :
    (is_print : ℕ → Bool) (rs : List Text)
    → breaks (reasons_text is_print rs) ≡ (if is_empty rs then 0 else 1 + length rs)
unfolding reasons_text bytes
breaks-reasons_text is_print [] = refl
breaks-reasons_text is_print (r ∷ rs) =
    let rows = map (reason_row is_print) (r ∷ rs) in
    omega (
      arith,
      breaks-append (bytes "  reasons:\n") (print_rows [] rows),
      breaks-print_rows [] rows refl (reason_rows-IsLine is_print (r ∷ rs)),
      shown_rows-reasons is_print (r ∷ rs),
    )

-- Whatever bytes the values hold, the line feeds of the YAML view are those that end its lines: one
-- for each field that is shown, one for the heading of the verdict, and one for each reason with
-- their heading; only the provider and the source of the verdict, which are not quoted, must be free
-- of line feeds. Carriage returns, which some readers take for line ends too, are not counted.
pub breaks-yaml_text :
    (is_print : ℕ → Bool) (d : Dataset)
    → breaks d.vpn.provider ≡ 0
    → breaks d.vpn.source ≡ 0
    → breaks (yaml_text is_print d)
      ≡ shown_rows (top_rows is_print d)
        + (1
            + (shown_rows (verdict_rows d)
                + (if is_empty d.vpn.reasons then 0 else 1 + length d.vpn.reasons)))
unfolding yaml_text bytes
breaks-yaml_text is_print d p s =
    let top = print_rows (bytes ": ") (top_rows is_print d) in
    let rows = print_rows (bytes ": ") (verdict_rows d) in
    let reasons = reasons_text is_print d.vpn.reasons in
    omega (
      arith,
      breaks-append top (bytes "vpn:\n" ++ (rows ++ reasons)),
      breaks-append (bytes "vpn:\n") (rows ++ reasons),
      breaks-append rows reasons,
      breaks-print_rows (bytes ": ") (top_rows is_print d) refl (top_rows-IsLine is_print d),
      breaks-print_rows (bytes ": ") (verdict_rows d) refl (verdict_rows-IsLine d p s),
      breaks-reasons_text is_print d.vpn.reasons,
    )
