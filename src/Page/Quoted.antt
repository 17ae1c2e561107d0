-- ===== src/Page/Quoted.antt =====
-- main.go: the values that `emit` of `writeYAML` writes, read back.
use ip_unt1_com.Prelude.{
  ℕ, ◌<◌, ◌≡◌, refl, Bool, false, [], ◌∷◌, ◌++◌, Option, none, some, Text, bytes, ◌==◌,
  if◌then◌else◌, any, Bool-cases, inl, inr, arith, ◌∙◌, ap, All,
}
use mathlib.Core.List.{append_assoc}
use ip_unt1_com.Strings.Quote.{escape_from, quote}
use ip_unt1_com.Strings.Unquote.{plain, onto, read_quoted}
use ip_unt1_com.Strings.Reread.{read_quoted-quote}
use ip_unt1_com.Page.Yaml.{special, is_quoted, scalar}

-- Reads up to the end of the line.
read_line : Text → Option (Text × Text)
read_line [] = none
read_line (c ∷ s) =
    let rest = onto (c ∷ []) (read_line s) in if c == 10 then some ([], c ∷ s) else rest

-- Reads a value: quoted if it begins with a quote, and otherwise the rest of the line.
pub read_scalar : Text → Option (Text × Text)
read_scalar [] = none
read_scalar (c ∷ s) =
    let quoted = read_quoted plain s in
    let line = read_line (c ∷ s) in if c == 34 then quoted else line

read_scalar-quote :
    (is_print : ℕ → Bool) (s t : Text)
    → All (λ c. c < 256) s
    → read_scalar (quote is_print s ++ t) ≡ some (s, t)
unfolding quote read_scalar
read_scalar-quote is_print s t h =
    ap (read_quoted plain) (append_assoc (escape_from is_print 0 s) (34 ∷ []) t)
    ∙ read_quoted-quote is_print s t h

plain-byte : (c : ℕ) → any (λ d. d == c) special ≡ false → ((c == 10) ≡ false) × ((c == 34) ≡ false)
unfolding special bytes
plain-byte c h = ground arith

read_line-plain :
    (v t : Text)
    → any (λ c. any (λ d. d == c) special) v ≡ false
    → read_line (v ++ 10 ∷ t) ≡ some (v, 10 ∷ t)
unfolding read_line onto
read_line-plain [] t h = refl
read_line-plain (c ∷ v) t h = ground (arith, plain-byte c, read_line-plain v t)

read_scalar-bare : (v t : Text) → is_quoted v ≡ false → read_scalar (v ++ 10 ∷ t) ≡ some (v, 10 ∷ t)
unfolding is_quoted read_scalar
read_scalar-bare [] t h = unfold read_line in refl
read_scalar-bare (c ∷ v) t h = ground (arith, plain-byte c, read_line-plain (c ∷ v) t)

-- A value that `emit` writes, whatever bytes it holds and whichever characters from 128 on count as
-- printable, is read back as it was, up to the line feed that ends its line and no further, by a
-- reader that knows the escapes of quoted text.
pub read_scalar-scalar :
    (is_print : ℕ → Bool) (v t : Text)
    → All (λ c. c < 256) v
    → read_scalar (scalar is_print v ++ 10 ∷ t) ≡ some (v, 10 ∷ t)
unfolding scalar
read_scalar-scalar is_print v t h = elim (Bool-cases (is_quoted v)) [
  | inl quoted ↦ rw quoted (read_scalar-quote is_print v (10 ∷ t) h)
  | inr bare ↦ rw bare (read_scalar-bare v t bare)
]
