-- ===== src/Page/Reading.antt =====
-- main.go: the view of `handleTrace`, read back.
use ip_unt1_com.Prelude.{
  ℕ, ◌≡◌, refl, false, List, [], ◌∷◌, ◌++◌, Text, bytes, if◌then◌else◌, is_empty, any, ◌==◌, All,
  Bool-cases, inl, inr, arith, ◌∙◌, ap,
}
use mathlib.Core.List.{append_assoc}
use ip_unt1_com.Strings.{split, onto_head}
use ip_unt1_com.Page.{Dataset}
use ip_unt1_com.Page.Rows.{Row, print_row, print_rows}
use ip_unt1_com.Page.Texts.{TraceArgs, trace_rows, trace_text}
use ip_unt1_com.Page.Lines.{breaks, breaks-append}

-- A reader of `key=value` lines, as a script would have it: each line is cut at its first sign.
pub cut : ℕ → Text → Text × Text
cut c [] = ([], [])
cut c (x ∷ s) = let rest = cut c s in if x == c then ([], s) else (x ∷ rest.0, rest.1)

pub read_lines : List Text → List (Text × Text)
read_lines [] = []
read_lines (l ∷ []) = []
read_lines (l ∷ m ∷ ls) = cut b'=' l ∷ read_lines (m ∷ ls)

pub read_fields : Text → List (Text × Text)
read_fields s = read_lines (split s 10)

-- The labels and the values of the rows that are shown.
unfoldable pub fields : List Row → List (Text × Text)
fields [] = []
fields (r ∷ rs) = if r.shown then (r.label, r.value) ∷ fields rs else fields rs

abbrev pub IsUnbroken : Row → Type 0
IsUnbroken r = breaks r.value ≡ 0

abbrev IsKey : Row → Type 0
IsKey r = (breaks r.label ≡ 0) × (any (λ c. c == b'=') r.label ≡ false)

cut-append : (c : ℕ) (k v : Text) → any (λ x. x == c) k ≡ false → cut c (k ++ c ∷ v) ≡ (k, v)
unfolding cut
cut-append c [] v h = ground arith
cut-append c (x ∷ k) v h = ground (arith, cut-append c k v)

split-line : (v s : Text) → breaks v ≡ 0 → split (v ++ 10 ∷ s) 10 ≡ v ∷ split s 10
unfolding split
split-line [] s h = refl
split-line (x ∷ v) s h = ground (arith, split-line v s)

nonempty-onto_head : (x : ℕ) (ps : List Text) → is_empty (onto_head x ps) ≡ false
nonempty-onto_head x [] = refl
nonempty-onto_head x (p ∷ ps) = refl

nonempty-split : (s : Text) → is_empty (split s 10) ≡ false
unfolding split
nonempty-split [] = refl
nonempty-split (x ∷ s) = ground (arith, nonempty-onto_head x (split s 10))

read_lines-cons :
    (l : Text) (ls : List Text)
    → is_empty ls ≡ false
    → read_lines (l ∷ ls) ≡ cut b'=' l ∷ read_lines ls
unfolding read_lines
read_lines-cons l [] h = absurd (ground arith)
read_lines-cons l (m ∷ ls) h = refl

-- One line more.
read_fields-line :
    (k v s : Text)
    → breaks k ≡ 0
    → any (λ x. x == b'=') k ≡ false
    → breaks v ≡ 0
    → read_fields ((k ++ (b'=' ∷ (v ++ 10 ∷ []))) ++ s) ≡ (k, v) ∷ read_fields s
unfolding read_fields
read_fields-line k v s bk ek bv =
    let whole : (k ++ (b'=' ∷ (v ++ 10 ∷ []))) ++ s ≡ (k ++ b'=' ∷ v) ++ 10 ∷ s =
      simp append_assoc in
    let clean : breaks (k ++ b'=' ∷ v) ≡ 0 = omega (arith, breaks-append k (b'=' ∷ v), bk, bv) in
    rw (
      whole,
      split-line (k ++ b'=' ∷ v) s clean,
      read_lines-cons (k ++ b'=' ∷ v) (split s 10) (nonempty-split s),
      cut-append b'=' k v ek,
    )

read_fields-print_rows :
    (rs : List Row)
    → All IsKey rs
    → All IsUnbroken rs
    → read_fields (print_rows (bytes "=") rs) ≡ fields rs
unfolding print_rows print_row fields bytes
read_fields-print_rows [] k u = unfold read_fields split read_lines in refl
read_fields-print_rows (r ∷ rs) k u = elim (Bool-cases r.shown) [
  | inl shown ↦ rw shown (
      read_fields-line r.label r.value (print_rows (bytes "=") rs) k.0.0 k.0.1 u.0
      ∙ ap (λ fs. (r.label, r.value) ∷ fs) (read_fields-print_rows rs k.1 u.1))
  | inr hidden ↦ rw hidden (read_fields-print_rows rs k.1 u.1)
]

trace_rows-IsKey : (a : TraceArgs) (d : Dataset) → All IsKey (trace_rows a d)
unfolding trace_rows bytes
trace_rows-IsKey a d = ground arith

-- Reading the trace view line by line gives back the rows that it shows, in order.
pub read_fields-trace_rows :
    (a : TraceArgs) (d : Dataset)
    → All IsUnbroken (trace_rows a d)
    → read_fields (trace_text a d) ≡ fields (trace_rows a d)
unfolding trace_text
read_fields-trace_rows a d u = read_fields-print_rows (trace_rows a d) (trace_rows-IsKey a d) u
