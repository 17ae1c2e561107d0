-- ===== src/Ua/Regexp.antt =====
-- Package regexp as far as ua.go uses it, on bytes: leftmost matches that prefer what a
-- backtracking matcher finds first, with numbered groups. A repetition runs on fuel, the number of
-- bytes that are left: every body that the patterns repeat takes at least one. For `(?i)` only the
-- letters of ASCII fold.
use ip_unt1_com.Prelude.{
  ℕ, zero, suc, ◌-◌, Bool, true, false, not, ◌&&◌, ◌||◌, List, [], ◌∷◌, Option, none, some, Text,
  leb, ◌==◌, length, take, reverse, Map, lookup, insert, nat_instance, is_some,
}
use ip_unt1_com.Strings.{lower}

pub data Re : Type 0 where
  nothing : Re
  byte : (ℕ → Bool) → Re
  boundary : Re
  both : Re → Re → Re
  either : Re → Re → Re
  many : Re → Re
  many_lazy : Re → Re
  group : ℕ → Re → Re

-- A place in the text: the bytes before it, the last one first, those after it, and the groups.
pub record Place : Type 0 where
  pub before : Text
  pub rest : Text
  pub groups : Map ℕ Text

abbrev pub is_digit : ℕ → Bool
is_digit c = leb 48 c && leb c 57

abbrev pub is_word : ℕ → Bool
is_word c = is_digit c || leb b'A' c && leb c b'Z' || leb b'a' c && leb c b'z' || c == b'_'

abbrev starts_word : Text → Bool
starts_word [] = false
starts_word (c ∷ s) = is_word c

-- `\b`.
abbrev at_boundary : Place → Bool
at_boundary p = elim (starts_word p.before) [
  | true ↦ not (starts_word p.rest)
  | false ↦ starts_word p.rest
]

abbrev Cont : Type 0
Cont = Place → Option Place

abbrev eat : (ℕ → Bool) → Cont → Text → Text → Map ℕ Text → Option Place
eat p k before [] groups = none
eat p k before (c ∷ s) groups = elim (p c) [
  | true ↦ k (record { before = c ∷ before; rest = s; groups = groups })
  | false ↦ none
]

abbrev or_else : Option Place → Option Place → Option Place
or_else (some p) o = some p
or_else none o = o

unfoldable pub repeat : ℕ → (Cont → Cont) → Cont → Cont
repeat zero f k p = k p
repeat (suc n) f k p = or_else (f (repeat n f k) p) (k p)

unfoldable pub repeat_lazy : ℕ → (Cont → Cont) → Cont → Cont
repeat_lazy zero f k p = k p
repeat_lazy (suc n) f k p = or_else (k p) (f (repeat_lazy n f k) p)

abbrev keep : ℕ → Place → Place → Place
keep n p q = record q {
  groups = insert n (reverse (take (length q.before - length p.before) q.before)) q.groups;
}

-- Matches a pattern at a place and goes on with what follows it.
unfoldable pub run : Re → Cont → Cont
unfolding repeat repeat_lazy
run nothing k p = k p
run (byte f) k p = eat f k p.before p.rest p.groups
run boundary k p = elim (at_boundary p) [ true ↦ k p | false ↦ none ]
run (both a b) k p = run a (run b k) p
run (either a b) k p = or_else (run a k p) (run b k p)
run (many a) k p = repeat (length p.rest) (run a) k p
run (many_lazy a) k p = repeat_lazy (length p.rest) (run a) k p
run (group n a) k p = run a (λ q. k (keep n p q)) p

-- The leftmost match, from a place on.
unfoldable pub find_from : Re → Text → Text → Option Place
unfolding run
find_from r before [] = run r (λ p. some p) (record { before = before; rest = []; groups = [] })
find_from r before (c ∷ s) =
    or_else (run r (λ p. some p) (record { before = before; rest = c ∷ s; groups = [] }))
      (find_from r (c ∷ before) s)

-- `MatchString`.
unfoldable pub match_string : Re → Text → Bool
match_string r s = is_some (find_from r [] s)

-- `FindStringSubmatch(s)[n]`, empty for a group that took no part.
unfoldable pub submatch : Re → Text → ℕ → Text
submatch r s n = elim (find_from r [] s) [
  | none ↦ []
  | some p ↦ elim (lookup n p.groups) [ none ↦ [] | some t ↦ t ]
]

-- Patterns.
abbrev pub lit : Text → Re
lit [] = nothing
lit (c ∷ s) = both (byte (λ d. d == c)) (lit s)

-- Of any case.
abbrev pub lit_fold : Text → Re
lit_fold [] = nothing
lit_fold (c ∷ s) = both (byte (λ d. lower d == lower c)) (lit_fold s)

abbrev pub maybe : Re → Re
maybe r = either r nothing

abbrev pub some_of : Re → Re
some_of r = both r (many r)

abbrev pub one_of : List Re → Re
one_of [] = byte (λ c. false)
one_of (r ∷ []) = r
one_of (r ∷ s ∷ rs) = either r (one_of (s ∷ rs))

abbrev pub in_order : List Re → Re
in_order [] = nothing
in_order (r ∷ rs) = both r (in_order rs)

abbrev pub digits : Re
digits = some_of (byte is_digit)

-- `.`
abbrev pub any_byte : Re
any_byte = byte (λ c. not (c == 10))
