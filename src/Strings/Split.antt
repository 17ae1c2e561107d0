-- ===== src/Strings/Split.antt =====
-- Splitting at a byte, where the pieces are known.
use ip_unt1_com.Prelude.{ℕ, ◌≡◌, refl, Bool, false, [], ◌∷◌, ◌++◌, Text, any, ◌==◌, arith}
use ip_unt1_com.Strings.{split}

-- The byte occurs in the text.
abbrev pub occurs : ℕ → Text → Bool
occurs sep s = any (λ c. c == sep) s

pub split-piece :
    (s t : Text) (sep : ℕ) → occurs sep s ≡ false → split (s ++ sep ∷ t) sep ≡ s ∷ split t sep
unfolding split
split-piece [] t sep h = ground arith
split-piece (x ∷ s) t sep h = ground (arith, split-piece s t sep)

pub split-whole : (s : Text) (sep : ℕ) → occurs sep s ≡ false → split s sep ≡ s ∷ []
unfolding split
split-whole [] sep h = refl
split-whole (x ∷ s) sep h = ground (arith, split-whole s sep)
