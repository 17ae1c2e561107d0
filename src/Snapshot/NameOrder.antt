-- ===== src/Snapshot/NameOrder.antt =====
-- vpn.go: `sort.Strings` on the names of the feeds, whatever the order in which they are put in.
use ip_unt1_com.Prelude.{
  ◌≡◌, refl, true, false, List, [], ◌∷◌, Text, text_eq_iff, if◌then◌else◌, Map, lookup, insert,
  keys, text_instance, arith, is_some,
}
use ip_unt1_com.Snapshot.{text_less, insert_name, sort_names}

text_less_total : (s t : Text) → text_less s t ≡ false → text_less t s ≡ false → s ≡ t
unfolding text_less
text_less_total [] [] h h' = refl
text_less_total [] (y ∷ t) h h' = absurd (ground arith)
text_less_total (x ∷ s) [] h h' = absurd (ground arith)
text_less_total (x ∷ s) (y ∷ t) h h' = ground (arith, text_less_total s t)

text_less_asym : (s t : Text) → text_less s t ≡ true → text_less t s ≡ false
unfolding text_less
text_less_asym [] [] h = refl
text_less_asym [] (y ∷ t) h = refl
text_less_asym (x ∷ s) [] h = absurd (ground arith)
text_less_asym (x ∷ s) (y ∷ t) h = ground (arith, text_less_asym s t)

-- From `s ≤ t` and `t < u`.
text_less_trans :
    (s t u : Text) → text_less t s ≡ false → text_less t u ≡ true → text_less s u ≡ true
unfolding text_less
text_less_trans s t [] h l = absurd (ground arith)
text_less_trans [] t (z ∷ u) h l = refl
text_less_trans (x ∷ s) [] (z ∷ u) h l = absurd (ground arith)
text_less_trans (x ∷ s) (y ∷ t) (z ∷ u) h l = ground (arith, text_less_trans s t u)

pub insert_name_comm :
    (s t : Text) (ns : List Text)
    → insert_name s (insert_name t ns) ≡ insert_name t (insert_name s ns)
unfolding insert_name
insert_name_comm s t [] = ground (arith, text_less_total s t, text_less_asym s t)
insert_name_comm s t (n ∷ ns) = ground (
  arith,
  insert_name_comm s t ns,
  text_less_total s t,
  text_less_asym s t,
  text_less_trans s n t,
  text_less_trans t n s,
)

-- The sorted names after an insertion.
pub sort_names-insert {ℓ} :
    {V : Type ℓ} (k : Text) (v : V) (m : Map Text V)
    → sort_names (keys (insert k v m))
      ≡ (if is_some (lookup k m) then sort_names (keys m) else insert_name k (sort_names (keys m)))
unfolding sort_names insert lookup
sort_names-insert k v [] = refl
sort_names-insert k v ((j, w) ∷ m) =
    ground
      (arith, sort_names-insert k v m, text_eq_iff j k, insert_name_comm j k (sort_names (keys m)))
