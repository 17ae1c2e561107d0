-- ===== src/Snapshot/Refresh.antt =====
-- What a refresh keeps, and when the lists are ready.
use ip_unt1_com.Prelude.{
  ℕ, zero, suc, ◌≤◌, ◌<◌, ◌||◌, ◌≡◌, refl, Bool, true, false, not, List, [], ◌∷◌, ◌++◌, Option,
  none, some, Text, text_eq, text_eq_iff, if◌then◌else◌, Map, lookup, keys, lookup-insert,
  text_instance, arith, ◌∙◌, ap, any, is_some, is_empty, ◌==◌, ◌+◌, take, length, leb, ◌/◌,
}
use ip_unt1_com.Net.{Addr}
use ip_unt1_com.Vpn.{SourceData, source_is_empty, VpnSnapshot}
use ip_unt1_com.Snapshot.{
  FetchResult, Merged, merge_result, merge_results, refresh, build_snapshot, any_loaded,
  data_or_empty, sort_names, insert_name, get,
}

-- A result that counts: it came without an error and holds something.
abbrev pub is_fresh : FetchResult → Bool
is_fresh r = elim r.err [ some e ↦ false | none ↦ not (source_is_empty r.payload) ]

-- The data of a feed after the results, given its data before them.
abbrev pub latest : Text → Option SourceData → List FetchResult → Option SourceData
latest name old [] = old
latest name old (r ∷ rs) =
    latest name
      (if is_fresh r
        then if text_eq r.name name then some (record r.payload { fetched = r.now }) else old
        else old)
      rs

abbrev pub any_fresh : List FetchResult → Bool
any_fresh rs = any is_fresh rs

lookup-merge_result :
    (name : Text) (m : Merged) (r : FetchResult)
    → lookup name (merge_result m r).sources ≡ (
        if is_fresh r
        then if text_eq r.name name
          then some (record r.payload { fetched = r.now })
          else lookup name m.sources
        else lookup name m.sources)
unfolding merge_result
lookup-merge_result name m r =
    ground (arith, lookup-insert r.name name (record r.payload { fetched = r.now }) m.sources)

lookup-merge_results :
    (name : Text) (m : Merged) (rs : List FetchResult)
    → lookup name (merge_results m rs).sources ≡ latest name (lookup name m.sources) rs
unfolding merge_results
lookup-merge_results name m [] = refl
lookup-merge_results name m (r ∷ rs) =
    lookup-merge_results name (merge_result m r) rs
    ∙ ap (λ o. latest name o rs) (lookup-merge_result name m r)

-- After a refresh each feed holds the payload of its last successful, non-empty result; a feed
-- that failed, came empty or is missing from the results holds what it held before.
pub refresh-latest :
    (range : Map Addr Text → List (Addr × Text)) (prev : VpnSnapshot) (results : List FetchResult)
    (name : Text)
    → lookup name (refresh range prev results).0.sources
      ≡ latest name (lookup name prev.sources) results
unfolding refresh build_snapshot
refresh-latest range prev results name = lookup-merge_results name _ results

nonempty-snoc : (xs : List Text) (x : Text) → is_empty (xs ++ x ∷ []) ≡ false
nonempty-snoc [] x = refl
nonempty-snoc (y ∷ xs) x = refl

fresh-merge_result :
    (m : Merged) (r : FetchResult)
    → (merge_result m r).fresh ≡ m.fresh + (if is_fresh r then 1 else 0)
unfolding merge_result
fresh-merge_result m r = ground arith

errs-merge_result :
    (m : Merged) (r : FetchResult)
    → is_empty (merge_result m r).errs ≡ (if is_fresh r then is_empty m.errs else false)
unfolding merge_result
errs-merge_result m r = ground (arith, nonempty-snoc m.errs)

fresh-merge_results :
    (m : Merged) (rs : List FetchResult)
    → ((merge_results m rs).fresh == 0) ≡ (if any_fresh rs then false else m.fresh == 0)
unfolding merge_results
fresh-merge_results m [] = refl
fresh-merge_results m (r ∷ rs) =
    ground (arith, fresh-merge_results (merge_result m r) rs, fresh-merge_result m r)

errs-merge_results :
    (m : Merged) (rs : List FetchResult)
    → any_fresh rs ≡ false
    → is_empty (merge_results m rs).errs ≡ (if is_empty rs then is_empty m.errs else false)
unfolding merge_results
errs-merge_results m [] h = refl
errs-merge_results m (r ∷ rs) h =
    ground (arith, errs-merge_results (merge_result m r) rs, errs-merge_result m r)

-- A refresh, of at least one feed, fails exactly when no feed came with data: one good feed is
-- enough.
pub refresh-error :
    (range : Map Addr Text → List (Addr × Text)) (prev : VpnSnapshot) (results : List FetchResult)
    → is_empty results ≡ false
    → is_some (refresh range prev results).1 ≡ not (any_fresh results)
unfolding refresh
refresh-error range prev results h =
    let m : Merged = record { sources = prev.sources; errs = []; fresh = 0 } in
    ground (arith, fresh-merge_results m results, errs-merge_results m results)

-- A feed that holds data.
abbrev pub loaded : Option SourceData → Bool
loaded o = not (source_is_empty (data_or_empty o))

abbrev pub named : Text → List Text → Bool
named n names = any (λ j. text_eq j n) names

any_loaded-named :
    (sources : Map Text SourceData) (names : List Text) (n : Text)
    → named n names ≡ true
    → loaded (lookup n sources) ≡ true
    → any_loaded sources names ≡ true
unfolding any_loaded
any_loaded-named sources [] n h l = absurd (ground arith)
any_loaded-named sources (j ∷ names) n h l =
    ground (arith, any_loaded-named sources names n, text_eq_iff j n)

named-insert_name :
    (n s : Text) (names : List Text)
    → named n (insert_name s names) ≡ (text_eq s n || named n names)
unfolding insert_name
named-insert_name n s [] = refl
named-insert_name n s (t ∷ names) = ground (arith, named-insert_name n s names)

pub named-sort_names : (n : Text) (names : List Text) → named n (sort_names names) ≡ named n names
unfolding sort_names
named-sort_names n [] = refl
named-sort_names n (s ∷ names) =
    named-insert_name n s (sort_names names) ∙ ap (λ b. text_eq s n || b) (named-sort_names n names)

pub named-keys :
    (n : Text) (m : Map Text SourceData) → is_some (lookup n m) ≡ true → named n (keys m) ≡ true
unfolding lookup
named-keys n [] h = h
named-keys n ((j, s) ∷ m) h = ground (arith, named-keys n m)

loaded-named :
    (n : Text) (m : Map Text SourceData)
    → loaded (lookup n m) ≡ true
    → named n (sort_names (keys m)) ≡ true
loaded-named n m h = ground (arith, named-sort_names n (keys m), named-keys n m)

loaded-latest :
    (name : Text) (rs : List FetchResult) (old : Option SourceData)
    → loaded old ≡ true
    → loaded (latest name old rs) ≡ true
loaded-latest name [] old h = h
loaded-latest name (r ∷ rs) old h = loaded-latest name rs _ (ground arith)

-- Once some feed holds data the lists stay ready: no refresh loses that, whatever fails in it.
pub refresh-ready :
    (range : Map Addr Text → List (Addr × Text)) (prev : VpnSnapshot) (results : List FetchResult)
    (name : Text)
    → loaded (lookup name prev.sources) ≡ true
    → (refresh range prev results).0.ready ≡ true
unfolding refresh build_snapshot
refresh-ready range prev results name h =
    let m = merge_results (record { sources = prev.sources; errs = []; fresh = 0 }) results in
    let kept : loaded (lookup name m.sources) ≡ true =
      ap loaded (lookup-merge_results name _ results) ∙ loaded-latest name results _ h in
    any_loaded-named m.sources (sort_names (keys m.sources)) name (loaded-named name m.sources kept)
      kept

take_all : (n : ℕ) (s : Text) → length s ≤ n → take n s ≡ s
take_all zero [] h = refl
take_all zero (c ∷ s) h = absurd (omega (arith, h))
take_all (suc n) [] h = refl
take_all (suc n) (c ∷ s) h = ap (λ t. c ∷ t) (take_all n s (omega (arith, h)))

length-take : (n : ℕ) (s : Text) → n < length s → length (take n s) ≡ n
length-take zero s h = refl
length-take (suc n) [] h = absurd (omega (arith, h))
length-take (suc n) (c ∷ s) h = ap suc (length-take n s (omega (arith, h)))

-- A download is the whole body of a response of a 2xx status within the limit, and never a part
-- of one.
pub get_whole :
    (limit status : ℕ) (body : Text)
    → get limit status body
      ≡ (if status / 100 == 2 then if leb (length body) limit then some body else none else none)
unfolding get
get_whole limit status body =
    ground (arith, take_all (limit + 1) body, length-take (limit + 1) body)
