-- ===== src/Snapshot/Same.antt =====
-- vpn.go: what the results of a refresh leave in the feeds, in one order and in another.
use ip_unt1_com.Prelude.{
  ℕ, ◌≡◌, refl, inl, inr, false, List, [], ◌∷◌, Text, text_eq, text_eq_iff, if◌then◌else◌, Map,
  lookup, insert, keys, lookup-insert, text_instance, arith, ◌∙◌, is_some, Bool-cases,
}
use ip_unt1_com.Net.{Addr, Prefix}
use ip_unt1_com.Relay.{RelayInfo}
use ip_unt1_com.Vpn.{SourceData}
use ip_unt1_com.Snapshot.{FetchResult, Merged, merge_result, merge_results, source_of, sort_names}
use ip_unt1_com.Snapshot.Refresh.{is_fresh}
use ip_unt1_com.Snapshot.NameOrder.{insert_name_comm, sort_names-insert}

-- The same results, in another order and at other times; only results of different feeds change
-- places.
pub data Reordered : List FetchResult → List FetchResult → Type 0 where
  all_in : Reordered [] []
  first_in :
      (r : FetchResult) (time : ℕ) {rs ss : List FetchResult}
      → Reordered rs ss
      → Reordered (r ∷ rs) (record r { now = time } ∷ ss)
  swapped :
      (r q : FetchResult) (rs : List FetchResult)
      → text_eq r.name q.name ≡ false
      → Reordered (r ∷ q ∷ rs) (q ∷ r ∷ rs)
  by_way_of : {rs ss ts : List FetchResult} → Reordered rs ss → Reordered ss ts → Reordered rs ts

-- What a feed holds, but for the time at which it was fetched.
abbrev pub content : SourceData → List RelayInfo × List Addr × List Prefix
content d = (d.relays, d.addrs, d.cidrs)

-- Sources that hold the same feeds.
pub record IsSame (m n : Map Text SourceData) : Type 0 where
  pub names : sort_names (keys m) ≡ sort_names (keys n)
  pub known : (k : Text) → is_some (lookup k m) ≡ is_some (lookup k n)
  pub held : (k : Text) → content (source_of k m) ≡ content (source_of k n)

pub IsSame-refl : (m : Map Text SourceData) → IsSame m m
IsSame-refl m = record { names = refl; known = λ k. refl; held = λ k. refl }

IsSame-trans : {l m n : Map Text SourceData} → IsSame l m → IsSame m n → IsSame l n
IsSame-trans a b = record {
  names = a.names ∙ b.names;
  known = λ k. a.known k ∙ b.known k;
  held = λ k. a.held k ∙ b.held k;
}

content-insert :
    (k j : Text) (d : SourceData) (m : Map Text SourceData)
    → content (source_of j (insert k d m))
      ≡ (if text_eq k j then content d else content (source_of j m))
content-insert k j d m = elim (Bool-cases (text_eq k j)) [
  | inl own ↦ rw (lookup-insert k j d m, own) refl
  | inr other ↦ rw (lookup-insert k j d m, other) refl
]

IsSame-insert :
    {m n : Map Text SourceData} (k : Text) (d e : SourceData)
    → content d ≡ content e
    → IsSame m n
    → IsSame (insert k d m) (insert k e n)
IsSame-insert {m} {n} k d e c h = record {
  names = ground (arith, sort_names-insert k d m, sort_names-insert k e n, h.names, h.known k);
  known = λ j. ground (arith, lookup-insert k j d m, lookup-insert k j e n, h.known j);
  held = λ j. ground (arith, content-insert k j d m, content-insert k j e n, h.held j);
}

IsSame-insert_comm :
    (m : Map Text SourceData) (j k : Text) (d e : SourceData)
    → text_eq j k ≡ false
    → IsSame (insert k e (insert j d m)) (insert j d (insert k e m))
IsSame-insert_comm m j k d e other = record {
  names = ground (
    arith,
    sort_names-insert k e (insert j d m),
    sort_names-insert j d m,
    sort_names-insert j d (insert k e m),
    sort_names-insert k e m,
    lookup-insert j k d m,
    lookup-insert k j e m,
    text_eq_iff k j,
    text_eq_iff j k,
    insert_name_comm j k (sort_names (keys m)),
  );
  known = λ i. ground (
    arith,
    lookup-insert k i e (insert j d m),
    lookup-insert j i d m,
    lookup-insert j i d (insert k e m),
    lookup-insert k i e m,
  );
  held = λ i. ground (
    arith,
    content-insert k i e (insert j d m),
    content-insert j i d m,
    content-insert j i d (insert k e m),
    content-insert k i e m,
    text_eq_iff k i,
    text_eq_iff j i,
    text_eq_iff j k,
  );
}

sources-merge_result :
    (m : Merged) (r : FetchResult)
    → (merge_result m r).sources ≡ (
        if is_fresh r
        then insert r.name (record r.payload { fetched = r.now }) m.sources
        else m.sources)
unfolding merge_result
sources-merge_result m r = ground arith

abbrev pub AreSame : Merged → Merged → Type 0
AreSame m n = IsSame m.sources n.sources

AreSame-merge_result :
    (m n : Merged) (r : FetchResult) (time : ℕ)
    → AreSame m n
    → AreSame (merge_result m r) (merge_result n (record r { now = time }))
AreSame-merge_result m n r time h = elim (Bool-cases (is_fresh r)) [
  | inl fresh ↦
      rw (sources-merge_result m r, sources-merge_result n (record r { now = time }), fresh)
        (IsSame-insert r.name (record r.payload { fetched = r.now })
          (record r.payload { fetched = time }) refl h)
  | inr stale ↦
      rw (sources-merge_result m r, sources-merge_result n (record r { now = time }), stale) h
]

AreSame-merge_results :
    (m n : Merged) (rs : List FetchResult)
    → AreSame m n
    → AreSame (merge_results m rs) (merge_results n rs)
unfolding merge_results
AreSame-merge_results m n [] h = h
AreSame-merge_results m n (r ∷ rs) h =
    AreSame-merge_results (merge_result m r) (merge_result n r) rs
      (AreSame-merge_result m n r r.now h)

AreSame-swap :
    (m : Merged) (r q : FetchResult)
    → text_eq r.name q.name ≡ false
    → AreSame (merge_result (merge_result m r) q) (merge_result (merge_result m q) r)
AreSame-swap m r q other =
    let sr = sources-merge_result m r in
    let sq = sources-merge_result m q in
    let srq = sources-merge_result (merge_result m r) q in
    let sqr = sources-merge_result (merge_result m q) r in
    elim (Bool-cases (is_fresh r)) [
      | inr stale ↦ elim (Bool-cases (is_fresh q)) [
        | inr stale_too ↦ rw (srq, sqr, sr, sq, stale, stale_too) (IsSame-refl m.sources)
        | inl fresh ↦ rw (srq, sqr, sr, sq, stale, fresh) (IsSame-refl _)
      ]
      | inl fresh ↦ elim (Bool-cases (is_fresh q)) [
        | inr stale ↦ rw (srq, sqr, sr, sq, stale, fresh) (IsSame-refl _)
        | inl fresh_too ↦
            rw (srq, sqr, sr, sq, fresh, fresh_too)
              (IsSame-insert_comm m.sources r.name q.name (record r.payload { fetched = r.now })
                (record q.payload { fetched = q.now }) other)
      ]
    ]

pub AreSame-reordered :
    {rs ss : List FetchResult}
    → Reordered rs ss
    → (m n : Merged) → AreSame m n
    → AreSame (merge_results m rs) (merge_results n ss)
unfolding merge_results
AreSame-reordered all_in m n h = h
AreSame-reordered (first_in r time p) m n h =
    AreSame-reordered p (merge_result m r) (merge_result n (record r { now = time }))
      (AreSame-merge_result m n r time h)
AreSame-reordered (swapped r q rs other) m n h =
    let first = AreSame-swap m r q other in
    let then_q = AreSame-merge_result m n q q.now h in
    let then_r = AreSame-merge_result (merge_result m q) (merge_result n q) r r.now then_q in
    AreSame-merge_results (merge_result (merge_result m r) q) (merge_result (merge_result n q) r) rs
      (IsSame-trans first then_r)
AreSame-reordered (by_way_of p q) m n h =
    IsSame-trans (AreSame-reordered p m m (IsSame-refl m.sources)) (AreSame-reordered q m n h)
