-- ===== src/Snapshot/Listing.antt =====
-- What the tables of a snapshot say of one address.
use ip_unt1_com.Prelude.{
  ◌≡◌, refl, Bool, true, false, ◌||◌, List, [], ◌∷◌, Option, none, some, Text, if◌then◌else◌, Map,
  lookup, insert, delete, lookup-insert, lookup-delete, arith, ◌∙◌, ap, any,
}
use ip_unt1_com.Net.{Addr, canonical_ip}
use ip_unt1_com.Net.Equality.{addr_instance}
use ip_unt1_com.Relay.{RelayInfo}
use ip_unt1_com.Vpn.{SourceData}
use ip_unt1_com.Snapshot.{
  source_of, Tables, add_relay_entries, add_relays, add_sources, mark_addrs, mark_sources,
  no_tables, build_tables,
}

-- The later of two, if it is there.
abbrev pub over {ℓ} : {A : Type ℓ} → Option A → Option A → Option A
over (some a) o = some a
over none o = o

abbrev has : Addr → List Addr → Bool
has a xs = any (λ b. addr_instance.beq b a) xs

abbrev has_canonical : Addr → List Addr → Bool
has_canonical a xs = any (λ b. addr_instance.beq (canonical_ip b) a) xs

abbrev when {ℓ} : {A : Type ℓ} → Bool → A → Option A
when b a = if b then some a else none

-- The last relay of a feed, and of the feeds by name, that publishes the address.
abbrev pub last_relay : Addr → List RelayInfo → Option RelayInfo
last_relay a [] = none
last_relay a (r ∷ rs) = over (last_relay a rs) (when (has a r.addrs) r)

abbrev pub publisher : Addr → Map Text SourceData → List Text → Option RelayInfo
publisher a sources [] = none
publisher a sources (n ∷ ns) =
    over (publisher a sources ns) (last_relay a (source_of n sources).relays)

-- The last address feed that lists the address.
abbrev pub lister : Addr → Map Text SourceData → List Text → Option Text
lister a sources [] = none
lister a sources (n ∷ ns) =
    over (lister a sources ns) (when (has_canonical a (source_of n sources).addrs) n)

-- What the tables say of an address: its tag and its relay.
abbrev pub Seen : Type 0
Seen = Option Text × Option RelayInfo

abbrev pub seen : Addr → Tables → Seen
seen a t = (lookup a t.ips, lookup a t.relays)

abbrev pub by_relay : Option RelayInfo → Seen → Seen
by_relay none s = s
by_relay (some r) s = (some r.provider, some r)

abbrev pub by_list : Option Text → Seen → Seen
by_list none s = s
by_list (some n) s = (some n, none)

by_relay-over :
    (x y : Option RelayInfo) (s : Seen) → by_relay x (by_relay y s) ≡ by_relay (over x y) s
by_relay-over none y s = refl
by_relay-over (some r) none s = refl
by_relay-over (some r) (some q) s = refl

by_list-over : (x y : Option Text) (s : Seen) → by_list x (by_list y s) ≡ by_list (over x y) s
by_list-over none y s = refl
by_list-over (some r) none s = refl
by_list-over (some r) (some q) s = refl

when-or {ℓ} : {A : Type ℓ} → (p q : Bool) (x : A) → over (when p x) (when q x) ≡ when (q || p) x
when-or true true x = refl
when-or true false x = refl
when-or false true x = refl
when-or false false x = refl

seen-insert :
    (a b : Addr) (rel : RelayInfo) (t : Tables)
    → seen a (record { ips = insert b rel.provider t.ips; relays = insert b rel t.relays })
      ≡ by_relay (when (addr_instance.beq b a) rel) (seen a t)
seen-insert a b rel t =
    ground (arith, lookup-insert b a rel.provider t.ips, lookup-insert b a rel t.relays)

seen-add_relay_entries :
    (a : Addr) (t : Tables) (rel : RelayInfo) (xs : List Addr)
    → seen a (add_relay_entries t rel xs) ≡ by_relay (when (has a xs) rel) (seen a t)
unfolding add_relay_entries
seen-add_relay_entries a t rel [] = refl
seen-add_relay_entries a t rel (b ∷ xs) =
    let next : Tables = record {
      ips = insert b rel.provider t.ips;
      relays = insert b rel t.relays;
    } in
    seen-add_relay_entries a next rel xs
    ∙ ap (by_relay (when (has a xs) rel)) (seen-insert a b rel t)
    ∙ by_relay-over (when (has a xs) rel) (when (addr_instance.beq b a) rel) (seen a t)
    ∙ ap (λ o. by_relay o (seen a t)) (when-or (has a xs) (addr_instance.beq b a) rel)

seen-add_relays :
    (a : Addr) (t : Tables) (rels : List RelayInfo)
    → seen a (add_relays t rels) ≡ by_relay (last_relay a rels) (seen a t)
unfolding add_relays
seen-add_relays a t [] = refl
seen-add_relays a t (r ∷ rs) =
    seen-add_relays a (add_relay_entries t r r.addrs) rs
    ∙ ap (by_relay (last_relay a rs)) (seen-add_relay_entries a t r r.addrs)
    ∙ by_relay-over (last_relay a rs) (when (has a r.addrs) r) (seen a t)

seen-add_sources :
    (a : Addr) (sources : Map Text SourceData) (t : Tables) (names : List Text)
    → seen a (add_sources sources t names) ≡ by_relay (publisher a sources names) (seen a t)
unfolding add_sources
seen-add_sources a sources t [] = refl
seen-add_sources a sources t (n ∷ ns) =
    let rels = (source_of n sources).relays in
    seen-add_sources a sources (add_relays t rels) ns
    ∙ ap (by_relay (publisher a sources ns)) (seen-add_relays a t rels)
    ∙ by_relay-over (publisher a sources ns) (last_relay a rels) (seen a t)

seen-mark :
    (a b : Addr) (name : Text) (t : Tables)
    → seen a (record { ips = insert b name t.ips; relays = delete b t.relays })
      ≡ by_list (when (addr_instance.beq b a) name) (seen a t)
seen-mark a b name t = ground (arith, lookup-insert b a name t.ips, lookup-delete b a t.relays)

seen-mark_addrs :
    (a : Addr) (name : Text) (t : Tables) (xs : List Addr)
    → seen a (mark_addrs name t xs) ≡ by_list (when (has_canonical a xs) name) (seen a t)
unfolding mark_addrs
seen-mark_addrs a name t [] = refl
seen-mark_addrs a name t (b ∷ xs) =
    let hit = addr_instance.beq (canonical_ip b) a in
    seen-mark_addrs a name
      (record {
        ips = insert (canonical_ip b) name t.ips;
        relays = delete (canonical_ip b) t.relays;
      })
      xs
    ∙ ap (by_list (when (has_canonical a xs) name)) (seen-mark a (canonical_ip b) name t)
    ∙ by_list-over (when (has_canonical a xs) name) (when hit name) (seen a t)
    ∙ ap (λ o. by_list o (seen a t)) (when-or (has_canonical a xs) hit name)

seen-mark_sources :
    (a : Addr) (sources : Map Text SourceData) (t : Tables) (names : List Text)
    → seen a (mark_sources sources t names) ≡ by_list (lister a sources names) (seen a t)
unfolding mark_sources
seen-mark_sources a sources t [] = refl
seen-mark_sources a sources t (n ∷ ns) =
    let xs = (source_of n sources).addrs in
    seen-mark_sources a sources (mark_addrs n t xs) ns
    ∙ ap (by_list (lister a sources ns)) (seen-mark_addrs a n t xs)
    ∙ by_list-over (lister a sources ns) (when (has_canonical a xs) n) (seen a t)

-- The tables give an address the name of the last address feed that lists it, and then no relay:
-- whatever the relay feeds say of it. An address of no such feed has the last relay, in the order
-- of the names, that publishes it, tagged with the relay's provider.
pub seen-build_tables :
    (a : Addr) (sources : Map Text SourceData) (names : List Text)
    → seen a (build_tables sources names)
      ≡ by_list (lister a sources names) (by_relay (publisher a sources names) (none, none))
unfolding build_tables lookup
seen-build_tables a sources names =
    seen-mark_sources a sources (add_sources sources no_tables names) names
    ∙ ap (by_list (lister a sources names)) (seen-add_sources a sources no_tables names)
