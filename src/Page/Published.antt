-- ===== src/Page/Published.antt =====
-- main.go: which fields the view of `handleTrace` has, by name.
use ip_unt1_com.Prelude.{
  ◌≡◌, refl, Bool, not, List, [], ◌∷◌, ◌++◌, Option, none, some, Text, bytes, if◌then◌else◌,
  is_empty, All, Bool-cases, inl, inr, arith, ◌∙◌, ap,
}
use ip_unt1_com.Asn.{itoa_ℤ}
use ip_unt1_com.Page.{Dataset}
use ip_unt1_com.Page.Rows.{Row}
use ip_unt1_com.Page.Texts.{TraceArgs, trace_rows, trace_text, scheme_of, on_off, ready_word}
use ip_unt1_com.Page.Reading.{IsUnbroken, fields, read_fields, read_fields-trace_rows}

-- A field that is there if its text is not empty, and one that is there if a flag is set.
given : Text → Option Text
given s = if is_empty s then none else some s

flagged : Bool → Option Text
flagged b = if b then some (bytes "on") else none

-- The fields of the view, each with its value if it has one.
pub trace_fields : TraceArgs → Dataset → List (Text × Option Text)
trace_fields a d =
    (bytes "fl", some d.ray)
    ∷ (bytes "h", some a.host)
    ∷ (bytes "ip", some d.ip)
    ∷ (bytes "version", some d.version)
    ∷ (bytes "ts", some a.ts)
    ∷ (
      bytes "visit_scheme",
      some (
          if not (is_empty a.forwarded)
          then a.forwarded
          else if a.tls
          then bytes "https"
          else bytes "http"),
    )
    ∷ (bytes "uag", some d.ua)
    ∷ (bytes "colo", some d.colo)
    ∷ (bytes "colo_city", given d.colo_city)
    ∷ (bytes "colo_country", if is_empty d.colo_city then none else some d.colo_country)
    ∷ (bytes "country", some d.country)
    ∷ (bytes "country_source", given d.country_source)
    ∷ (bytes "asn", some (bytes "AS" ++ itoa_ℤ d.asn))
    ∷ (bytes "asorg", some d.as_org)
    ∷ (bytes "prefix", given d.prefix)
    ∷ (bytes "rir", given d.rir)
    ∷ (bytes "allocated", given d.allocated)
    ∷ (bytes "reverse", given d.reverse)
    ∷ (bytes "pop", given d.pop)
    ∷ (bytes "pop_city", given d.pop_city)
    ∷ (bytes "pop_country", given d.pop_country)
    ∷ (bytes "pop_v4", given d.pop_v4)
    ∷ (bytes "pop_v6", given d.pop_v6)
    ∷ (bytes "via", some d.via)
    ∷ (bytes "vpn", some (if d.vpn.vpn then bytes "on" else bytes "off"))
    ∷ (bytes "vpn_db", some (if d.vpn.ready then bytes "loaded" else bytes "unavailable"))
    ∷ (bytes "hosting", flagged d.vpn.hosting)
    ∷ (bytes "tor", flagged d.vpn.tor)
    ∷ (bytes "privacy_proxy", flagged d.vpn.privacy_proxy)
    ∷ (bytes "provider", given d.vpn.provider)
    ∷ []

-- Those that have a value.
pub present : List (Text × Option Text) → List (Text × Text)
present [] = []
present ((k, none) ∷ fs) = present fs
present ((k, some v) ∷ fs) = (k, v) ∷ present fs

abbrev Shows : Row → Text × Option Text → Type 0
Shows r f = (r.label ≡ f.0) × ((if r.shown then some r.value else none) ≡ f.1)

abbrev AreShown : List Row → List (Text × Option Text) → Type 0
AreShown [] [] = Unit
AreShown [] (f ∷ fs) = ⊥
AreShown (r ∷ rs) [] = ⊥
AreShown (r ∷ rs) (f ∷ fs) = Shows r f × AreShown rs fs

fields-present :
    (rs : List Row) (fs : List (Text × Option Text)) → AreShown rs fs → fields rs ≡ present fs
unfolding fields present
fields-present [] [] h = refl
fields-present [] (f ∷ fs) h = elim h [ ]
fields-present (r ∷ rs) [] h = elim h [ ]
fields-present (r ∷ rs) ((k, o) ∷ fs) ((e, v), h) = elim (Bool-cases r.shown) [
  | inl shown ↦
      let value : some r.value ≡ o = rw shown at v in
      rw (shown, ← value, e, fields-present rs fs h) refl
  | inr hidden ↦
      let empty : none ≡ o = rw hidden at v in rw (hidden, ← empty) (fields-present rs fs h)
]

shows-given : (v : Text) → (if not (is_empty v) then some v else none) ≡ given v
unfolding given
shows-given v = ground arith

shows-scheme :
    (a : TraceArgs)
    → scheme_of a ≡ (
        if not (is_empty a.forwarded)
        then a.forwarded
        else if a.tls
        then bytes "https"
        else bytes "http")
unfolding scheme_of
shows-scheme a = ground arith

shows-behind :
    (c v : Text)
    → (if not (is_empty c) then some v else none) ≡ (if is_empty c then none else some v)
shows-behind c v = ground arith

trace_rows-AreShown : (a : TraceArgs) (d : Dataset) → AreShown (trace_rows a d) (trace_fields a d)
unfolding trace_rows trace_fields on_off ready_word flagged
trace_rows-AreShown a d =
    search (shows-given, shows-behind, ap (λ (x : Text). some x) (shows-scheme a))

-- Where no value has a line feed in it, reading the trace view line by line gives back exactly the
-- fields that it should have, by their names and in this order: those of the request and of the
-- data centre, the country, the network, the exit, and the flags of the verdict that are set.
pub read_fields-trace_text :
    (a : TraceArgs) (d : Dataset)
    → All IsUnbroken (trace_rows a d)
    → read_fields (trace_text a d) ≡ present (trace_fields a d)
read_fields-trace_text a d u =
    read_fields-trace_rows a d u
    ∙ fields-present (trace_rows a d) (trace_fields a d) (trace_rows-AreShown a d)
