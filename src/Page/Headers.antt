-- ===== src/Page/Headers.antt =====
-- main.go: the headers of what the handlers answer.
use ip_unt1_com.Prelude.{
  ℕ, Bool, ◌≡◌, refl, inl, inr, ◌||◌, some, Text, bytes, text_eq, text_instance, Bool-cases, lookup,
  insert,
}
use ip_unt1_com.Strings.{to_lower, equal_fold}
use ip_unt1_com.View.{Request}
use ip_unt1_com.Page.{Dataset}
use ip_unt1_com.Page.Json.{Json}
use ip_unt1_com.Page.Handlers.{
  Response, Route, root, json, country, vpn, trace, all, reverse, no_store, write_json, write_plain,
  show, show_root, show_json, show_country, show_vpn, show_reverse, wants_html, wants_json,
}

-- An answer that no cache keeps and that every page may read.
pub record IsUncached (r : Response) : Type 0 where
  pub status : r.status ≡ 200
  pub uncached : lookup (bytes "Cache-Control") r.headers ≡ some (bytes "no-store")
  pub shared : lookup (bytes "Access-Control-Allow-Origin") r.headers ≡ some (bytes "*")

write_plain-IsUncached : (s : Text) → IsUncached (write_plain s)
unfolding write_plain no_store lookup insert text_eq bytes
write_plain-IsUncached s = record { status = refl; uncached = refl; shared = refl }

write_json-IsUncached : (v : Json) → IsUncached (write_json v)
unfolding write_json no_store lookup insert text_eq bytes
write_json-IsUncached v = record { status = refl; uncached = refl; shared = refl }

show_root-IsUncached : (r : Request) (d : Dataset) → IsUncached (show_root r d)
unfolding show_root no_store lookup insert text_eq bytes
show_root-IsUncached r d = elim (Bool-cases (wants_html r)) [
  | inl page ↦ rw page (record { status = refl; uncached = refl; shared = refl })
  | inr line ↦ rw line (write_plain-IsUncached _)
]

show_json-IsUncached :
    (is_print : ℕ → Bool) (format : Text) (d : Dataset) → IsUncached (show_json is_print format d)
unfolding show_json no_store lookup insert text_eq bytes
show_json-IsUncached is_print format d =
    let f = to_lower format in
    elim (Bool-cases (text_eq f (bytes "yaml") || text_eq f (bytes "yml"))) [
      | inl yaml ↦ rw yaml (record { status = refl; uncached = refl; shared = refl })
      | inr other ↦ elim (Bool-cases (text_eq f (bytes "hosts"))) [
        | inl hosts ↦ rw (other, hosts) (write_plain-IsUncached _)
        | inr tree ↦ rw (other, tree) (write_json-IsUncached _)
      ]
    ]

show_country-IsUncached :
    (r : Request) (format : Text) (d : Dataset) → IsUncached (show_country r format d)
unfolding show_country
show_country-IsUncached r format d =
    elim (Bool-cases (wants_json r || equal_fold format (bytes "json"))) [
      | inl tree ↦ rw tree (write_json-IsUncached _)
      | inr line ↦ rw line (write_plain-IsUncached _)
    ]

pub show-IsUncached :
    (is_print : ℕ → Bool) (path : Route) (r : Request) (format : Text) (d : Dataset)
    → IsUncached (show is_print path r format d)
unfolding show show_vpn show_reverse
show-IsUncached is_print root r format d = show_root-IsUncached r d
show-IsUncached is_print json r format d = show_json-IsUncached is_print format d
show-IsUncached is_print country r format d = show_country-IsUncached r format d
show-IsUncached is_print vpn r format d = write_json-IsUncached _
show-IsUncached is_print (trace a) r format d = write_plain-IsUncached _
show-IsUncached is_print all r format d = write_plain-IsUncached _
show-IsUncached is_print reverse r format d = write_plain-IsUncached _
