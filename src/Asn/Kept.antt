-- ===== src/Asn/Kept.antt =====
-- asn.go: how long an answer about an address is kept.
use ip_unt1_com.Prelude.{ℕ, Text, if◌then◌else◌}
use ip_unt1_com.Prelude.Int.{ℤ, pos}
use ip_unt1_com.Net.{Addr}
use ip_unt1_com.Net.Show.{show_addr}
use ip_unt1_com.Cache.{TtlCache}
use ip_unt1_com.Cache.Alone.{Times, do_alone}
use ip_unt1_com.Asn.{
  AsnInfo, AsnResult, TxtAnswer, resolve, cached_answer, lookup_asn, asn_cache_ttl, asn_error_ttl,
}

-- What a look-up that no other one meets asks and keeps, with what the name service answers.
module _ (lookup_txt : Text → TxtAnswer) (org_of : ℤ → Text) where
  abbrev answer_for : Addr → AsnResult × ℤ
  answer_for ip = let (r, ttl) = cached_answer lookup_txt org_of ip in (r, pos ttl)

  -- How long the answer about an address is kept.
  abbrev pub ttl_for : Addr → ℕ
  ttl_for ip = if (resolve lookup_txt org_of ip).ok then asn_cache_ttl else asn_error_ttl

  abbrev pub after_lookup : TtlCache AsnResult → Times → Addr → TtlCache AsnResult
  after_lookup c t ip = (do_alone c (show_addr ip) t (answer_for ip)).0

  abbrev pub lookup_at : TtlCache AsnResult → Times → Addr → AsnInfo
  lookup_at c t = lookup_asn (λ key ip. (do_alone c key t (answer_for ip)).1)
