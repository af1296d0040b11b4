-- ===== src/Traffic/Verdicts.antt =====
-- The verdict that internal/services/trafficlog.go stores with a query, and the one that the SNI
-- proxy gives on a connection.
use airgapp_rpi.Base.{
  ◌≡◌, refl, Bool, not, ◌&&◌, ◌||◌, some, List, [], ◌∷◌, map, any, arith, if◌then◌else◌,
}
use airgapp_rpi.Base.Text.{Text, codes, str_eq, has_suffix, trim_space}
use airgapp_rpi.Base.Trim.{trim_space-twice, trim_space-to_lower}
use airgapp_rpi.Floor.{clean, is_under, is_protected_denied}
use airgapp_rpi.Validate.{is_empty}
use airgapp_rpi.Validate.Lines.{to_lower-twice}
use airgapp_rpi.Sni.{Proxy, refresh_cache, match_sni, sni_allowed}
use airgapp_rpi.Traffic.{
  Entry, Log, non_empty, refresh_allow_cache, dns_resolvable, is_ignored, is_muted, insert_entry,
  query, parse_dns_line,
}

clean-twice : (s : Text) → clean (clean s) ≡ clean s
unfolding clean
clean-twice s =
    rw (trim_space-to_lower (trim_space s), trim_space-twice s, to_lower-twice (trim_space s)) refl

denied-clean : (s : Text) → is_protected_denied (clean s) ≡ is_protected_denied s
unfolding is_protected_denied
denied-clean s = rw (clean-twice s) refl

-- The proxy's own test for an empty suffix has nothing to do on a list that has none.
any-non_empty :
    (p : Text → Bool) (xs : List Text)
    → any (λ x. not (is_empty x) && p x) (non_empty xs) ≡ any p (non_empty xs)
any-non_empty p [] = refl
any-non_empty p (x ∷ xs) = ground (arith, any-non_empty p xs)

dns_resolvable-sni_allowed :
    (s : Log) (p : Proxy) (rows macs : List Text) (domain : Text)
    → dns_resolvable (refresh_allow_cache rows s) domain
      ≡ sni_allowed domain (refresh_cache p (some rows) (some macs)).suffixes
unfolding dns_resolvable refresh_allow_cache sni_allowed match_sni refresh_cache
dns_resolvable-sni_allowed s p rows macs domain =
    let same = any-non_empty (is_under (clean domain)) (map clean rows) in
    let floor = denied-clean domain in ground (arith, same, floor)

-- What leaves no entry: a local name, a device that is left out, a muted domain.
unfoldable pub is_skipped : Log → Text → Text → Bool
is_skipped s domain client =
    (str_eq domain (codes "localhost") || has_suffix domain (codes ".local"))
    || (is_ignored s [] client || (not (is_empty domain) && is_muted s domain))

abbrev pub dns_entry : Text → Text → Text → Entry
dns_entry domain client verdict = record {
  src_ip = client;
  dst_ip = [];
  dst_port = codes "53";
  protocol = codes "DNS";
  verdict = verdict;
  src_mac = [];
  domain = domain;
  source = codes "dns";
  policy = [];
}

-- For every list of enabled domains, whatever is written into it, and every query of a client: a
-- local name, a client that is left out and a muted domain leave the log as it was; any other query
-- is stored, as "resolved" exactly when the SNI proxy, with the same list, lets a connection of a
-- filtered device to that name through, and as "sinkholed" otherwise.
pub parse_dns_line-verdict :
    (s : Log) (p : Proxy) (rows macs : List Text) (domain client : Text)
    → (parse_dns_line (query domain client) (refresh_allow_cache rows s)).entries ≡ (
        if is_skipped s domain client
        then s.entries
        else dns_entry domain client (
            if sni_allowed domain (refresh_cache p (some rows) (some macs)).suffixes
            then codes "resolved"
            else codes "sinkholed")
          ∷ s.entries)
unfolding parse_dns_line insert_entry is_skipped is_ignored is_muted refresh_allow_cache
parse_dns_line-verdict s p rows macs domain client =
    ground (arith, dns_resolvable-sni_allowed s p rows macs domain)
