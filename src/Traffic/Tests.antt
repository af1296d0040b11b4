-- ===== src/Traffic/Tests.antt =====
-- Runs of Traffic on concrete lines.
use airgapp_rpi.Base.{
  if◌then◌else◌, ◌≡◌, ◌≤◌, refl, Bool, true, false, Option, none, some, List, [], ◌∷◌, map, length,
  All,
}
use airgapp_rpi.Base.Text.{
  Text, codes, str_eq, has_prefix, has_suffix, is_space, trim_left, trim_space, to_lower,
  lower_byte,
}
use airgapp_rpi.Base.Lines.{contains}
use airgapp_rpi.Floor.{clean, is_under, is_exempt, denied_by, is_protected_denied}
use airgapp_rpi.Domains.{valid_domain, matches_domain, normalize_domain}
use airgapp_rpi.Network.{lookup, put}
use airgapp_rpi.Sni.{Proxy, refresh_cache, sni_allowed}
use airgapp_rpi.Traffic.{
  Log, refresh_mute_cache, refresh_ignore_cache, refresh_allow_cache, is_muted, is_ignored,
  dns_resolvable, insert_entry, nf_verdict, parse_nf_line, query, reply, parse_dns_line,
  cache_reply, max_cached, upsert_mute, add_muted,
}
use airgapp_rpi.Traffic.Verdicts.{is_skipped, dns_entry, parse_dns_line-verdict}
use airgapp_rpi.Traffic.Cache.{Event, nf, dns, ingest, ingest_all, IsWanted, ingest_all-IsWanted}

abbrev no_log : Log
no_log = record {
  dns_cache = [];
  ignored_macs = [];
  ignored_ips = [];
  muted_exact = [];
  muted_suffix = codes "spam.com" ∷ [];
  allow_suffix = codes "x.ai" ∷ [];
  mutes = [];
  entries = [];
}

abbrev car : Text
car = codes "192.168.4.20"

abbrev events : List Event
events =
    dns (query (codes "a.spam.com") car)
    ∷ dns (query (codes "api.X.ai") car)
    ∷ dns (reply (codes "evil.com") (codes "6.6.6.6"))
    ∷ nf (codes "[NETFILTER-DROP] x") (
        some (record {
          src = car;
          dst = codes "6.6.6.6";
          proto = codes "TCP";
          port = some (codes "22");
          mac = none;
          policy = none;
        }))
    ∷ []

test_events :
    map {B = Text × Text} (λ e. (e.domain, e.verdict)) (ingest_all events no_log).entries
    ≡ (codes "evil.com", codes "blocked") ∷ (codes "api.X.ai", codes "resolved") ∷ []
unfolding ingest_all ingest parse_dns_line parse_nf_line nf_verdict cache_reply lookup put
    insert_entry is_ignored is_muted dns_resolvable contains has_prefix clean is_protected_denied
    denied_by is_exempt is_under has_suffix trim_space trim_left is_space to_lower lower_byte str_eq
test_events = refl

abbrev muted : Option Log → Text → Bool
muted none d = false
muted (some s) d = is_muted s d

test_muted : muted (add_muted (codes "*.Ads.com") no_log) (codes "x.ads.com") ≡ true
unfolding add_muted upsert_mute refresh_mute_cache is_muted normalize_domain valid_domain
    matches_domain clean is_under has_suffix trim_space trim_left is_space to_lower lower_byte
    str_eq
test_muted = refl

test_ignored :
    is_ignored (refresh_ignore_cache ((codes "AA:BB", car) ∷ []) no_log) [] (codes " 192.168.4.20")
    ≡ true
unfolding is_ignored refresh_ignore_cache clean trim_space trim_left is_space to_lower lower_byte
    str_eq
test_ignored = refl

abbrev proxy : Proxy
proxy = record { leases = []; arp = []; suffixes = []; filtered = [] }

parse_dns_line-verdict_example :
    (parse_dns_line
      (query (codes "api.x.ai") car)
      (refresh_allow_cache (codes " X.ai" ∷ []) no_log)).entries
    ≡ (if is_skipped no_log (codes "api.x.ai") car
        then no_log.entries
        else dns_entry (codes "api.x.ai") car (
            if sni_allowed
              (codes "api.x.ai")
              (refresh_cache proxy (some (codes " X.ai" ∷ [])) (some [])).suffixes
            then codes "resolved"
            else codes "sinkholed")
          ∷ no_log.entries)
parse_dns_line-verdict_example =
    parse_dns_line-verdict no_log proxy (codes " X.ai" ∷ []) [] (codes "api.x.ai") car

ingest_all-IsWanted_example :
    All (IsWanted no_log) (ingest_all events no_log).entries
    × (length (ingest_all events no_log).dns_cache ≤ max_cached)
ingest_all-IsWanted_example = ingest_all-IsWanted no_log events refl refl
