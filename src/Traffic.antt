-- ===== src/Traffic.antt =====
-- internal/services/trafficlog.go: what reaches the table `query_log`. The rows of the queries that
-- fill the caches are arguments, and so is what the patterns of the two parsers find in a line.
-- A set is the list of its elements, the cache of replies a list of pairs, the newest row of the
-- log stands first.
pub mod Verdicts
pub mod Cache
mod Tests
use airgapp_rpi.Base.{
  ℕ, Bool, true, false, not, ◌&&◌, ◌||◌, Option, none, some, List, [], ◌∷◌, ◌++◌, map, any, keep,
  length, ltb, if◌then◌else◌,
}
use airgapp_rpi.Base.Text.{Text, codes, str_eq, has_suffix, trim_space}
use airgapp_rpi.Base.Lines.{contains}
use airgapp_rpi.Floor.{clean, is_under, is_protected_denied}
use airgapp_rpi.Domains.{normalize_domain}
use airgapp_rpi.Validate.{is_empty}
use airgapp_rpi.Network.{lookup, put}

-- `TrafficEntry` without its number and time.
pub record Entry : Type 0 where
  pub src_ip : Text
  pub dst_ip : Text
  pub dst_port : Text
  pub protocol : Text
  pub verdict : Text
  pub src_mac : Text
  pub domain : Text
  pub source : Text
  pub policy : Text

abbrev pub blank_entry : Entry
blank_entry = record {
  src_ip = [];
  dst_ip = [];
  dst_port = [];
  protocol = [];
  verdict = [];
  src_mac = [];
  domain = [];
  source = [];
  policy = [];
}

-- A row of `muted_domains`.
pub record MuteRow : Type 0 where
  pub pattern : Text
  pub is_exact : Bool
  pub enabled : Bool

pub record Log : Type 0 where
  pub dns_cache : List (Text × Text)
  pub ignored_macs : List Text
  pub ignored_ips : List Text
  pub muted_exact : List Text
  pub muted_suffix : List Text
  pub allow_suffix : List Text
  pub mutes : List MuteRow
  pub entries : List Entry

abbrev pub non_empty : List Text → List Text
non_empty xs = keep (λ x. not (is_empty x)) xs

-- `RefreshIgnoreCache` on its rows: the MAC and the address of every device that is left out.
unfoldable pub refresh_ignore_cache : List (Text × Text) → Log → Log
refresh_ignore_cache rows s = record s {
  ignored_macs = map clean (non_empty (map (λ r. r.0) rows));
  ignored_ips = map trim_space (non_empty (map (λ r. r.1) rows));
}

unfoldable pub refresh_mute_cache : Log → Log
refresh_mute_cache s = record s {
  muted_exact =
      non_empty (map (λ r. clean r.pattern) (keep (λ r. r.enabled && r.is_exact) s.mutes));
  muted_suffix =
      non_empty (map (λ r. clean r.pattern) (keep (λ r. r.enabled && not r.is_exact) s.mutes));
}

unfoldable pub refresh_allow_cache : List Text → Log → Log
refresh_allow_cache rows s = record s { allow_suffix = non_empty (map clean rows) }

unfoldable pub is_muted : Log → Text → Bool
is_muted s domain =
    let d = clean domain in
    if is_empty d
    then false
    else any (λ p. str_eq p d) s.muted_exact || any (is_under d) s.muted_suffix

unfoldable pub dns_resolvable : Log → Text → Bool
dns_resolvable s domain =
    let d = clean domain in
    if is_empty d || is_protected_denied d then false else any (is_under d) s.allow_suffix

unfoldable pub is_ignored : Log → Text → Text → Bool
is_ignored s mac ip =
    (not (is_empty mac) && any (λ m. str_eq m (clean mac)) s.ignored_macs)
    || (not (is_empty ip) && any (λ a. str_eq a (trim_space ip)) s.ignored_ips)

unfoldable pub insert_entry : Entry → Log → Log
insert_entry raw s =
    let e = record raw { source = if is_empty raw.source then codes "forward" else raw.source } in
    if is_ignored s e.src_mac e.src_ip
    then s
    else if not (is_empty e.domain) && is_muted s e.domain
    then s
    else record s { entries = e ∷ s.entries }

-- What the patterns find in a line of nftables' log; a part that is not there is `none`.
pub record NfLine : Type 0 where
  pub src : Text
  pub dst : Text
  pub proto : Text
  pub port : Option Text
  pub mac : Option Text
  pub policy : Option Text

abbrev pub or_empty : Option Text → Text
or_empty none = []
or_empty (some s) = s

-- The verdict and the policy that the prefixes in the message stand for.
unfoldable pub nf_verdict : Text → Text × Text
nf_verdict message =
    if contains message (codes "[NETFILTER-DROP-DOH]")
    then (codes "blocked", codes "DoH chokepoint")
    else if contains message (codes "[NETFILTER-DROP-DOT]")
    then (codes "blocked", codes "DoT chokepoint")
    else if contains message (codes "[NETFILTER-DROP")
    then (codes "blocked", [])
    else if contains message (codes "[NETFILTER-ACCEPT")
    then (codes "allowed", [])
    else (codes "logged", [])

unfoldable pub parse_nf_line : Text → Option NfLine → Log → Log
parse_nf_line message none s = s
parse_nf_line message (some l) s =
    let (verdict, policy) = nf_verdict message in
    insert_entry
      (record blank_entry {
        src_ip = l.src;
        dst_ip = l.dst;
        protocol = l.proto;
        source = codes "forward";
        dst_port = or_empty l.port;
        src_mac = or_empty l.mac;
        verdict = verdict;
        policy = if is_empty policy then or_empty l.policy else policy;
        domain = or_empty (lookup l.dst s.dns_cache);
      })
      s

-- What the patterns find in a line of dnsmasq's log.
pub data DnsLine : Type 0 where
  query : Text → Text → DnsLine
  reply : Text → Text → DnsLine
  other : DnsLine

abbrev pub max_cached : ℕ
max_cached = 10000

-- The answer is kept by address; a cache that has grown too large is emptied.
unfoldable pub cache_reply : Text → Text → List (Text × Text) → List (Text × Text)
cache_reply domain address cache =
    let grown = put address domain cache in if ltb max_cached (length grown) then [] else grown

unfoldable pub parse_dns_line : DnsLine → Log → Log
parse_dns_line (query domain client) s =
    if str_eq domain (codes "localhost") || has_suffix domain (codes ".local")
    then s
    else insert_entry
        (record blank_entry {
          protocol = codes "DNS";
          dst_port = codes "53";
          src_ip = client;
          domain = domain;
          verdict = if dns_resolvable s domain then codes "resolved" else codes "sinkholed";
          source = codes "dns";
        })
        s
parse_dns_line (reply domain address) s = record s {
  dns_cache = cache_reply domain address s.dns_cache;
}
parse_dns_line other s = s

unfoldable pub log_sni_event : Text → Text → Bool → Log → Log
log_sni_event client sni allowed s =
    insert_entry
      (record blank_entry {
        src_ip = client;
        domain = sni;
        dst_port = codes "443";
        protocol = codes "TLS";
        verdict = if allowed then codes "allowed" else codes "blocked";
        source = codes "sniproxy";
      })
      s

-- `ON CONFLICT(pattern) DO UPDATE SET enabled = 1`
unfoldable pub upsert_mute : Text → List MuteRow → List MuteRow
upsert_mute pattern [] = record { pattern = pattern; is_exact = false; enabled = true } ∷ []
upsert_mute pattern (r ∷ rows) =
    let rest = upsert_mute pattern rows in
    if str_eq r.pattern pattern then record r { enabled = true } ∷ rows else r ∷ rest

-- `none` for a domain that is not valid.
unfoldable pub add_muted : Text → Log → Option Log
add_muted domain s =
    let pattern = normalize_domain domain in
    if is_empty pattern
    then none
    else some (refresh_mute_cache (record s { mutes = upsert_mute pattern s.mutes }))
