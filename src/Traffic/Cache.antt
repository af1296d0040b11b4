-- ===== src/Traffic/Cache.antt =====
-- What a run of log lines leaves in the service of internal/services/trafficlog.go.
use airgapp_rpi.Base.{
  ◌≤◌, ◌≡◌, refl, sym, subst, Bool, false, not, ◌&&◌, ◌||◌, Option, none, some, List, [], ◌∷◌,
  length, All, arith, Bool-cases, inl, inr, ltb,
}
use airgapp_rpi.Base.Text.{Text, codes, str_eq, has_suffix}
use airgapp_rpi.Validate.{is_empty}
use airgapp_rpi.Network.{put}
use airgapp_rpi.Traffic.{
  Entry, Log, is_ignored, is_muted, insert_entry, NfLine, parse_nf_line, DnsLine, query, reply,
  other, parse_dns_line, cache_reply, max_cached, log_sni_event,
}

-- What comes in: a line of nftables' log with what the patterns find in it, one of dnsmasq's, and a
-- decision of the SNI proxy.
pub data Event : Type 0 where
  nf : Text → Option NfLine → Event
  dns : DnsLine → Event
  sni : Text → Text → Bool → Event

unfoldable pub ingest : Event → Log → Log
ingest (nf message found) s = parse_nf_line message found s
ingest (dns l) s = parse_dns_line l s
ingest (sni client host allowed) s = log_sni_event client host allowed s

unfoldable pub ingest_all : List Event → Log → Log
ingest_all [] s = s
ingest_all (e ∷ events) s = ingest_all events (ingest e s)

-- What the caches of devices and of muted domains say of an entry.
pub record IsWanted (s : Log) (e : Entry) : Type 0 where
  pub device : is_ignored s e.src_mac e.src_ip ≡ false
  pub domain : (not (is_empty e.domain) && is_muted s e.domain) ≡ false

-- A log whose caches are those of another, with wanted entries and a bounded cache of replies.
record Inv (base s : Log) : Type 0 where
  macs : s.ignored_macs ≡ base.ignored_macs
  ips : s.ignored_ips ≡ base.ignored_ips
  exact : s.muted_exact ≡ base.muted_exact
  suffix : s.muted_suffix ≡ base.muted_suffix
  wanted : All (IsWanted base) s.entries
  bounded : length s.dns_cache ≤ max_cached

ignored-same :
    (base s : Log) (mac ip : Text) → Inv base s → is_ignored s mac ip ≡ is_ignored base mac ip
unfolding is_ignored
ignored-same base s mac ip i = rw (i.macs, i.ips) refl

muted-same : (base s : Log) (d : Text) → Inv base s → is_muted s d ≡ is_muted base d
unfolding is_muted
muted-same base s d i = rw (i.exact, i.suffix) refl

insert_entry-Inv : (base s : Log) (e : Entry) → Inv base s → Inv base (insert_entry e s)
unfolding insert_entry
insert_entry-Inv base s e i = elim (Bool-cases (is_ignored s e.src_mac e.src_ip)) [
  | inl x ↦ rw x i
  | inr x ↦ elim (Bool-cases (not (is_empty e.domain) && is_muted s e.domain)) [
    | inl y ↦ rw (x, y) i
    | inr y ↦
        rw (x, y)
          (record {
            macs = i.macs;
            ips = i.ips;
            exact = i.exact;
            suffix = i.suffix;
            wanted = (
              record {
                device = rw (sym (ignored-same base s e.src_mac e.src_ip i)) x;
                domain = rw (sym (muted-same base s e.domain i)) y;
              },
              i.wanted,
            );
            bounded = i.bounded;
          })
  ]
]

cache_reply-bounded :
    (domain address : Text) (cache : List (Text × Text))
    → length (cache_reply domain address cache) ≤ max_cached
unfolding cache_reply
cache_reply-bounded domain address cache =
    elim (Bool-cases (ltb max_cached (length (put address domain cache)))) [
      | inl e ↦ rw e (omega arith)
      | inr e ↦ rw e (ground arith)
    ]

ingest-Inv : (base s : Log) (e : Event) → Inv base s → Inv base (ingest e s)
unfolding ingest parse_nf_line parse_dns_line log_sni_event
ingest-Inv base s (nf message none) i = i
ingest-Inv base s (nf message (some l)) i = insert_entry-Inv base s _ i
ingest-Inv base s (sni client host allowed) i = insert_entry-Inv base s _ i
ingest-Inv base s (dns other) i = i
ingest-Inv base s (dns (reply domain address)) i = record {
  macs = i.macs;
  ips = i.ips;
  exact = i.exact;
  suffix = i.suffix;
  wanted = i.wanted;
  bounded = cache_reply-bounded domain address s.dns_cache;
}
ingest-Inv base s (dns (query domain client)) i =
    elim (Bool-cases (str_eq domain (codes "localhost") || has_suffix domain (codes ".local"))) [
      | inl e ↦ rw e i
      | inr e ↦ rw e (insert_entry-Inv base s _ i)
    ]

ingest_all-Inv : (base s : Log) (events : List Event) → Inv base s → Inv base (ingest_all events s)
unfolding ingest_all
ingest_all-Inv base s [] i = i
ingest_all-Inv base s (e ∷ events) i =
    ingest_all-Inv base (ingest e s) events (ingest-Inv base s e i)

-- From a log without entries and replies, through any lines and decisions, in any order: no entry
-- that is stored comes from a device that is left out or names a muted domain, and the cache of
-- replies never holds more than 10000 addresses.
pub ingest_all-IsWanted :
    (s : Log) (events : List Event)
    → s.entries ≡ []
    → s.dns_cache ≡ []
    → All (IsWanted s) (ingest_all events s).entries
      × (length (ingest_all events s).dns_cache ≤ max_cached)
ingest_all-IsWanted s events no_entries no_replies =
    let start : Inv s s = record {
      macs = refl;
      ips = refl;
      exact = refl;
      suffix = refl;
      wanted = subst (All (IsWanted s)) (sym no_entries) tt;
      bounded = rw no_replies (omega arith);
    } in
    let i = ingest_all-Inv s s events start in (i.wanted, i.bounded)
