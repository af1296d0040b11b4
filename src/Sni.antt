-- ===== src/Sni.antt =====
-- internal/services/sniproxy.go: who may connect where. `leases` and `arp` are what the two lookup
-- functions return; the rows of the two queries, and whether the upstream can be dialled and
-- written to, are arguments. A Go map is a list of pairs, a set of MACs the list of its keys.
pub mod Decision
pub mod Refused
mod Tests
use airgapp_rpi.Base.{
  ℕ, Bool, true, false, not, ◌&&◌, ◌||◌, Option, none, some, List, [], ◌∷◌, ◌++◌, map, any, keep,
  if◌then◌else◌,
}
use airgapp_rpi.Base.Text.{Text, str_eq, to_upper, trim_space}
use airgapp_rpi.Floor.{clean, is_under, is_protected_denied}
use airgapp_rpi.Hello.{Parsed, exhausted, name, ReadHello, failed, read_hello, read_client_hello}

pub record Proxy : Type 0 where
  pub leases : List (Text × List Text)
  pub arp : List (Text × Text)
  pub suffixes : List Text
  pub filtered : List Text

abbrev pub is_empty : Text → Bool
is_empty [] = true
is_empty (c ∷ s) = false

abbrev pub member : Text → List Text → Bool
member x xs = any (str_eq x) xs

abbrev pub clean_mac : Text → Text
clean_mac mac = to_upper (trim_space mac)

abbrev non_empty : List Text → List Text
non_empty xs = keep (λ x. not (is_empty x)) xs

-- `RefreshCache` with the rows of its two queries; `none` is a query that fails.
unfoldable pub refresh_cache : Proxy → Option (List Text) → Option (List Text) → Proxy
refresh_cache p none macs = p
refresh_cache p (some domains) none = p
refresh_cache p (some domains) (some macs) = record p {
  suffixes = non_empty (map clean domains);
  filtered = non_empty (map clean_mac macs);
}

abbrev leased_to : List (Text × List Text) → Text → Option Text
leased_to [] ip = none
leased_to ((mac, ips) ∷ leases) ip = if member ip ips then some mac else leased_to leases ip

abbrev arp_of : List (Text × Text) → Text → Option Text
arp_of [] ip = none
arp_of ((addr, mac) ∷ arp) ip = if str_eq addr ip then some mac else arp_of arp ip

unfoldable pub client_mac : Proxy → Text → Text
client_mac p ip = elim (leased_to p.leases ip) [
  | some mac ↦ clean_mac mac
  | none ↦ elim (arp_of p.arp ip) [ some mac ↦ clean_mac mac | none ↦ [] ]
]

unfoldable pub policy_for : Proxy → Text → List Text × Bool
policy_for p ip =
    let mac = client_mac p ip in
    if is_empty mac then ([], false) else (p.suffixes, member mac p.filtered)

-- `matchSNI` after the trimming.
abbrev pub matches_suffix : Text → List Text → Bool
matches_suffix sni suffixes = any (λ suf. not (is_empty suf) && is_under sni suf) suffixes

unfoldable pub match_sni : Text → List Text → Bool
match_sni sni suffixes = if is_empty (clean sni) then false else matches_suffix (clean sni) suffixes

unfoldable pub sni_allowed : Text → List Text → Bool
sni_allowed sni suffixes = if is_protected_denied sni then false else match_sni sni suffixes

-- What a connection does to the outside, in order.
pub data Event : Type 0 where
  dial replay : Text → Event
  log_sni : Text → Text → Bool → Event
  splice : Event

abbrev host_of : Parsed → Text
host_of exhausted = []
host_of (name host) = host

module _ (dial_ok write_ok : Text → Bool) where
  -- From the host name on: the connection goes to port 443 of `sni`.
  unfoldable pub connect : Proxy → Text → Text → Text → List Event
  unfolding policy_for sni_allowed
  connect p ip raw sni =
      let (suffixes, is_filtered) = policy_for p ip in
      if not (is_filtered && sni_allowed sni suffixes)
      then log_sni ip sni false ∷ []
      else if not (dial_ok sni)
      then dial sni ∷ log_sni ip sni false ∷ []
      else if not (write_ok raw)
      then dial sni ∷ replay raw ∷ []
      else dial sni ∷ replay raw ∷ log_sni ip sni true ∷ splice ∷ []

  -- `handle` on the bytes that the client sends.
  unfoldable pub handle : Proxy → Text → Text → List Event
  unfolding connect
  handle p ip bytes = elim (read_client_hello bytes) [
    | failed e ↦ []
    | read_hello raw rest parsed ↦ connect p ip raw (host_of parsed)
  ]
