-- ===== src/Firewall.antt =====
-- internal/services/firewall.go. Here: the configuration it reads, the device snapshot, and the
-- lines of a chain as data with the text they are written as. Rules has the lines of a user's
-- rule, Chains the whole file, Listing the check on what the kernel has loaded.
pub mod Rules
pub mod Chains
pub mod Listing
pub mod Policy
mod Tests
use airgapp_rpi.Base.{
  ℕ, Bool, true, false, not, ◌&&◌, Option, none, some, List, [], ◌∷◌, ◌++◌, map, keep, leb,
  if◌then◌else◌,
}
use airgapp_rpi.Base.Text.{Text, codes, str_eq, to_lower}
use airgapp_rpi.Base.Lines.{join, decimal}
use airgapp_rpi.Validate.{valid_mac}

-- What the service reads of `config.Config`.
pub record Config : Type 0 where
  pub lan_interface : Text
  pub wan_interface : Text
  pub lan_gateway : Text
  pub dns_upstream : Text
  pub sni_proxy_port : ℕ

-- `models.FirewallRule`, in the order of `ListRules`: what the file depends on.
pub record FirewallRule : Type 0 where
  pub description : Text
  pub direction : Text
  pub protocol : Text
  pub source_ip : Text
  pub dest_ip : Text
  pub dest_port : Text
  pub action : Text
  pub device_mac : Text
  pub enabled : Bool

-- `deviceSnapshot`
pub record Snapshot : Type 0 where
  pub filtered : List Text
  pub open_macs : List Text
  pub blocked : List Text

-- `loadDeviceSnapshot` on the rows of its query, a MAC and a status each. A status that is none of
-- the three is not selected.
abbrev pub with_status : Text → List (Text × Text) → List Text
with_status status [] = []
with_status status ((mac, s) ∷ rows) =
    let rest = with_status status rows in
    if valid_mac (to_lower mac) && str_eq s status then to_lower mac ∷ rest else rest

unfoldable pub load_device_snapshot : List (Text × Text) → Snapshot
load_device_snapshot rows = record {
  filtered = with_status (codes "filtered") rows;
  open_macs = with_status (codes "open") rows;
  blocked = with_status (codes "blocked") rows;
}

-- `filterUDPPorts` and `filterTCPPorts` on the rows of their queries; `none` is a query that fails.
unfoldable pub filter_ports : Option (List ℕ) → List ℕ
filter_ports none = []
filter_ports (some ports) = keep (λ p. leb 1 p && leb p 65535) ports

-- A condition of a line.
pub data Match : Type 0 where
  iifname oifname saddr_mac proto ip_saddr ip_daddr ip_daddr_not dport : Text → Match
  meta_icmp iif_lo established ct_new : Match

-- What the line does. `action` is a verdict by its name.
pub data Verdict : Type 0 where
  action dnat : Text → Verdict
  redirect : ℕ → Verdict
  masquerade : Verdict

abbrev pub accept : Verdict
accept = action (codes "accept")

abbrev pub drop : Verdict
drop = action (codes "drop")

pub record Line : Type 0 where
  pub matches : List Match
  pub log_prefix : Option Text
  pub verdict : Verdict
  pub comment : Option Text

abbrev pub quoted : Text → Text
quoted s = b'"' ∷ s ++ b'"' ∷ []

unfoldable pub match_text : Match → Text
match_text (iifname s) = codes "iifname " ++ quoted s
match_text (oifname s) = codes "oifname " ++ quoted s
match_text (saddr_mac s) = codes "ether saddr " ++ s
match_text (proto s) = s
match_text (ip_saddr s) = codes "ip saddr " ++ s
match_text (ip_daddr s) = codes "ip daddr " ++ s
match_text (ip_daddr_not s) = codes "ip daddr != " ++ s
match_text (dport s) = codes "dport " ++ s
match_text meta_icmp = codes "meta l4proto icmp"
match_text iif_lo = codes "iif lo"
match_text established = codes "ct state established,related"
match_text ct_new = codes "ct state new"

unfoldable pub verdict_text : Verdict → Text
verdict_text (action s) = s
verdict_text (dnat s) = codes "dnat to " ++ s
verdict_text (redirect n) = codes "redirect to :" ++ decimal n
verdict_text masquerade = codes "masquerade"

abbrev pub log_text : Option Text → List Text
log_text none = []
log_text (some s) = (codes "log prefix " ++ quoted s) ∷ []

abbrev pub comment_text : Option Text → List Text
comment_text none = []
comment_text (some s) = (codes "comment " ++ quoted s) ∷ []

unfoldable pub line_text : Line → Text
line_text l = join (b' ' ∷ []) (
    map match_text l.matches
    ++ log_text l.log_prefix
    ++ verdict_text l.verdict ∷ comment_text l.comment)

abbrev pub line : List Match → Verdict → Line
line ms v = record { matches = ms; log_prefix = none; verdict = v; comment = none }
