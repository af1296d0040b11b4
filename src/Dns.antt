-- ===== src/Dns.antt =====
-- internal/services/dns.go: the configuration of dnsmasq, and the repair of older installations. A
-- file is the list of its lines, as `bufio.Scanner` gives them; the rows of the queries are
-- arguments.
pub mod Healed
pub mod Served
pub mod Vetted
mod Tests
use airgapp_rpi.Base.{
  ℕ, Bool, true, false, not, ◌&&◌, ◌||◌, Option, none, some, List, [], ◌∷◌, ◌++◌, map, any, keep,
  ◌==◌, if◌then◌else◌,
}
use mathlib.Core.List.{flat_map}
use airgapp_rpi.Base.Text.{Text, codes, str_eq, has_prefix, to_lower, trim_space}
use airgapp_rpi.Base.Lines.{split_on, join, unlines, fields}
use airgapp_rpi.Floor.{clean, is_protected_denied, spoof_conn_man_host}
use airgapp_rpi.Domains.{valid_domain}
use airgapp_rpi.Validate.{is_empty, valid_mac}

abbrev pub non_blank : List Text → List Text
non_blank [] = []
non_blank (p ∷ ps) =
    let rest = non_blank ps in if is_empty (trim_space p) then rest else trim_space p ∷ rest

unfoldable pub split_upstreams : Text → List Text
split_upstreams csv = elim (non_blank (split_on b',' csv)) [
  | [] ↦ codes "1.1.1.1" ∷ []
  | p ∷ ps ↦ p ∷ ps
]

-- `allowedDomains` and `openDeviceMACs` on the rows of their queries.
unfoldable pub allowed_domains : List Text → List Text
allowed_domains rows = keep (λ d. not (is_empty d) && valid_domain d) (map clean rows)

unfoldable pub open_device_macs : List Text → List Text
open_device_macs rows = keep valid_mac (map clean rows)

abbrev pub server_line : Text → Text → Text
server_line domain up = codes "server=/" ++ (domain ++ (b'/' ∷ up))

abbrev pub host_line : Text → Text
host_line mac = codes "dhcp-host=" ++ (mac ++ codes ",set:open")

-- `— ` in UTF-8.
abbrev pub dash : Text
dash = 226 ∷ 128 ∷ 148 ∷ codes " "

abbrev pub preamble : List Text
preamble =
    (codes "# Generated by netfilterd " ++ (dash ++ codes "do not edit"))
    ∷ codes "# Default-deny DNS: only filter-enabled domains resolve; everything"
    ∷ codes "# else is sinkholed to 0.0.0.0. Extra-defense layer behind the SNI proxy."
    ∷ []
    ∷ codes "address=/#/0.0.0.0"
    ∷ []
    ∷ (codes "# connman captive-check " ++ (dash ++ codes "must resolve for the spoof to work"))
    ∷ []

abbrev pub allow_heading : Text
allow_heading = codes "# Filter allow-list " ++ (dash ++ codes "resolve via upstream")

-- The lines of the domains of the filters.
abbrev pub allow_lines : List Text → List Text → List Text
allow_lines ups [] = []
allow_lines ups (d ∷ domains) =
    let rest = allow_lines ups domains in
    if is_protected_denied d then rest else map (server_line d) ups ++ rest

abbrev pub open_lines : List Text → List Text → List Text
open_lines ups [] = []
open_lines ups (mac ∷ macs) =
    []
      ∷ (codes "# Open devices "
          ++ (dash ++ codes "handed public DNS, bypass the default-deny resolver"))
      ∷ map host_line (mac ∷ macs)
    ++ (codes "dhcp-option=tag:open,6," ++ join (b',' ∷ []) ups) ∷ []

unfoldable pub config_lines : List Text → List Text → List Text → List Text
config_lines ups domains macs =
    preamble
    ++ (map (server_line spoof_conn_man_host) ups
        ++ ([] ∷ allow_heading ∷ (allow_lines ups domains ++ open_lines ups macs)))

unfoldable pub build_dns_config : List Text → List Text → List Text → Text
build_dns_config ups domains macs = unlines (config_lines ups domains macs)

-- A forwarder for every name: `server=` with no domain behind it.
unfoldable pub is_global_upstream : Text → Bool
is_global_upstream l =
    has_prefix (trim_space l) (codes "server=")
    && not (has_prefix (trim_space l) (codes "server=/"))

abbrev pub first_is : Text → List Text → Bool
first_is w [] = false
first_is w (f ∷ fs) = str_eq f w

unfoldable pub is_no_resolv : Text → Bool
is_no_resolv l = first_is (codes "no-resolv") (fields (trim_space l))

unfoldable pub stripped : Text → Text
stripped l =
    codes "# stripped by netfilterd (global upstream defeats default-deny): " ++ trim_space l

abbrev pub added_line : Text
added_line =
    codes "no-resolv  # added by netfilterd " ++ (dash ++ codes "no fallback to /etc/resolv.conf")

-- What the loop of `stripGlobalUpstreamsAndAddNoResolv` has when it ends.
pub record Healing : Type 0 where
  pub lines : List Text
  pub seen_no_resolv : Bool
  pub changed : Bool

unfoldable pub heal : Bool → List Text → Healing
heal seen [] = record { lines = []; seen_no_resolv = seen; changed = false }
heal seen (l ∷ ls) =
    let directive = not (is_global_upstream l) && is_no_resolv l in
    let rest = heal (seen || directive) ls in
    if is_global_upstream l
    then record rest { lines = stripped l ∷ rest.lines; changed = true }
    else if directive && seen
    then record rest { changed = true }
    else record rest { lines = l ∷ rest.lines }

-- The lines that are written, and `none` when nothing changed.
unfoldable pub strip_global_upstreams : List Text → Option (List Text)
strip_global_upstreams ls =
    let h = heal false ls in
    if not h.seen_no_resolv
    then some (h.lines ++ added_line ∷ [])
    else if h.changed
    then some h.lines
    else none

abbrev pub is_loopback : List Text → Bool
is_loopback (k ∷ v ∷ []) =
    str_eq k (codes "nameserver") && (str_eq v (codes "127.0.0.1") || str_eq v (codes "::1"))
is_loopback t = false

abbrev pub is_loopback_line : Text → Bool
is_loopback_line l = is_loopback (fields (trim_space l))

unfoldable pub strip_loopback : List Text → Option (List Text)
strip_loopback ls =
    if any is_loopback_line ls then some (keep (λ l. not (is_loopback_line l)) ls) else none
