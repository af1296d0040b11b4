-- ===== src/Firewall/Chains.antt =====
-- `generateConfig` of internal/services/firewall.go, chain by chain.
use airgapp_rpi.Base.{ℕ, ◌&&◌, none, some, List, [], ◌∷◌, ◌++◌, map, if◌then◌else◌}
use mathlib.Core.List.{flat_map}
use airgapp_rpi.Base.Text.{Text, codes, str_eq}
use airgapp_rpi.Base.Lines.{unlines, decimal}
use airgapp_rpi.Validate.{Net}
use airgapp_rpi.Dns.{split_upstreams}
use airgapp_rpi.Firewall.{
  Config, FirewallRule, Snapshot, Verdict, Line, line, line_text, iifname, oifname, saddr_mac,
  proto, dport, ip_daddr_not, iif_lo, established, ct_new, dnat, redirect, masquerade, accept, drop,
}
use airgapp_rpi.Firewall.Rules.{build_rule_lines}

module _ (cfg : Config) where
  abbrev pub filtered_nat : Text → List Line
  filtered_nat mac =
      let lan = iifname cfg.lan_interface in
      let home = dnat (cfg.lan_gateway ++ codes ":53") in
      let elsewhere = ip_daddr_not cfg.lan_gateway in
      line (lan ∷ saddr_mac mac ∷ proto (codes "tcp") ∷ dport (codes "80") ∷ [])
        (dnat cfg.lan_gateway)
      ∷ line (lan ∷ saddr_mac mac ∷ proto (codes "tcp") ∷ dport (codes "443") ∷ [])
          (redirect cfg.sni_proxy_port)
      ∷ line (lan ∷ saddr_mac mac ∷ elsewhere ∷ proto (codes "udp") ∷ dport (codes "53") ∷ []) home
      ∷ line (lan ∷ saddr_mac mac ∷ elsewhere ∷ proto (codes "tcp") ∷ dport (codes "53") ∷ []) home
      ∷ []

  abbrev pub open_nat : Text → List Line
  open_nat mac =
      let lan = iifname cfg.lan_interface in
      let upstream : List Text → Text = λ ups. elim ups [ [] ↦ [] | up ∷ rest ↦ up ] in
      let away = dnat (upstream (split_upstreams cfg.dns_upstream) ++ codes ":53") in
      line (lan ∷ saddr_mac mac ∷ proto (codes "udp") ∷ dport (codes "53") ∷ []) away
      ∷ line (lan ∷ saddr_mac mac ∷ proto (codes "tcp") ∷ dport (codes "53") ∷ []) away
      ∷ []

  unfoldable pub prerouting : Snapshot → List Line
  prerouting snap = flat_map filtered_nat snap.filtered ++ flat_map open_nat snap.open_macs

  unfoldable pub postrouting : List Line
  postrouting = line (oifname cfg.wan_interface ∷ []) masquerade ∷ []

  abbrev lan_accepts : Text → Text → Line
  lan_accepts p port = line (iifname cfg.lan_interface ∷ proto p ∷ dport port ∷ []) accept

  abbrev tail_accepts : Text → Line
  tail_accepts port =
      line (iifname (codes "tailscale0") ∷ proto (codes "tcp") ∷ dport port ∷ []) accept

  unfoldable pub input : List Line
  input =
      line (established ∷ []) accept
      ∷ line (iif_lo ∷ []) accept
      ∷ lan_accepts (codes "udp") (codes "53")
      ∷ lan_accepts (codes "tcp") (codes "53")
      ∷ lan_accepts (codes "udp") (codes "67")
      ∷ lan_accepts (codes "tcp") (codes "22")
      ∷ lan_accepts (codes "tcp") (codes "80")
      ∷ lan_accepts (codes "tcp") (codes "443")
      ∷ lan_accepts (codes "tcp") (codes "8443")
      ∷ lan_accepts (codes "tcp") (decimal cfg.sni_proxy_port)
      ∷ tail_accepts (codes "22")
      ∷ tail_accepts (codes "8443")
      ∷ []

abbrev pub port_line : Text → ℕ → Text → Line
port_line p port mac = record {
  matches = saddr_mac mac ∷ proto p ∷ dport (decimal port) ∷ ct_new ∷ [];
  log_prefix = some (codes "[NETFILTER-ACCEPT] ");
  verdict = accept;
  comment = none;
}

unfoldable pub port_lines : Text → List ℕ → List Text → List Line
port_lines p ports macs = flat_map (λ port. map (port_line p port) macs) ports

abbrev pub logged_drop : Line
logged_drop = record {
  matches = ct_new ∷ [];
  log_prefix = some (codes "[NETFILTER-DROP] ");
  verdict = drop;
  comment = none;
}

-- One line for each device, on its address alone.
unfoldable pub mac_lines : Verdict → List Text → List Line
mac_lines v macs = map (λ mac. line (saddr_mac mac ∷ []) v) macs

-- A chain as it is written: its name, its hook and policy, its lines, the closing brace.
unfoldable pub chain_text : Text → Text → List Line → List Text
chain_text name hook lines =
    (codes "    chain " ++ name ++ codes " {")
      ∷ (codes "        type " ++ hook ++ codes ";")
      ∷ map (λ l. codes "        " ++ line_text l) lines
    ++ codes "    }" ∷ []

module _ (net : Net) where
  -- The lines of the enabled rules of one direction, in their order.
  unfoldable pub rules_for : Text → List FirewallRule → List Line
  rules_for direction [] = []
  rules_for direction (r ∷ rules) =
      let rest = rules_for direction rules in
      if r.enabled && str_eq r.direction direction then build_rule_lines net r ++ rest else rest

  unfoldable pub forward : List FirewallRule → Snapshot → List ℕ → List ℕ → List Line
  forward rules snap udp tcp =
      line (established ∷ []) accept ∷ mac_lines drop snap.blocked
      ++ mac_lines accept snap.open_macs
      ++ rules_for (codes "forward") rules
      ++ port_lines (codes "udp") udp snap.filtered
      ++ port_lines (codes "tcp") tcp snap.filtered
      ++ logged_drop ∷ line [] drop ∷ []

  unfoldable pub output : List FirewallRule → List Line
  output rules = rules_for (codes "outbound") rules

  unfoldable pub generate_config : Config → List FirewallRule → Snapshot → List ℕ → List ℕ → Text
  generate_config cfg rules snap udp tcp = unlines (
      codes "#!/usr/sbin/nft -f"
        ∷ []
        ∷ codes "flush ruleset"
        ∷ []
        ∷ codes "table ip nat {"
        ∷ chain_text (codes "prerouting")
            (codes "nat hook prerouting priority dstnat; policy accept") (prerouting cfg snap)
      ++ chain_text (codes "postrouting")
          (codes "nat hook postrouting priority srcnat; policy accept") (postrouting cfg)
      ++ codes "}"
        ∷ []
        ∷ codes "table inet filter {"
        ∷ chain_text (codes "input") (codes "filter hook input priority filter; policy drop")
            (input cfg)
      ++ []
        ∷ chain_text (codes "forward") (codes "filter hook forward priority filter; policy drop")
            (forward rules snap udp tcp)
      ++ []
        ∷ chain_text (codes "output") (codes "filter hook output priority filter; policy accept")
            (output rules)
      ++ codes "}" ∷ [])
