-- ===== src/Firewall/Rules.antt =====
-- `buildRuleLines` and `resolveHostOrIP` of internal/services/firewall.go.
pub mod OneLine
use airgapp_rpi.Base.{
  ℕ, Bool, true, false, not, ◌&&◌, ◌||◌, Option, none, some, List, [], ◌∷◌, ◌++◌, map, keep, ◌==◌,
  if◌then◌else◌,
}
use airgapp_rpi.Base.Text.{Text, codes, str_eq, to_lower, trim_space}
use airgapp_rpi.Base.Lines.{contains}
use airgapp_rpi.Validate.{
  Net, is_empty, valid_mac, valid_protocol, valid_port_spec, valid_ip_or_cidr,
}
use airgapp_rpi.Firewall.{
  FirewallRule, Match, saddr_mac, proto, meta_icmp, ip_saddr, ip_daddr, dport, Line, action,
}

abbrev pub when : Bool → Match → List Match
when b m = if b then m ∷ [] else []

abbrev pub protocol_part : Text → List Match
protocol_part p =
    if is_empty p || str_eq p (codes "all")
    then []
    else if str_eq p (codes "icmp")
    then meta_icmp ∷ []
    else proto p ∷ []

-- `strings.ReplaceAll(comment, "\"", "'")`
unfoldable pub unquote : Text → Text
unquote s = map (λ c. if c == b'"' then b'\'' else c) s

unfoldable pub rule_comment : FirewallRule → Text → Option Text
rule_comment r dest =
    let named = not (is_empty r.dest_ip) && not (str_eq r.dest_ip dest) in
    if is_empty r.description
    then none
    else if named
    then some (unquote (r.description ++ codes " (" ++ r.dest_ip ++ codes ")"))
    else some (unquote r.description)

-- The body of the loop, for one destination; the empty one stands for any.
unfoldable pub rule_line : FirewallRule → Text → Line
rule_line r dest = record {
  matches =
      when (not (is_empty r.device_mac)) (saddr_mac (to_lower r.device_mac))
      ++ protocol_part r.protocol
      ++ when (not (is_empty r.source_ip)) (ip_saddr r.source_ip)
      ++ when (not (is_empty dest)) (ip_daddr dest)
      ++ when
          (not (is_empty r.dest_port)
            && (not (str_eq r.protocol (codes "icmp")) && not (str_eq r.protocol (codes "all"))))
          (dport r.dest_port);
  log_prefix =
      if str_eq r.action (codes "accept") then some (codes "[NETFILTER-ACCEPT] ") else none;
  verdict = action r.action;
  comment = rule_comment r dest;
}

module _ (net : Net) where
  unfoldable pub resolve_host_or_ip : Text → List Text
  resolve_host_or_ip raw =
      let input = trim_space raw in
      if is_empty input
      then []
      else if (contains input (b'/' ∷ []) && net.is_cidr input) || net.is_ip input
      then input ∷ []
      else net.lookup_ip4 input

  -- The early returns before the loop.
  unfoldable pub rule_is_valid : FirewallRule → Bool
  rule_is_valid r =
      valid_protocol r.protocol
      && ((is_empty r.source_ip || valid_ip_or_cidr net r.source_ip)
          && (valid_port_spec r.dest_port && (is_empty r.device_mac || valid_mac r.device_mac)))

  unfoldable pub destinations : FirewallRule → List Text
  destinations r =
      if is_empty r.dest_ip
      then [] ∷ []
      else keep (valid_ip_or_cidr net) (resolve_host_or_ip r.dest_ip)

  unfoldable pub build_rule_lines : FirewallRule → List Line
  build_rule_lines r = if rule_is_valid r then map (rule_line r) (destinations r) else []
