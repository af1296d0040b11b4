-- ===== src/Firewall/Tests.antt =====
-- Runs of Firewall on concrete devices and rules.
use airgapp_rpi.Base.{◌≡◌, refl, Bool, true, false, none, List, [], ◌∷◌, map, all, if◌then◌else◌}
use mathlib.Core.List.{flat_map}
use airgapp_rpi.Base.Text.{
  Text, codes, str_eq, to_lower, lower_byte, trim_space, trim_left, is_space, has_prefix,
}
use airgapp_rpi.Base.Lines.{unlines, one_line, contains, split_on, join, decimal, digits}
use airgapp_rpi.Validate.{
  Net, valid_mac, hex_octets, valid_port_spec, valid_protocol, valid_ip4, valid_ip_or_cidr,
}
use airgapp_rpi.Firewall.{
  Config, FirewallRule, Snapshot, load_device_snapshot, Match, iifname, saddr_mac, proto, dport,
  ct_new, Verdict, accept, drop, redirect, Line, line_text, match_text, verdict_text,
}
use airgapp_rpi.Firewall.Rules.{
  build_rule_lines, rule_is_valid, destinations, resolve_host_or_ip, rule_line, rule_comment,
  unquote,
}
use airgapp_rpi.Firewall.Chains.{forward, prerouting, chain_text, rules_for, mac_lines, port_lines}
use airgapp_rpi.Firewall.Listing.{verify_output}
use airgapp_rpi.Firewall.Listing.Written.{verify_output-written}
use airgapp_rpi.Firewall.Policy.{
  Kernel, is_from, device_policy, forward-refines, prerouting-intercepts,
}

abbrev car : Text
car = codes "4c:fc:aa:00:00:01"

abbrev phone : Text
phone = codes "aa:bb:cc:00:00:02"

abbrev cfg : Config
cfg = record {
  lan_interface = codes "wlan0";
  wan_interface = codes "eth0";
  lan_gateway = codes "192.168.4.1";
  dns_upstream = codes "1.1.1.1,8.8.8.8";
  sni_proxy_port = 8444;
}

abbrev rows : List (Text × Text)
rows = (codes "4C:FC:AA:00:00:01", codes "filtered") ∷ (phone, codes "blocked") ∷ []

abbrev devices : Snapshot
devices = record { filtered = car ∷ []; open_macs = []; blocked = phone ∷ [] }

-- One address is known, and one name is resolved to it.
abbrev net : Net
net = record {
  is_cidr = λ s. false;
  is_ip = λ s. str_eq s (codes "9.9.9.9");
  is_ip4 = λ s. str_eq s (codes "9.9.9.9");
  lookup_ip4 = λ s. codes "9.9.9.9" ∷ [];
}

abbrev rule : FirewallRule
rule = record {
  description = codes "quad9";
  direction = codes "forward";
  protocol = codes "tcp";
  source_ip = [];
  dest_ip = codes "dns.quad9.net";
  dest_port = codes "853";
  action = codes "accept";
  device_mac = codes "4C:FC:AA:00:00:01";
  enabled = true;
}

test_snapshot : load_device_snapshot rows ≡ devices
unfolding load_device_snapshot valid_mac hex_octets to_lower lower_byte str_eq
test_snapshot = refl

test_rule :
    map line_text (build_rule_lines net rule)
    ≡ codes
        "ether saddr 4c:fc:aa:00:00:01 tcp ip daddr 9.9.9.9 dport 853 log prefix \"[NETFILTER-ACCEPT] \" accept comment \"quad9 (dns.quad9.net)\""
      ∷ []
unfolding build_rule_lines rule_is_valid destinations resolve_host_or_ip rule_line rule_comment
    unquote line_text match_text verdict_text join valid_mac hex_octets to_lower lower_byte str_eq
    valid_port_spec valid_protocol valid_ip4 valid_ip_or_cidr trim_space trim_left is_space contains
    split_on has_prefix
test_rule = refl

-- A line break in the description becomes one in the file.
test_description :
    all
      (λ l. one_line (line_text l))
      (build_rule_lines net (record rule { description = codes "x\"\n        accept #" }))
    ≡ false
unfolding build_rule_lines rule_is_valid destinations resolve_host_or_ip rule_line rule_comment
    unquote line_text match_text verdict_text join valid_mac hex_octets to_lower lower_byte str_eq
    valid_port_spec valid_protocol valid_ip4 valid_ip_or_cidr trim_space trim_left is_space contains
    split_on one_line has_prefix
test_description = refl

-- A port above 65535 passes the check on port specifications.
test_port : valid_port_spec (codes "99999") ≡ true
unfolding valid_port_spec split_on
test_port = refl

pub record Probe : Type 0 where
  pub from : Text
  pub met : Match → Bool

abbrev same_mac : Match → Probe → Bool
same_mac (saddr_mac mac) p = str_eq mac p.from
same_mac m p = p.met m

abbrev judged : Verdict → List Line → Probe → Verdict
judged policy [] p = policy
judged policy (l ∷ ls) p =
    let rest = judged policy ls p in if all (λ m. same_mac m p) l.matches then l.verdict else rest

abbrev kernel : Kernel
kernel = record {
  Packet = Probe;
  source = λ p. p.from;
  hits = same_mac;
  judge = judged;
  hits-saddr_mac = λ mac p. refl;
  judge-nil = λ policy p. refl;
  judge-cons = λ policy l ls p. refl;
}

abbrev https : Match → Bool
https (iifname s) = true
https (proto s) = str_eq s (codes "tcp")
https (dport s) = str_eq s (codes "443")
https ct_new = true
https m = false

abbrev packet : Probe
packet = record { from = car; met = https }

forward-refines_example :
    kernel.judge drop (forward net (rule ∷ []) devices [] (443 ∷ [])) packet
    ≡ device_policy kernel net (rule ∷ []) devices [] (443 ∷ []) packet
forward-refines_example = forward-refines kernel net (rule ∷ []) devices [] (443 ∷ []) packet

test_forward : kernel.judge drop (forward net (rule ∷ []) devices [] (443 ∷ [])) packet ≡ accept
unfolding forward rules_for build_rule_lines rule_is_valid destinations resolve_host_or_ip rule_line
    rule_comment unquote valid_mac hex_octets to_lower lower_byte str_eq valid_port_spec
    valid_protocol valid_ip4 valid_ip_or_cidr trim_space trim_left is_space contains split_on
    mac_lines port_lines flat_map decimal digits has_prefix
test_forward = refl

prerouting-intercepts_example : kernel.judge accept (prerouting cfg devices) packet ≡ redirect 8444
unfolding is_from str_eq
prerouting-intercepts_example =
    prerouting-intercepts kernel cfg devices packet refl refl refl refl refl

verify_output-written_example :
    verify_output cfg
      (unlines (
        chain_text
          (codes "prerouting")
          (codes "nat hook prerouting priority dstnat; policy accept")
          (prerouting cfg (load_device_snapshot rows))))
      (unlines (
        chain_text (codes "forward") (codes "filter hook forward priority filter; policy drop") []))
      (load_device_snapshot rows).filtered
    ≡ none
unfolding one_line load_device_snapshot valid_mac hex_octets to_lower lower_byte str_eq
verify_output-written_example = verify_output-written cfg refl rows [] refl
