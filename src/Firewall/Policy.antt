-- ===== src/Firewall/Policy.antt =====
-- What the chains of internal/services/firewall.go do to a packet, for any nftables that goes
-- through a chain the documented way.
use airgapp_rpi.Base.{
  ℕ, ◌≡◌, ◌∙◌, refl, Bool, true, false, not, ◌&&◌, ◌||◌, List, [], ◌∷◌, ◌++◌, map, any, all, arith,
  if◌then◌else◌, Bool-cases, inl, inr,
}
use mathlib.Core.List.{flat_map}
use airgapp_rpi.Base.Text.{Text, codes, str_eq, to_lower}
use airgapp_rpi.Base.Lines.{decimal, all_of-append}
use airgapp_rpi.Validate.{Net, is_empty}
use airgapp_rpi.Firewall.{
  Config, FirewallRule, Snapshot, Match, Verdict, Line, line, saddr_mac, proto, dport, iifname,
  established, ct_new, accept, drop, redirect, meta_icmp, ip_saddr, ip_daddr, action,
}
use airgapp_rpi.Firewall.Rules.{
  when, protocol_part, rule_line, rule_is_valid, destinations, build_rule_lines,
}
use airgapp_rpi.Firewall.Chains.{
  forward, prerouting, rules_for, port_line, port_lines, mac_lines, logged_drop, filtered_nat,
  open_nat,
}

-- The kernel's side: which condition a packet meets, and the verdict of a chain on it. The first
-- line whose conditions are all met decides, and the chain's policy when there is none.
pub record Kernel : Type 1 where
  pub Packet : Type 0
  pub source : Packet → Text
  pub hits : Match → Packet → Bool
  pub judge : Verdict → List Line → Packet → Verdict
  pub hits-saddr_mac : (mac : Text) (p : Packet) → hits (saddr_mac mac) p ≡ str_eq mac (source p)
  pub judge-nil : (policy : Verdict) (p : Packet) → judge policy [] p ≡ policy
  pub judge-cons :
      (policy : Verdict) (l : Line) (ls : List Line) (p : Packet)
      → judge policy (l ∷ ls) p
        ≡ (if all (λ m. hits m p) l.matches then l.verdict else judge policy ls p)

module _ (k : Kernel) where
  -- The packet comes from a device of the list.
  unfoldable pub is_from : List Text → k.Packet → Bool
  is_from macs p = any (λ mac. str_eq mac (k.source p)) macs

  -- A new flow to one of the ports.
  unfoldable pub opens_port : Text → List ℕ → k.Packet → Bool
  opens_port protocol ports p =
      any
        (λ port. k.hits (proto protocol) p && (k.hits (dport (decimal port)) p && k.hits ct_new p))
        ports

  -- The packet meets what the rule asks for, with one of the rule's destinations.
  unfoldable pub rule_meets : FirewallRule → k.Packet → Text → Bool
  rule_meets r p dest =
      (is_empty r.device_mac || k.hits (saddr_mac (to_lower r.device_mac)) p)
      && ((is_empty r.protocol
            || (str_eq r.protocol (codes "all")
                || (if str_eq r.protocol (codes "icmp")
                    then k.hits meta_icmp p
                    else k.hits (proto r.protocol) p)))
          && ((is_empty r.source_ip || k.hits (ip_saddr r.source_ip) p)
              && ((is_empty dest || k.hits (ip_daddr dest) p)
                  && (is_empty r.dest_port
                      || (str_eq r.protocol (codes "icmp")
                          || (str_eq r.protocol (codes "all") || k.hits (dport r.dest_port) p))))))

  -- The first rule that is enabled, for the direction, valid, and met, gives its action.
  unfoldable pub rules_verdict : Net → Text → Verdict → List FirewallRule → k.Packet → Verdict
  rules_verdict net direction policy [] p = policy
  rules_verdict net direction policy (r ∷ rules) p =
      let rest = rules_verdict net direction policy rules p in
      if r.enabled
        && (str_eq r.direction direction
            && (rule_is_valid net r && any (rule_meets r p) (destinations net r)))
      then action r.action
      else rest

  -- What a device may send through the gateway: the rules by which the chain is meant to decide.
  unfoldable pub device_policy :
      Net → List FirewallRule → Snapshot → List ℕ → List ℕ → k.Packet → Verdict
  device_policy net rules snap udp tcp p =
      let other =
        if is_from snap.filtered p
          && (opens_port (codes "udp") udp p || opens_port (codes "tcp") tcp p)
        then accept
        else drop in
      if k.hits established p
      then accept
      else if is_from snap.blocked p
      then drop
      else if is_from snap.open_macs p
      then accept
      else rules_verdict net (codes "forward") other rules p

  judge-mac_lines :
      (policy v : Verdict) (macs : List Text) (p : k.Packet)
      → k.judge policy (mac_lines v macs) p ≡ (if is_from macs p then v else policy)
  unfolding is_from mac_lines
  judge-mac_lines policy v [] p = rw k.judge-nil refl
  judge-mac_lines policy v (mac ∷ macs) p =
      rw (k.judge-cons, k.hits-saddr_mac, judge-mac_lines policy v macs p) (ground arith)

  judge-append :
      (policy : Verdict) (xs ys : List Line) (p : k.Packet)
      → k.judge policy (xs ++ ys) p ≡ k.judge (k.judge policy ys p) xs p
  judge-append policy [] ys p = rw k.judge-nil refl
  judge-append policy (l ∷ xs) ys p =
      rw
        (
          k.judge-cons policy l (xs ++ ys) p,
          k.judge-cons (k.judge policy ys p) l xs p,
          judge-append policy xs ys p,
        )
        refl

  unfoldable port_hit : Text → ℕ → k.Packet → Bool
  port_hit protocol port p =
      k.hits (proto protocol) p && (k.hits (dport (decimal port)) p && k.hits ct_new p)

  judge-port_line :
      (policy : Verdict) (protocol : Text) (port : ℕ) (macs : List Text) (p : k.Packet)
      → k.judge policy (map (port_line protocol port) macs) p
        ≡ (if is_from macs p && port_hit protocol port p then accept else policy)
  unfolding is_from port_hit
  judge-port_line policy protocol port [] p = rw k.judge-nil refl
  judge-port_line policy protocol port (mac ∷ macs) p =
      rw (k.judge-cons, k.hits-saddr_mac, judge-port_line policy protocol port macs p)
        (ground arith)

  judge-port_lines :
      (policy : Verdict) (protocol : Text) (ports : List ℕ) (macs : List Text) (p : k.Packet)
      → k.judge policy (port_lines protocol ports macs) p
        ≡ (if is_from macs p && opens_port protocol ports p then accept else policy)
  unfolding port_lines opens_port flat_map port_hit
  judge-port_lines policy protocol [] macs p = rw k.judge-nil (ground arith)
  judge-port_lines policy protocol (port ∷ ports) macs p =
      rw
        (
          judge-append policy (map (port_line protocol port) macs) (port_lines protocol ports macs)
              p,
          judge-port_line (k.judge policy (port_lines protocol ports macs) p) protocol port macs p,
          judge-port_lines policy protocol ports macs p,
        )
        (ground arith)

  all-when :
      (b : Bool) (m : Match) (p : k.Packet)
      → all (λ m'. k.hits m' p) (when b m) ≡ (not b || k.hits m p)
  all-when true m p = ground arith
  all-when false m p = refl

  all-protocol_part :
      (s : Text) (p : k.Packet)
      → all (λ m. k.hits m p) (protocol_part s) ≡ (
          is_empty s
          || (str_eq s (codes "all")
              || (if str_eq s (codes "icmp") then k.hits meta_icmp p else k.hits (proto s) p)))
  all-protocol_part s p = ground arith

  rule_line-meets :
      (r : FirewallRule) (dest : Text) (p : k.Packet)
      → all (λ m. k.hits m p) (rule_line r dest).matches ≡ rule_meets r p dest
  unfolding rule_line rule_meets
  rule_line-meets r dest p =
      let port =
        not (is_empty r.dest_port)
        && (not (str_eq r.protocol (codes "icmp")) && not (str_eq r.protocol (codes "all"))) in
      rw
        (
          all_of-append,
          all_of-append,
          all_of-append,
          all_of-append,
          all-when (not (is_empty r.device_mac)) (saddr_mac (to_lower r.device_mac)) p,
          all-protocol_part r.protocol p,
          all-when (not (is_empty r.source_ip)) (ip_saddr r.source_ip) p,
          all-when (not (is_empty dest)) (ip_daddr dest) p,
          all-when port (dport r.dest_port) p,
        )
        (ground arith)

  rule_line-verdict :
      (r : FirewallRule) (dest : Text) → (rule_line r dest).verdict ≡ action r.action
  unfolding rule_line
  rule_line-verdict r dest = refl

  judge-rule :
      (policy : Verdict) (r : FirewallRule) (dests : List Text) (p : k.Packet)
      → k.judge policy (map (rule_line r) dests) p
        ≡ (if any (rule_meets r p) dests then action r.action else policy)
  judge-rule policy r [] p = rw k.judge-nil refl
  judge-rule policy r (dest ∷ dests) p =
      rw
        (
          k.judge-cons policy (rule_line r dest) (map (rule_line r) dests) p,
          rule_line-meets r dest p,
          judge-rule policy r dests p,
          rule_line-verdict r dest,
        )
        (ground arith)

  judge-rules :
      (net : Net) (direction : Text) (policy : Verdict) (rules : List FirewallRule) (p : k.Packet)
      → k.judge policy (rules_for net direction rules) p
        ≡ rules_verdict net direction policy rules p
  unfolding rules_for rules_verdict build_rule_lines
  judge-rules net direction policy [] p = k.judge-nil policy p
  judge-rules net direction policy (r ∷ rules) p =
      let later = judge-rules net direction policy rules p in
      elim (Bool-cases (r.enabled && str_eq r.direction direction)) [
        | inr e ↦ rw (e, later) (ground (arith, e))
        | inl e ↦ elim (Bool-cases (rule_is_valid net r)) [
          | inr v ↦ rw (e, v, later) (ground (arith, e, v))
          | inl v ↦
              rw
                (
                  e,
                  v,
                  judge-append policy (map (rule_line r) (destinations net r))
                      (rules_for net direction rules) p,
                  judge-rule (k.judge policy (rules_for net direction rules) p) r
                      (destinations net r) p,
                  later,
                )
                (ground (arith, e, v))
        ]
      ]

  judge-last : (p : k.Packet) → k.judge drop (logged_drop ∷ line [] drop ∷ []) p ≡ drop
  judge-last p = rw (k.judge-cons, k.judge-cons) (ground arith)

  -- For every kernel that has loaded the forward chain, and every resolver, rule list, device
  -- snapshot, port lists and packet: the chain decides what the device policy decides. Replies pass;
  -- a blocked device is dropped before an open one passes; then the first rule of the operator that is
  -- enabled, for this chain, valid and met decides; then a filtered device may open a new flow to a
  -- port of an enabled filter; all else is dropped. That the kernel accepts the lines of a rule is
  -- not shown.
  pub forward-refines :
      (net : Net) (rules : List FirewallRule) (snap : Snapshot) (udp tcp : List ℕ) (p : k.Packet)
      → k.judge drop (forward net rules snap udp tcp) p ≡ device_policy net rules snap udp tcp p
  unfolding forward device_policy
  forward-refines net rules snap udp tcp p =
      rw
        (
          k.judge-cons, judge-append, judge-append, judge-append, judge-append, judge-append,
          judge-last, judge-port_lines, judge-port_lines, judge-rules, judge-mac_lines,
          judge-mac_lines,
        )
        (ground arith)

  judge-elsewhere :
      (cfg : Config) (policy : Verdict) (mac : Text) (ls : List Line) (p : k.Packet)
      → str_eq mac (k.source p) ≡ false
      → k.judge policy (filtered_nat cfg mac ++ ls) p ≡ k.judge policy ls p
  judge-elsewhere cfg policy mac ls p h =
      rw (k.judge-cons, k.judge-cons, k.judge-cons, k.judge-cons, k.hits-saddr_mac, h)
        (ground arith)

  judge-redirect :
      (cfg : Config) (policy : Verdict) (mac : Text) (ls : List Line) (p : k.Packet)
      → str_eq mac (k.source p) ≡ true
      → k.hits (iifname cfg.lan_interface) p ≡ true
      → k.hits (proto (codes "tcp")) p ≡ true
      → k.hits (dport (codes "443")) p ≡ true
      → k.hits (dport (codes "80")) p ≡ false
      → k.judge policy (filtered_nat cfg mac ++ ls) p ≡ redirect cfg.sni_proxy_port
  judge-redirect cfg policy mac ls p h lan tcp https plain =
      rw (k.judge-cons, k.judge-cons, k.hits-saddr_mac, h, lan, tcp, https, plain) refl

  judge-filtered :
      (cfg : Config) (policy : Verdict) (macs : List Text) (ls : List Line) (p : k.Packet)
      → is_from macs p ≡ true
      → k.hits (iifname cfg.lan_interface) p ≡ true
      → k.hits (proto (codes "tcp")) p ≡ true
      → k.hits (dport (codes "443")) p ≡ true
      → k.hits (dport (codes "80")) p ≡ false
      → k.judge policy (flat_map (filtered_nat cfg) macs ++ ls) p ≡ redirect cfg.sni_proxy_port
  unfolding is_from flat_map
  judge-filtered cfg policy [] ls p h lan tcp https plain = absurd cc
  judge-filtered cfg policy (mac ∷ macs) ls p h lan tcp https plain =
      elim (Bool-cases (str_eq mac (k.source p))) [
        | inl e ↦
            judge-redirect cfg policy mac (flat_map (filtered_nat cfg) macs ++ ls) p e lan tcp https
              plain
        | inr e ↦
            judge-elsewhere cfg policy mac (flat_map (filtered_nat cfg) macs ++ ls) p e
            ∙ judge-filtered cfg policy macs ls p (ground arith) lan tcp https plain
      ]

  -- A packet from a filtered device that comes in on the LAN for TCP port 443 is redirected to the
  -- port of the SNI proxy, whatever other devices are filtered or open, and whatever its destination:
  -- no other line of the prerouting chain takes it first. A packet for port 443 is not one for 80.
  pub prerouting-intercepts :
      (cfg : Config) (snap : Snapshot) (p : k.Packet)
      → is_from snap.filtered p ≡ true
      → k.hits (iifname cfg.lan_interface) p ≡ true
      → k.hits (proto (codes "tcp")) p ≡ true
      → k.hits (dport (codes "443")) p ≡ true
      → k.hits (dport (codes "80")) p ≡ false
      → k.judge accept (prerouting cfg snap) p ≡ redirect cfg.sni_proxy_port
  unfolding prerouting
  prerouting-intercepts cfg snap p from lan tcp https plain =
      judge-filtered cfg accept snap.filtered (flat_map (open_nat cfg) snap.open_macs) p from lan
        tcp https plain
