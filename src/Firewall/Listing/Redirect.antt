-- ===== src/Firewall/Listing/Redirect.antt =====
-- The line of internal/services/firewall.go that redirects the HTTPS of one device, as the check
-- of the same file sees it.
use airgapp_rpi.Base.{
  ◌≡◌, refl, ap, subst, true, false, ◌&&◌, List, [], ◌∷◌, ◌++◌, map, any, all, All, arith,
  Bool-cases, inl, inr,
}
use airgapp_rpi.Base.Text.{Text, codes, str_eq, to_lower, has_prefix, lower_byte}
use airgapp_rpi.Base.Lines.{
  contains, contains_self, one_line, one_line-append, one_line-join, lower-join, lower-right,
  decimal, decimal-one_line, decimal-lower, join,
}
use airgapp_rpi.Validate.{is_empty, valid_mac}
use airgapp_rpi.Validate.Lines.{
  IsSolid, valid_mac-IsSolid, valid_mac-nonempty, solid-to_lower, solid-one_line, to_lower-twice,
}
use airgapp_rpi.Firewall.{
  Config, Line, line, line_text, match_text, verdict_text, with_status, iifname, saddr_mac, proto,
  dport, redirect,
}
use airgapp_rpi.Firewall.Chains.{filtered_nat}
use airgapp_rpi.Firewall.Listing.{is_redirect, redirect_text}

-- A MAC of the snapshot: not empty, and no byte of it is a blank or upper case.
abbrev pub IsListed : Text → Type 0
IsListed mac = (is_empty mac ≡ false) × All IsSolid mac

pub with_status-IsListed :
    (status : Text) (rows : List (Text × Text)) → All IsListed (with_status status rows)
with_status-IsListed status [] = tt
with_status-IsListed status ((mac, s) ∷ rows) =
    elim (Bool-cases (valid_mac (to_lower mac) && str_eq s status)) [
      | inl e ↦ rw e (
        (
          subst (λ m. is_empty m ≡ false) (to_lower-twice mac)
              (valid_mac-nonempty (to_lower mac) (ground arith)),
          subst (All IsSolid) (to_lower-twice mac)
              (valid_mac-IsSolid (to_lower mac) (ground arith)),
        ),
        with_status-IsListed status rows,
      )
      | inr e ↦ rw e (with_status-IsListed status rows)
    ]

module _ (cfg : Config) (plain : one_line cfg.lan_interface ≡ true) where
  -- The second line of a filtered device.
  redirect_line : Text → Line
  redirect_line mac =
      line
        (iifname cfg.lan_interface ∷ saddr_mac mac ∷ proto (codes "tcp") ∷ dport (codes "443") ∷ [])
        (redirect cfg.sni_proxy_port)

  parts : Text → List Text
  parts mac =
      (codes "iifname \"" ++ cfg.lan_interface ++ b'"' ∷ [])
      ∷ (codes "ether saddr " ++ mac)
      ∷ codes "tcp"
      ∷ codes "dport 443"
      ∷ redirect_text cfg
      ∷ []

  -- As `chain_text` writes it.
  indented : Text → Text
  indented mac = codes "        " ++ line_text (redirect_line mac)

  indented-parts : (mac : Text) → indented mac ≡ codes "        " ++ join (b' ' ∷ []) (parts mac)
  unfolding redirect_line parts indented line_text match_text verdict_text
  indented-parts mac = refl

  parts-one_line : (mac : Text) → All IsSolid mac → all one_line (parts mac) ≡ true
  unfolding parts one_line
  parts-one_line mac h =
      let lan : one_line (codes "iifname \"" ++ cfg.lan_interface ++ b'"' ∷ []) ≡ true =
        one_line-append (codes "iifname \"" ++ cfg.lan_interface) (b'"' ∷ [])
          (one_line-append (codes "iifname \"") cfg.lan_interface refl plain) refl in
      let saddr : one_line (codes "ether saddr " ++ mac) ≡ true =
        one_line-append (codes "ether saddr ") mac refl (solid-one_line mac h) in
      let port : one_line (redirect_text cfg) ≡ true =
        one_line-append (codes "redirect to :") (decimal cfg.sni_proxy_port) refl
          (decimal-one_line cfg.sni_proxy_port) in
      ground arith

  indented-one_line : (mac : Text) → All IsSolid mac → one_line (indented mac) ≡ true
  unfolding one_line
  indented-one_line mac h = rw (indented-parts mac) (
      one_line-append (codes "        ") (join (b' ' ∷ []) (parts mac)) refl
        (one_line-join (b' ' ∷ []) (parts mac) refl (parts-one_line mac h)))

  indented-contains :
      (mac p : Text)
      → any (λ l. contains (to_lower l) p) (parts mac) ≡ true
      → contains (to_lower (indented mac)) p ≡ true
  indented-contains mac p h = rw (indented-parts mac) (
      lower-right (codes "        ") (join (b' ' ∷ []) (parts mac)) p
        (lower-join (b' ' ∷ []) (parts mac) p h))

  port-contains : contains (to_lower (codes "dport 443")) (codes "dport 443") ≡ true
  unfolding contains to_lower has_prefix lower_byte
  port-contains = refl

  redirect-lower : to_lower (redirect_text cfg) ≡ redirect_text cfg
  unfolding to_lower lower_byte
  redirect-lower = ap (λ t. codes "redirect to :" ++ t) (decimal-lower cfg.sni_proxy_port)

  indented-is_redirect : (mac : Text) → All IsSolid mac → is_redirect cfg mac (indented mac) ≡ true
  unfolding is_redirect parts
  indented-is_redirect mac h =
      let own : contains (to_lower (codes "ether saddr " ++ mac)) mac ≡ true =
        lower-right (codes "ether saddr ") mac mac
          (rw (solid-to_lower mac h) (contains_self mac)) in
      let port : contains (to_lower (codes "dport 443")) (codes "dport 443") ≡ true =
        port-contains in
      let proxy : contains (to_lower (redirect_text cfg)) (redirect_text cfg) ≡ true =
        rw redirect-lower (contains_self (redirect_text cfg)) in
      rw
        (
          indented-contains mac mac (ground arith),
          indented-contains mac (codes "dport 443") (ground arith),
          indented-contains mac (redirect_text cfg) (ground arith),
        )
        refl

  pub line-holds :
      (mac : Text)
      → All IsSolid mac
      → any
          (λ l. one_line l && is_redirect cfg mac l)
          (map (λ l. codes "        " ++ line_text l) (filtered_nat cfg mac))
        ≡ true
  unfolding indented redirect_line
  line-holds mac h = rw (indented-one_line mac h, indented-is_redirect mac h) (ground arith)
