-- ===== src/Firewall/Listing/Written.antt =====
-- The check of internal/services/firewall.go on the chains that the same file writes.
use airgapp_rpi.Base.{
  ◌≡◌, ◌∙◌, refl, ap, true, false, not, ◌&&◌, none, List, [], ◌∷◌, ◌++◌, map, any, All,
}
use mathlib.Core.List.{flat_map}
use airgapp_rpi.Base.Text.{Text, codes, trim_space, has_prefix, is_space}
use airgapp_rpi.Base.Trim.{any-trim_space}
use airgapp_rpi.Base.Lines.{
  contains, one_line, unlines, split_on, any-append-left, any-append-right, any-split_on-unlines,
}
use airgapp_rpi.Validate.{is_empty}
use airgapp_rpi.Validate.Lines.{IsSolid, solid-to_lower, solid-trim_space}
use airgapp_rpi.Firewall.{Config, Line, line_text, load_device_snapshot, with_status}
use airgapp_rpi.Firewall.Chains.{filtered_nat, open_nat, prerouting, chain_text}
use airgapp_rpi.Firewall.Listing.Redirect.{IsListed, with_status-IsListed, line-holds}
use airgapp_rpi.Firewall.Listing.{is_redirect, verify_macs, verify_output, is_nil}

module _ (cfg : Config) (plain : one_line cfg.lan_interface ≡ true) where
  -- The lines of a chain as `chain_text` writes them.
  written : List Line → List Text
  written lines = map (λ l. codes "        " ++ line_text l) lines

  written-append : (xs ys : List Line) → written (xs ++ ys) ≡ written xs ++ written ys
  unfolding written
  written-append [] ys = refl
  written-append (x ∷ xs) ys = ap (◌∷◌ (codes "        " ++ line_text x)) (written-append xs ys)

  HasRedirect : List Text → Text → Type 0
  HasRedirect lines mac = any (λ l. one_line l && is_redirect cfg mac l) lines ≡ true

  behind-HasRedirect :
      (before lines macs : List Text)
      → All (HasRedirect lines) macs
      → All (HasRedirect (before ++ lines)) macs
  unfolding HasRedirect
  behind-HasRedirect before lines [] h = tt
  behind-HasRedirect before lines (mac ∷ macs) (r, h) = (
    any-append-right (λ l. one_line l && is_redirect cfg mac l) before lines r,
    behind-HasRedirect before lines macs h,
  )

  before-HasRedirect :
      (lines behind macs : List Text)
      → All (HasRedirect lines) macs
      → All (HasRedirect (lines ++ behind)) macs
  unfolding HasRedirect
  before-HasRedirect lines behind [] h = tt
  before-HasRedirect lines behind (mac ∷ macs) (r, h) = (
    any-append-left (λ l. one_line l && is_redirect cfg mac l) lines behind r,
    before-HasRedirect lines behind macs h,
  )

  own-HasRedirect :
      (mac : Text) (behind : List Text)
      → All IsSolid mac
      → HasRedirect (written (filtered_nat cfg mac) ++ behind) mac
  unfolding HasRedirect written
  own-HasRedirect mac behind s =
      any-append-left (λ l. one_line l && is_redirect cfg mac l) (written (filtered_nat cfg mac))
        behind (line-holds cfg plain mac s)

  filtered-HasRedirect :
      (macs : List Text)
      → All IsListed macs
      → All (HasRedirect (written (flat_map (filtered_nat cfg) macs))) macs
  unfolding flat_map written
  filtered-HasRedirect [] h = tt
  filtered-HasRedirect (mac ∷ macs) ((e, s), h) =
      rw (written-append (filtered_nat cfg mac) (flat_map (filtered_nat cfg) macs)) (
        own-HasRedirect mac (written (flat_map (filtered_nat cfg) macs)) s,
        behind-HasRedirect (written (filtered_nat cfg mac))
            (written (flat_map (filtered_nat cfg) macs)) macs (filtered-HasRedirect macs h),
      )

  verify_macs-listed :
      (lines macs : List Text)
      → All IsListed macs
      → All (λ mac. any (is_redirect cfg mac) lines ≡ true) macs
      → verify_macs cfg lines macs ≡ none
  unfolding verify_macs
  verify_macs-listed lines [] h k = refl
  verify_macs-listed lines (mac ∷ macs) ((e, s), h) (r, k) =
      rw (solid-trim_space mac s, solid-to_lower mac s, e, r, verify_macs-listed lines macs h k)
        refl

  split-HasRedirect :
      (lines macs : List Text)
      → All (HasRedirect lines) macs
      → All (λ mac. any (is_redirect cfg mac) (split_on b'\n' (unlines lines)) ≡ true) macs
  unfolding HasRedirect
  split-HasRedirect lines [] h = tt
  split-HasRedirect lines (mac ∷ macs) (r, h) =
      (any-split_on-unlines (is_redirect cfg mac) lines r, split-HasRedirect lines macs h)

  forward_hook : Text
  forward_hook = codes "filter hook forward priority filter; policy drop"

  chain_text-visible :
      (lines : List Line)
      → any (λ c. not (is_space c)) (unlines (chain_text (codes "forward") forward_hook lines))
        ≡ true
  unfolding unlines chain_text is_space forward_hook
  chain_text-visible lines = refl

  chain_text-denies :
      (lines : List Line)
      → contains (unlines (chain_text (codes "forward") forward_hook lines)) (codes "policy drop")
        ≡ true
  unfolding unlines chain_text contains has_prefix forward_hook
  chain_text-denies lines = refl

  visible-is_empty : (s : Text) → any (λ c. not (is_space c)) s ≡ true → is_empty s ≡ false
  visible-is_empty [] h = absurd cc
  visible-is_empty (c ∷ s) h = refl

  chain_text-HasRedirect :
      (name hook : Text) (lines : List Line) (macs : List Text)
      → All (HasRedirect (written lines)) macs
      → All (HasRedirect (chain_text name hook lines)) macs
  unfolding chain_text written
  chain_text-HasRedirect name hook lines macs h =
      behind-HasRedirect
        ((codes "    chain " ++ name ++ codes " {")
          ∷ (codes "        type " ++ hook ++ codes ";")
          ∷ [])
        (written lines ++ codes "    }" ∷ []) macs
        (before-HasRedirect (written lines) (codes "    }" ∷ []) macs h)

  verify_output-checked :
      (nat fwd : Text) (macs : List Text)
      → any (λ c. not (is_space c)) fwd ≡ true
      → contains fwd (codes "policy drop") ≡ true
      → is_nil macs ≡ false
      → verify_macs cfg (split_on b'\n' nat) macs ≡ none
      → verify_output cfg nat fwd macs ≡ none
  unfolding verify_output
  verify_output-checked nat fwd macs visible denies some_mac checked =
      let shown = any-trim_space fwd ∙ visible in
      rw (visible-is_empty (trim_space fwd) shown, denies, some_mac, checked) refl

  -- For every device table with a filtered device in it, every rule list and port list: the check
  -- accepts the prerouting and forward chains that are written for that table, when nft lists them
  -- as they were written. The name of the LAN interface has no line break in it.
  pub verify_output-written :
      (rows : List (Text × Text)) (lines : List Line)
      → is_nil (load_device_snapshot rows).filtered ≡ false
      → verify_output cfg
          (unlines (
            chain_text
              (codes "prerouting")
              (codes "nat hook prerouting priority dstnat; policy accept")
              (prerouting cfg (load_device_snapshot rows))))
          (unlines (
            chain_text
              (codes "forward")
              (codes "filter hook forward priority filter; policy drop")
              lines))
          (load_device_snapshot rows).filtered
        ≡ none
  unfolding load_device_snapshot prerouting forward_hook
  verify_output-written rows lines some_filtered =
      let macs = with_status (codes "filtered") rows in
      let listed = with_status-IsListed (codes "filtered") rows in
      let closed = flat_map (filtered_nat cfg) macs in
      let opened = flat_map (open_nat cfg) (with_status (codes "open") rows) in
      let hook = codes "nat hook prerouting priority dstnat; policy accept" in
      let nat = chain_text (codes "prerouting") hook (closed ++ opened) in
      let redirects : All (HasRedirect (written (closed ++ opened))) macs =
        rw (written-append closed opened) (
          before-HasRedirect (written closed) (written opened) macs
            (filtered-HasRedirect macs listed)) in
      verify_output-checked (unlines nat)
        (unlines (chain_text (codes "forward") forward_hook lines)) macs (chain_text-visible lines)
        (chain_text-denies lines) some_filtered
        (verify_macs-listed (split_on b'\n' (unlines nat)) macs listed (
          split-HasRedirect nat macs
            (chain_text-HasRedirect (codes "prerouting") hook (closed ++ opened) macs redirects)))
