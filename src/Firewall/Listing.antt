-- ===== src/Firewall/Listing.antt =====
-- `verifyOutput` of internal/services/firewall.go: the check on what nft lists of the two chains.
pub mod Redirect
pub mod Written
use airgapp_rpi.Base.{
  Bool, true, false, not, ◌&&◌, Option, none, some, List, [], ◌∷◌, ◌++◌, any, if◌then◌else◌,
}
use airgapp_rpi.Base.Text.{Text, codes, to_lower, trim_space}
use airgapp_rpi.Base.Lines.{contains, split_on, decimal}
use airgapp_rpi.Validate.{is_empty}
use airgapp_rpi.Firewall.{Config}

pub data VerifyError : Type 0 where
  chain_absent not_default_deny no_device_filtered mac_malformed : VerifyError
  bypasses_proxy : Text → VerifyError

abbrev pub redirect_text : Config → Text
redirect_text cfg = codes "redirect to :" ++ decimal cfg.sni_proxy_port

-- A line of the listing redirects the HTTPS of the device.
unfoldable pub is_redirect : Config → Text → Text → Bool
is_redirect cfg mac l =
    contains (to_lower l) mac
    && (contains (to_lower l) (codes "dport 443") && contains (to_lower l) (redirect_text cfg))

-- The loop over the devices. No error is `none`.
unfoldable pub verify_macs : Config → List Text → List Text → Option VerifyError
verify_macs cfg lines [] = none
verify_macs cfg lines (raw ∷ filtered) =
    let mac = to_lower (trim_space raw) in
    let rest = verify_macs cfg lines filtered in
    if is_empty mac
    then some mac_malformed
    else if any (is_redirect cfg mac) lines
    then rest
    else some (bypasses_proxy mac)

abbrev pub is_nil : List Text → Bool
is_nil [] = true
is_nil (x ∷ xs) = false

unfoldable pub verify_output : Config → Text → Text → List Text → Option VerifyError
verify_output cfg nat fwd filtered =
    if is_empty (trim_space fwd)
    then some chain_absent
    else if not (contains fwd (codes "policy drop"))
    then some not_default_deny
    else if is_nil filtered
    then some no_device_filtered
    else verify_macs cfg (split_on b'\n' nat) filtered
