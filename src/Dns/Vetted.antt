-- ===== src/Dns/Vetted.antt =====
-- What the configuration of internal/services/dns.go lets dnsmasq resolve when the domains are those
-- that the console has stored.
use airgapp_rpi.Base.{◌≡◌, false, ◌⊎◌}
use airgapp_rpi.Base.Text.{Text, codes, has_prefix}
use airgapp_rpi.Floor.{is_protected_denied, spoof_conn_man_host}
use airgapp_rpi.Filters.Vetted.{IsVetted}
use airgapp_rpi.Dns.{server_line}

-- The line is for the host of the captive check and what is below it, or for a vetted domain that
-- the deny floor does not hold, and what is below that.
pub record IsVettedServer (l : Text) : Type 0 where
  pub domain : Text
  pub upstream : Text
  pub line_is : l ≡ server_line domain upstream
  pub may_be :
      (domain ≡ spoof_conn_man_host) ⊎ (IsVetted domain × (is_protected_denied domain ≡ false))

abbrev pub IsSafe : Text → Type 0
IsSafe l = (has_prefix l (codes "server=") ≡ false) ⊎ IsVettedServer l
