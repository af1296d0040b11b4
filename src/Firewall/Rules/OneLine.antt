-- ===== src/Firewall/Rules/OneLine.antt =====
-- What an operator's rule can put into the file that internal/services/firewall.go writes.
use airgapp_rpi.Base.{◌≡◌, Bool, true, ◌&&◌, ◌||◌, all}
use airgapp_rpi.Base.Text.{Text, str_eq}
use airgapp_rpi.Base.Lines.{one_line}
use airgapp_rpi.Validate.{Net, is_empty}
use airgapp_rpi.Firewall.{FirewallRule}

-- What is asked of the package `net`: an address that it parses or looks up has no line break.
pub record IsLineSafe (net : Net) : Type 0 where
  pub cidr : (s : Text) → net.is_cidr s ≡ true → one_line s ≡ true
  pub ip : (s : Text) → net.is_ip s ≡ true → one_line s ≡ true
  pub looked_up : (s : Text) → all one_line (net.lookup_ip4 s) ≡ true

-- The comment of a rule's line has no line break: it is made of the description, if there is one,
-- and then of the destination, if that was looked up.
unfoldable pub is_comment_plain : FirewallRule → Text → Bool
is_comment_plain r dest =
    is_empty r.description
    || (one_line r.description
        && (is_empty r.dest_ip || (str_eq r.dest_ip dest || one_line r.dest_ip)))
