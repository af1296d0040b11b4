-- ===== src/Floor.antt =====
-- internal/services/protected.go: the deny floor, which no allow list overrides.
pub mod Suffix
use airgapp_rpi.Base.{ℕ, Bool, true, false, ◌||◌, List, [], ◌∷◌, length, any, if◌then◌else◌}
use airgapp_rpi.Base.Text.{Text, codes, str_eq, has_suffix, to_lower, trim_space}

-- `protectedDeny`
abbrev pub protected_deny : List Text
protected_deny =
    codes "ap.tesla.services"
    ∷ codes "vn.tesla.services"
    ∷ codes "cn.tesla.services"
    ∷ codes "mo.tesla.services"
    ∷ codes "eng.go.tesla.services"
    ∷ codes "vn.cloud.tesla.com"
    ∷ codes "vn.cloud.tesla.cn"
    ∷ codes "obs.tesla.com"
    ∷ codes "teslamotors.com"
    ∷ codes "tslans.net"
    ∷ codes "tesla-cdn.com"
    ∷ codes "tesla-cdn.net"
    ∷ codes "software-update.tesla.com"
    ∷ codes "dl.tesla.com"
    ∷ codes "remote-diagnostics.tesla.com"
    ∷ codes "github-fw.tesla.com"
    ∷ codes "toolbox.tesla.com"
    ∷ codes "epc.tesla.com"
    ∷ codes "parts.tesla.com"
    ∷ codes "tesla-hermes-snapshot.s3.us-west-2.amazonaws.com"
    ∷ codes "tesla-hermes-snapshot-eu.s3.eu-central-1.amazonaws.com"
    ∷ codes "tesla-hermes-snapshot-eng.s3.us-west-2.amazonaws.com"
    ∷ codes "tesla-hermes-snapshot-eng-eu.s3.eu-central-1.amazonaws.com"
    ∷ []

-- The keys of `assistantExempt`.
abbrev pub assistant_exempt : List Text
assistant_exempt =
    codes "assistant-api.prd.euw1.vn.cloud.tesla.com"
    ∷ codes "assistant-api.prd.na.vn.cloud.tesla.com"
    ∷ codes "assistant-api.prd.cnn1.vn.cloud.tesla.cn"
    ∷ []

-- `spoofConnManHost` of spoof.go.
abbrev pub spoof_conn_man_host : Text
spoof_conn_man_host = codes "connman.vn.tesla.services"

unfoldable pub clean : Text → Text
clean domain = to_lower (trim_space domain)

-- `d == p || strings.HasSuffix(d, "."+p)`
unfoldable pub is_under : Text → Text → Bool
is_under d p = str_eq d p || has_suffix d (b'.' ∷ p)

unfoldable pub is_exempt : Text → Bool
is_exempt d = str_eq d spoof_conn_man_host || any (str_eq d) assistant_exempt

-- `isProtectedDenied` and `isProtectedAncestor` after the trimming, for any deny list.
unfoldable pub denied_by : List Text → Text → Bool
denied_by deny [] = false
denied_by deny (c ∷ d) = if is_exempt (c ∷ d) then false else any (is_under (c ∷ d)) deny

unfoldable pub ancestor_of : List Text → Text → Bool
ancestor_of deny [] = false
ancestor_of deny (c ∷ d) = any (λ p. has_suffix p (b'.' ∷ c ∷ d)) deny

unfoldable pub is_protected_denied : Text → Bool
is_protected_denied domain = denied_by protected_deny (clean domain)

unfoldable pub is_protected_ancestor : Text → Bool
is_protected_ancestor domain = ancestor_of protected_deny (clean domain)

abbrev pub protected_deny_count : ℕ
protected_deny_count = length protected_deny
