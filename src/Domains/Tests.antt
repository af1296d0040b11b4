-- ===== src/Domains/Tests.antt =====
-- A domain typed in with a wildcard, capitals and blanks.
use airgapp_rpi.Base.{◌≡◌, refl}
use airgapp_rpi.Base.Text.{
  Text, codes, str_eq, has_suffix, to_lower, trim_space, trim_left, is_space,
}
use airgapp_rpi.Floor.{
  clean, is_under, is_exempt, denied_by, ancestor_of, is_protected_denied, is_protected_ancestor,
}
use airgapp_rpi.Domains.{matches_domain, valid_domain, normalize_domain, stored, create_domain}

abbrev typed : Text
typed = codes " *.Daws.Tesla.services "

test_stores :
    create_domain typed (codes "maps") ≡ stored (codes "daws.tesla.services") (codes "maps")
unfolding create_domain normalize_domain valid_domain matches_domain clean to_lower trim_space
    trim_left is_space is_protected_denied is_protected_ancestor denied_by ancestor_of is_exempt
    is_under str_eq has_suffix
test_stores = refl
