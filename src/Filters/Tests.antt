-- ===== src/Filters/Tests.antt =====
-- Runs of Filters on concrete tables.
use airgapp_rpi.Base.{◌≡◌, refl, true, some, List, [], ◌∷◌, ◌++◌, All}
use airgapp_rpi.Base.Text.{
  codes, str_eq, has_suffix, is_space, trim_left, trim_space, to_lower, lower_byte,
}
use airgapp_rpi.Floor.{
  clean, is_under, is_exempt, denied_by, ancestor_of, is_protected_denied, is_protected_ancestor,
}
use airgapp_rpi.Domains.{
  valid_domain, matches_domain, normalize_domain, protected_endpoint, create_domain as check_domain,
}
use airgapp_rpi.Validate.{valid_preset_name}
use airgapp_rpi.Sni.{Proxy, refresh_cache}
use airgapp_rpi.Filters.{
  Store, failed, system_filter, invalid_name, refused_domain, create, update_filters, update,
  set_enabled, delete, upsert_domain, create_domain, update_domains, set_domain_enabled, is_live,
  distinct, enabled_rows, all_enabled_domains,
}
use airgapp_rpi.Filters.Vetted.{Op, create_filter, enable_filter, add, enable, call, run, IsVetted}
use airgapp_rpi.Filters.Loaded.{refresh_cache-IsVetted}
use airgapp_rpi.Filters.Enabled.{run-all_enabled}

abbrev empty_store : Store
empty_store = record { filters = []; domains = []; next_filter = 1; next_domain = 1 }

abbrev seeded : Store
seeded = record empty_store {
  filters =
      record { id = 0; name = codes "Time"; description = []; is_system = true; enabled = true }
      ∷ [];
}

abbrev proposals : List Op
proposals = create_filter (codes " Grok ") [] ∷ add 1 (codes "*.X.ai") (codes "voice") ∷ []

abbrev ops : List Op
ops = proposals ++ (enable_filter 1 true ∷ enable 1 true ∷ [])

test_proposed : all_enabled_domains (run proposals seeded) ≡ []
unfolding run call create create_domain check_domain upsert_domain all_enabled_domains is_live
    distinct valid_preset_name normalize_domain valid_domain matches_domain clean
    is_protected_denied is_protected_ancestor denied_by ancestor_of is_exempt is_under has_suffix
    trim_space trim_left is_space to_lower lower_byte str_eq
test_proposed = refl

test_enabled : all_enabled_domains (run ops seeded) ≡ codes "x.ai" ∷ []
unfolding run call create set_enabled update_filters set_domain_enabled update_domains create_domain
    check_domain upsert_domain all_enabled_domains is_live distinct valid_preset_name
    normalize_domain valid_domain matches_domain clean is_protected_denied is_protected_ancestor
    denied_by ancestor_of is_exempt is_under has_suffix trim_space trim_left is_space to_lower
    lower_byte str_eq
test_enabled = refl

test_system : delete 0 seeded ≡ failed system_filter
unfolding delete
test_system = refl

test_name : update 0 (codes "a;b") [] seeded ≡ failed invalid_name
unfolding update valid_preset_name trim_space trim_left is_space
test_name = refl

test_protected :
    create_domain 0 (codes "x.ap.tesla.services") (codes "no") seeded
    ≡ failed (refused_domain protected_endpoint)
unfolding create_domain check_domain normalize_domain valid_domain matches_domain clean
    is_protected_denied denied_by is_exempt is_under has_suffix trim_space trim_left is_space
    to_lower lower_byte str_eq
test_protected = refl

abbrev proxy : Proxy
proxy = record { leases = []; arp = []; suffixes = []; filtered = [] }

refresh_cache-IsVetted_example :
    All IsVetted (refresh_cache proxy (some (enabled_rows (run ops seeded))) (some [])).suffixes
refresh_cache-IsVetted_example = refresh_cache-IsVetted ops seeded proxy [] tt

run-all_enabled_example : all_enabled_domains (run proposals seeded) ≡ all_enabled_domains seeded
run-all_enabled_example = run-all_enabled proposals seeded refl
