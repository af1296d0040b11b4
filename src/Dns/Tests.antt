-- ===== src/Dns/Tests.antt =====
-- Runs of Dns on concrete lines.
use airgapp_rpi.Base.{◌≡◌, refl, true, some, List, [], ◌∷◌, any}
use airgapp_rpi.Base.Text.{
  Text, codes, str_eq, has_prefix, has_suffix, is_space, trim_left, trim_space, to_lower,
  lower_byte,
}
use airgapp_rpi.Base.Lines.{split_on, fields}
use airgapp_rpi.Floor.{clean, is_under, is_exempt, denied_by, is_protected_denied}
use airgapp_rpi.Domains.{valid_domain, matches_domain}
use airgapp_rpi.Validate.{valid_mac, hex_octets}
use airgapp_rpi.Dns.{
  split_upstreams, allowed_domains, open_device_macs, server_line, config_lines, is_global_upstream,
  is_no_resolv, stripped, heal, strip_global_upstreams, strip_loopback,
}
use airgapp_rpi.Dns.Served.{config_lines-resolves}
use airgapp_rpi.Floor.{ancestor_of, is_protected_ancestor}
use airgapp_rpi.Base.{false}
use airgapp_rpi.Domains.{normalize_domain, create_domain as check_domain}
use airgapp_rpi.Filters.{
  Store, enabled_rows, create_domain, upsert_domain, update_domains, set_domain_enabled, is_live,
  distinct,
}
use airgapp_rpi.Filters.Vetted.{Op, add, enable, call, run}

abbrev ups : List Text
ups = codes "1.1.1.1" ∷ []

abbrev listed : List Text
listed = codes "ap.tesla.services" ∷ codes "x.ai" ∷ []

test_upstreams :
    split_upstreams (codes " 1.1.1.1 ,, 8.8.8.8") ≡ codes "1.1.1.1" ∷ codes "8.8.8.8" ∷ []
unfolding split_upstreams split_on trim_space trim_left is_space
test_upstreams = refl

test_no_upstream : split_upstreams (codes " ,") ≡ codes "1.1.1.1" ∷ []
unfolding split_upstreams split_on trim_space trim_left is_space
test_no_upstream = refl

test_domains : allowed_domains (codes " X.ai" ∷ codes "a b" ∷ []) ≡ codes "x.ai" ∷ []
unfolding allowed_domains clean trim_space trim_left is_space to_lower lower_byte valid_domain
    matches_domain
test_domains = refl

test_macs :
    open_device_macs (codes "AA:BB:CC:DD:EE:FF" ∷ codes "x" ∷ []) ≡ codes "aa:bb:cc:dd:ee:ff" ∷ []
unfolding open_device_macs valid_mac hex_octets clean trim_space trim_left is_space to_lower
    lower_byte
test_macs = refl

abbrev old_file : List Text
old_file =
    codes "  server=8.8.8.8"
    ∷ codes "server=/x.ai/1.1.1.1"
    ∷ codes "no-resolv  # kept"
    ∷ codes "no-resolv"
    ∷ []

test_strip :
    strip_global_upstreams old_file
    ≡ some (
        codes "# stripped by netfilterd (global upstream defeats default-deny): server=8.8.8.8"
        ∷ codes "server=/x.ai/1.1.1.1"
        ∷ codes "no-resolv  # kept"
        ∷ [])
unfolding strip_global_upstreams heal is_global_upstream is_no_resolv stripped has_prefix trim_space
    trim_left is_space fields str_eq
test_strip = refl

test_loopback :
    strip_loopback (codes "nameserver 127.0.0.1" ∷ codes "nameserver 1.1.1.1" ∷ [])
    ≡ some (codes "nameserver 1.1.1.1" ∷ [])
unfolding strip_loopback trim_space trim_left is_space fields str_eq
test_loopback = refl

abbrev seeded : Store
seeded = record {
  filters =
      record { id = 1; name = codes "Grok"; description = []; is_system = false; enabled = true }
      ∷ [];
  domains = [];
  next_filter = 2;
  next_domain = 1;
}

abbrev ops : List Op
ops = add 1 (codes "*.X.ai") (codes "voice") ∷ enable 1 true ∷ []

test_served :
    any
      (str_eq (server_line (codes "x.ai") (codes "1.1.1.1")))
      (config_lines ups (allowed_domains (enabled_rows (run ops seeded))) [])
    ≡ true
unfolding config_lines run call set_domain_enabled update_domains create_domain check_domain
    upsert_domain enabled_rows allowed_domains is_live distinct normalize_domain valid_domain
    matches_domain clean is_protected_denied is_protected_ancestor denied_by ancestor_of is_exempt
    is_under has_suffix trim_space trim_left is_space to_lower lower_byte str_eq
test_served = refl

config_lines-resolves_example :
    any (str_eq (server_line (codes "x.ai") (codes "1.1.1.1"))) (config_lines ups listed []) ≡ true
unfolding str_eq is_protected_denied clean denied_by is_exempt is_under has_suffix trim_space
    trim_left is_space to_lower lower_byte
config_lines-resolves_example =
    config_lines-resolves ups listed [] (codes "x.ai") (codes "1.1.1.1") refl refl refl
