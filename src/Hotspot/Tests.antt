-- ===== src/Hotspot/Tests.antt =====
-- Runs of Hotspot: the world says whether the firewall stands, the hook that applies it repairs it.
use airgapp_rpi.Base.{map, ◌≡◌, refl, Bool, true, false, Option, none, some, List, [], ◌∷◌}
use airgapp_rpi.Base.Text.{Text, codes, str_eq}
use airgapp_rpi.Base.Lines.{unlines}
use airgapp_rpi.Validate.{sanitize_single_line, sanitize_from, continues}
use airgapp_rpi.Hotspot.{
  Action, start, stop, restart, verified, applied, ran, no_gate, Settings, default_settings, Hook,
  Hotspot, refused, config, no_band, band_for, matches_channel, number_from, sanitized,
  hostapd_lines, config_of, set_firewall_gate, verify_now, repair, check_gate, run_systemctl,
  set_enabled, apply, get_settings, set_settings, set_setting,
}
use airgapp_rpi.Hotspot.Gated.{Op, set_gate, enable, starts_gated, run_op, run_ops, run_ops-gated}
use airgapp_rpi.Hotspot.File.{IsSecured, config_of-IsSecured}

abbrev systemctl : Action → Hook Bool
systemctl action stands = (true, stands)

abbrev look : Option (Hook Bool)
look = some (λ stands. (stands, stands))

abbrev mend : Option (Hook Bool)
mend = some (λ stands. (true, true))

abbrev new_hotspot : Hotspot Bool
new_hotspot = record {
  world = false;
  verify_firewall = none;
  apply_firewall = none;
  is_dry_run = false;
  conf = [];
  calls = [];
}

abbrev ops : List (Op Bool)
ops =
    enable true
    ∷ set_gate look none
    ∷ enable true
    ∷ set_gate look mend
    ∷ enable true
    ∷ enable false
    ∷ []

test_calls :
    (run_ops systemctl ops new_hotspot).calls
    ≡ ran stop true
      ∷ ran start true
      ∷ verified true
      ∷ applied true
      ∷ verified false
      ∷ verified false
      ∷ verified false
      ∷ []
unfolding run_ops run_op set_firewall_gate set_enabled check_gate repair verify_now run_systemctl
test_calls = refl

test_no_gate : (set_enabled systemctl true new_hotspot).0 ≡ some no_gate
unfolding set_enabled check_gate
test_no_gate = refl

-- Apply restarts hostapd over a firewall that does not stand.
test_ungated : (apply systemctl default_settings true new_hotspot).1.calls ≡ ran restart true ∷ []
unfolding apply run_systemctl config_of sanitized sanitize_single_line sanitize_from continues
    matches_channel number_from band_for
test_ungated = refl

test_settings :
    get_settings (some ((codes "ap_channel", codes "6") ∷ (codes "color", codes "red") ∷ []))
    ≡ record default_settings { ap_channel = codes "6" }
unfolding get_settings set_settings set_setting str_eq
test_settings = refl

abbrev hostile : Settings
hostile = record {
  ap_ssid = codes "x\nwpa=0";
  ap_password = codes "longenough\nmacaddr_acl=1";
  ap_channel = codes "6";
  ap_country = [];
}

-- Three bytes 0xFF are three times U+FFFD; an e with an acute accent stays, a surrogate does not.
test_invalid :
    map {B = Text} sanitize_single_line
      ((255 ∷ 255 ∷ 255 ∷ []) ∷ (195 ∷ 169 ∷ 10 ∷ []) ∷ (237 ∷ 160 ∷ 128 ∷ []) ∷ [])
    ≡ (239 ∷ 191 ∷ 189 ∷ 239 ∷ 191 ∷ 189 ∷ 239 ∷ 191 ∷ 189 ∷ [])
      ∷ (195 ∷ 169 ∷ [])
      ∷ (239 ∷ 191 ∷ 189 ∷ 239 ∷ 191 ∷ 189 ∷ 239 ∷ 191 ∷ 189 ∷ [])
      ∷ []
unfolding sanitize_single_line sanitize_from continues
test_invalid = refl

test_channel : config_of (record hostile { ap_channel = codes "20" }) ≡ refused no_band
unfolding config_of sanitized sanitize_single_line sanitize_from continues matches_channel
    number_from band_for
test_channel = refl

run_ops-gated_example : starts_gated (run_ops systemctl ops new_hotspot).calls ≡ true
run_ops-gated_example = run_ops-gated systemctl ops new_hotspot refl

hostile_config : config_of hostile ≡ config (hostapd_lines false (sanitized hostile))
unfolding config_of sanitized sanitize_single_line sanitize_from continues matches_channel
    number_from band_for
hostile_config = refl

config_of-IsSecured_example :
    IsSecured
      (sanitize_single_line hostile.ap_password)
      (unlines (hostapd_lines false (sanitized hostile)))
config_of-IsSecured_example =
    config_of-IsSecured hostile (hostapd_lines false (sanitized hostile)) hostile_config
