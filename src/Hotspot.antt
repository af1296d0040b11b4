-- ===== src/Hotspot.antt =====
-- internal/services/hotspot.go. `S` is what the hooks and systemctl act on; `systemctl` is an argument.
-- Each call of a hook or of systemctl for hostapd is recorded in `calls`, the newest first, with
-- whether it succeeded. `conf` is the file of hostapd by lines.
pub mod Gated
pub mod File
mod Tests
use airgapp_rpi.Base.{
  ℕ, ◌+◌, ◌*◌, ◌-◌, Bool, true, false, not, ◌&&◌, Option, none, some, List, [], ◌∷◌, ◌++◌, all,
  length, ltb, leb, if◌then◌else◌,
}
use airgapp_rpi.Base.Text.{Text, codes, str_eq}
use airgapp_rpi.Validate.{is_digit, is_empty, sanitize_single_line}

pub data Action : Type 0 where
  start : Action
  stop : Action
  restart : Action

pub data Call : Type 0 where
  verified : Bool → Call
  applied : Bool → Call
  ran : Action → Bool → Call

pub data HotspotError : Type 0 where
  no_gate : HotspotError
  unverified : (is_repaired : Bool) → HotspotError
  short_passphrase : HotspotError
  bad_channel : HotspotError
  no_band : HotspotError
  write_failed : HotspotError
  command_failed : Action → HotspotError

abbrev pub Hook {ℓ} : Type ℓ → Type ℓ
Hook S = S → Bool × S

pub record Hotspot {ℓ} (S : Type ℓ) : Type ℓ where
  pub world : S
  pub verify_firewall : Option (Hook S)
  pub apply_firewall : Option (Hook S)
  pub is_dry_run : Bool
  pub conf : List Text
  pub calls : List Call

-- Whether the channel is in the 5 GHz band, `none` if it is in no band.
unfoldable pub band_for : ℕ → Option Bool
band_for channel =
    if leb 1 channel && leb channel 14
    then some false
    else if leb 36 channel && leb channel 165
    then some true
    else none

unfoldable pub matches_channel : Text → Bool
matches_channel s = all is_digit s && (leb 1 (length s) && leb (length s) 3)

-- `strconv.Atoi` of digits, after those that are read already.
unfoldable pub number_from : ℕ → Text → ℕ
number_from n [] = n
number_from n (c ∷ s) = number_from (10 * n + (c - b'0')) s

pub record Settings : Type 0 where
  pub ap_ssid : Text
  pub ap_password : Text
  pub ap_channel : Text
  pub ap_country : Text

abbrev pub default_settings : Settings
default_settings = record {
  ap_ssid = codes "NetFilter";
  ap_password = codes "changeme123";
  ap_channel = codes "36";
  ap_country = codes "00";
}

unfoldable pub set_setting : Text → Text → Settings → Settings
set_setting key value s =
    if str_eq key (codes "ap_ssid")
    then record s { ap_ssid = value }
    else if str_eq key (codes "ap_password")
    then record s { ap_password = value }
    else if str_eq key (codes "ap_channel")
    then record s { ap_channel = value }
    else if str_eq key (codes "ap_country")
    then record s { ap_country = value }
    else s

unfoldable pub set_settings : List (Text × Text) → Settings → Settings
set_settings [] s = s
set_settings ((key, value) ∷ rows) s = set_settings rows (set_setting key value s)

-- `none` is a query that failed; a row that cannot be read is not among the rows.
unfoldable pub get_settings : Option (List (Text × Text)) → Settings
get_settings none = default_settings
get_settings (some rows) = set_settings rows default_settings

-- The lines of the file, from values that are cleaned already.
unfoldable pub hostapd_lines : Bool → Settings → List Text
hostapd_lines is_5ghz s =
    (codes "# Generated by netfilterd " ++ 226 ∷ 128 ∷ 148 ∷ codes " do not edit")
      ∷ codes "interface=wlan0"
      ∷ codes "driver=nl80211"
      ∷ (codes "ssid=" ++ s.ap_ssid)
      ∷ (if is_5ghz then codes "hw_mode=a" else codes "hw_mode=g")
      ∷ (codes "channel=" ++ s.ap_channel)
      ∷ (codes "country_code=" ++ s.ap_country)
      ∷ codes "ieee80211d=1"
      ∷ codes "ieee80211n=1"
      ∷ (if is_5ghz then codes "ieee80211ac=1" ∷ codes "ieee80211h=1" ∷ [] else [])
    ++ (codes "wmm_enabled=1"
        ∷ codes "macaddr_acl=0"
        ∷ codes "auth_algs=1"
        ∷ codes "ignore_broadcast_ssid=0"
        ∷ codes "wpa=2"
        ∷ (codes "wpa_passphrase=" ++ s.ap_password)
        ∷ codes "wpa_key_mgmt=WPA-PSK"
        ∷ codes "rsn_pairwise=CCMP"
        ∷ [])

unfoldable pub sanitized : Settings → Settings
sanitized s =
    let country = sanitize_single_line s.ap_country in
    record {
      ap_ssid = sanitize_single_line s.ap_ssid;
      ap_password = sanitize_single_line s.ap_password;
      ap_channel = sanitize_single_line s.ap_channel;
      ap_country = if is_empty country then codes "00" else country;
    }

pub data Config : Type 0 where
  refused : HotspotError → Config
  config : List Text → Config

-- The first part of `Apply`: the checks, and the lines that are to be written.
unfoldable pub config_of : Settings → Config
config_of raw =
    let s = sanitized raw in
    if ltb (length s.ap_password) 8
    then refused short_passphrase
    else if not (matches_channel s.ap_channel)
    then refused bad_channel
    else elim (band_for (number_from 0 s.ap_channel)) [
      | none ↦ refused no_band
      | some is_5ghz ↦ config (hostapd_lines is_5ghz s)
    ]

module _ {ℓ} {S : Type ℓ} where
  unfoldable pub set_firewall_gate : Option (Hook S) → Option (Hook S) → Hotspot S → Hotspot S
  set_firewall_gate verify apply s = record s { verify_firewall = verify; apply_firewall = apply }

  unfoldable pub verify_now : Hook S → Hotspot S → Bool × Hotspot S
  verify_now verify s =
      let (ok, world) = verify s.world in
      (ok, record s { world = world; calls = verified ok ∷ s.calls })

  unfoldable pub repair : Hotspot S → Bool × Hotspot S
  repair s = elim s.apply_firewall [
    | none ↦ (false, s)
    | some apply ↦
        let (ok, world) = apply s.world in
        (ok, record s { world = world; calls = applied ok ∷ s.calls })
  ]

  -- What `SetEnabled(true)` does before it calls systemctl.
  unfoldable pub check_gate : Hotspot S → Option HotspotError × Hotspot S
  check_gate s = elim s.verify_firewall [
    | none ↦ (some no_gate, s)
    | some verify ↦
        let (ok, first) = verify_now verify s in
        let (is_repaired, after) = repair first in
        let (ok_again, second) = verify_now verify after in
        if ok
        then (none, first)
        else if ok_again
        then (none, second)
        else (some (unverified is_repaired), second)
  ]

module _ {ℓ} {S : Type ℓ} (systemctl : Action → Hook S) where
  unfoldable pub run_systemctl : Action → Hotspot S → Option HotspotError × Hotspot S
  run_systemctl action s =
      let (ok, world) = systemctl action s.world in
      (
        if ok then none else some (command_failed action),
        record s { world = world; calls = ran action ok ∷ s.calls },
      )

  -- The error, if there is one.
  unfoldable pub set_enabled : Bool → Hotspot S → Option HotspotError × Hotspot S
  set_enabled true s =
      let (error, after) = check_gate s in
      elim error [ some e ↦ (some e, after) | none ↦ run_systemctl start after ]
  set_enabled false s = run_systemctl stop s

  -- `is_writable` is whether the file can be written.
  unfoldable pub apply : Settings → Bool → Hotspot S → Option HotspotError × Hotspot S
  apply settings is_writable s = elim (config_of settings) [
    | refused e ↦ (some e, s)
    | config lines ↦
        if is_writable
        then run_systemctl restart (record s { conf = lines })
        else if s.is_dry_run
        then run_systemctl restart s
        else (some write_failed, s)
  ]
