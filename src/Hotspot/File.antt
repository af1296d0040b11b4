-- ===== src/Hotspot/File.antt =====
-- The file of hostapd that internal/services/hotspot.go writes.
use airgapp_rpi.Base.{
  ℕ, zero, suc, ◌&&◌, leb, ◌≡◌, refl, Bool, true, false, List, [], ◌∷◌, ◌++◌, all, keep, arith,
  length, Option-cases, Bool-cases, inl, inr,
}
use Prim.Native.String.{String}
use airgapp_rpi.Base.Text.{Text, codes, has_prefix}
use airgapp_rpi.Base.Lines.{one_line, unlines, split_on, split_on-unlines}
use airgapp_rpi.Base.{ltb, ◌≤◌, sym, subst}
use airgapp_rpi.Validate.{
  is_empty, sanitize_single_line, sanitize_from, continues, starts_rune, rune_rest,
}
use airgapp_rpi.Hotspot.{
  Settings, sanitized, hostapd_lines, Config, refused, config, config_of, band_for, number_from,
  matches_channel,
}

sanitize_from-one_line :
    (n : ℕ) (s : Text) → continues n s ≡ true → one_line (sanitize_from n s) ≡ true
unfolding one_line sanitize_from continues
sanitize_from-one_line n [] h = refl
sanitize_from-one_line (suc n) (c ∷ s) h = ground (arith, sanitize_from-one_line n s)
sanitize_from-one_line zero (c ∷ s) h = elim (Bool-cases (leb 128 c && starts_rune c s)) [
  | inl e ↦ rw e (ground (arith, sanitize_from-one_line (rune_rest c) s (ground (arith, e))))
  | inr e ↦ rw e (ground (arith, sanitize_from-one_line 0 s refl))
]

sanitize-one_line : (s : Text) → one_line (sanitize_single_line s) ≡ true
unfolding sanitize_single_line continues
sanitize-one_line s = sanitize_from-one_line 0 s refl

country-one_line : (s : Settings) → one_line (sanitized s).ap_country ≡ true
unfolding sanitized one_line
country-one_line s = elim (Bool-cases (is_empty (sanitize_single_line s.ap_country))) [
  | inl e ↦ rw e refl
  | inr e ↦ rw e (sanitize-one_line s.ap_country)
]

hostapd_lines-one_line :
    (is_5ghz : Bool) (s : Settings)
    → one_line s.ap_ssid ≡ true
    → one_line s.ap_password ≡ true
    → one_line s.ap_channel ≡ true
    → one_line s.ap_country ≡ true
    → all one_line (hostapd_lines is_5ghz s) ≡ true
unfolding hostapd_lines one_line
hostapd_lines-one_line true s a b c d = rw (a, b, c, d) refl
hostapd_lines-one_line false s a b c d = rw (a, b, c, d) refl

lines_of : Config → List Text
lines_of (refused e) = []
lines_of (config lines) = lines

record IsConfig (raw : Settings) (lines : List Text) : Type 0 where
  is_5ghz : Bool
  same : lines ≡ hostapd_lines is_5ghz (sanitized raw)
  long : 8 ≤ length (sanitized raw).ap_password

config_of-IsConfig :
    (raw : Settings) (lines : List Text) → config_of raw ≡ config lines → IsConfig raw lines
unfolding config_of lines_of
config_of-IsConfig raw lines h = elim (Bool-cases (ltb (length (sanitized raw).ap_password) 8)) [
  | inl e ↦ absurd (ground (arith, e))
  | inr e ↦ elim (Bool-cases (matches_channel (sanitized raw).ap_channel)) [
    | inr k ↦ absurd (ground (arith, e, k))
    | inl k ↦ elim (Option-cases (band_for (number_from 0 (sanitized raw).ap_channel))) [
      | inl b ↦ absurd (ground (arith, e, k, b))
      | inr (is_5ghz, b) ↦ record {
        is_5ghz = is_5ghz;
        same = ground (arith, e, k, b);
        long = ground (arith, e);
      }
    ]
  ]
]

-- The lines of the text that start with the key, as hostapd reads it.
abbrev pub directives : String → Text → List Text
directives key file = keep (λ l. has_prefix l (codes key)) (split_on b'\n' file)

-- What keeps a stranger out of the access point.
pub record IsSecured (passphrase file : Text) : Type 0 where
  pub wpa : directives "wpa=" file ≡ codes "wpa=2" ∷ []
  pub macaddr_acl : directives "macaddr_acl=" file ≡ codes "macaddr_acl=0" ∷ []
  pub key_mgmt : directives "wpa_key_mgmt=" file ≡ codes "wpa_key_mgmt=WPA-PSK" ∷ []
  pub wpa_passphrase :
      directives "wpa_passphrase=" file ≡ (codes "wpa_passphrase=" ++ passphrase) ∷ []
  pub long : 8 ≤ length passphrase

lines-IsSecured :
    (is_5ghz : Bool) (s : Settings)
    → 8 ≤ length s.ap_password
    → all one_line (hostapd_lines is_5ghz s) ≡ true
    → IsSecured s.ap_password (unlines (hostapd_lines is_5ghz s))
unfolding hostapd_lines has_prefix
lines-IsSecured true s long o =
    let back = split_on-unlines (hostapd_lines true s) o in
    record {
      wpa = rw back refl;
      macaddr_acl = rw back refl;
      key_mgmt = rw back refl;
      wpa_passphrase = rw back refl;
      long = long;
    }
lines-IsSecured false s long o =
    let back = split_on-unlines (hostapd_lines false s) o in
    record {
      wpa = rw back refl;
      macaddr_acl = rw back refl;
      key_mgmt = rw back refl;
      wpa_passphrase = rw back refl;
      long = long;
    }

-- Whatever bytes stand in the four settings: if Apply writes a file, then, read line by line, it has
-- one line each for `wpa`, `macaddr_acl`, `wpa_key_mgmt` and `wpa_passphrase`, with the program's
-- values and the passphrase as SanitizeSingleLine leaves it, which has eight bytes at least.
pub config_of-IsSecured :
    (raw : Settings) (lines : List Text)
    → config_of raw ≡ config lines
    → IsSecured (sanitize_single_line raw.ap_password) (unlines lines)
unfolding sanitized
config_of-IsSecured raw lines h =
    let c = config_of-IsConfig raw lines h in
    let s = sanitized raw in
    let o =
      hostapd_lines-one_line c.is_5ghz s (sanitize-one_line raw.ap_ssid)
        (sanitize-one_line raw.ap_password) (sanitize-one_line raw.ap_channel)
        (country-one_line raw) in
    subst (λ ls. IsSecured s.ap_password (unlines ls)) (sym c.same)
      (lines-IsSecured c.is_5ghz s c.long o)
