-- ===== src/Validate.antt =====
-- internal/services/validate.go: the checks on what goes into the files of nftables, dnsmasq and
-- hostapd, but for those on names, which Domains has. The patterns are run over the bytes. What
-- the package `net` makes of an address is a parameter.
pub mod Lines
use airgapp_rpi.Base.{
  ℕ, zero, suc, Bool, true, false, not, ◌&&◌, ◌||◌, List, [], ◌∷◌, length, all, any, keep, ltb, leb,
  ◌==◌, if◌then◌else◌,
}
use airgapp_rpi.Base.Text.{Text, codes, str_eq, to_lower, trim_space}
use airgapp_rpi.Base.Lines.{contains, split_on}

-- `net.ParseCIDR` gives no error; `net.ParseIP` gives an address; it gives one that `To4` has; and
-- the IPv4 addresses of `net.LookupIP`, none when it fails.
pub record Net : Type 0 where
  pub is_cidr : Text → Bool
  pub is_ip : Text → Bool
  pub is_ip4 : Text → Bool
  pub lookup_ip4 : Text → List Text

abbrev pub is_empty : Text → Bool
is_empty [] = true
is_empty (c ∷ s) = false

abbrev pub is_digit : ℕ → Bool
is_digit c = leb b'0' c && leb c b'9'

abbrev pub is_hex : ℕ → Bool
is_hex c = is_digit c || (leb b'a' c && leb c b'f')

-- `[0-9a-f]{2}(:[0-9a-f]{2}){n}`
unfoldable pub hex_octets : ℕ → Text → Bool
hex_octets zero (a ∷ b ∷ []) = is_hex a && is_hex b
hex_octets (suc n) (a ∷ b ∷ c ∷ s) = (is_hex a && is_hex b) && ((c == b':') && hex_octets n s)
hex_octets _ _ = false

unfoldable pub valid_mac : Text → Bool
valid_mac s = hex_octets 5 (to_lower s)

unfoldable pub valid_protocol : Text → Bool
valid_protocol s = any (str_eq s) ([] ∷ codes "all" ∷ codes "tcp" ∷ codes "udp" ∷ codes "icmp" ∷ [])

-- `\d{1,5}`
abbrev pub port_number : Text → Bool
port_number s = all is_digit s && (ltb 0 (length s) && leb (length s) 5)

-- `\d{1,5}(-\d{1,5})?`
abbrev pub port_parts : List Text → Bool
port_parts (p ∷ []) = port_number p
port_parts (p ∷ q ∷ []) = port_number p && port_number q
port_parts _ = false

unfoldable pub valid_port_spec : Text → Bool
valid_port_spec s = if is_empty s then true else port_parts (split_on b'-' s)

unfoldable pub valid_ip4 : Net → Text → Bool
valid_ip4 net s = net.is_ip (trim_space s) && net.is_ip4 (trim_space s)

unfoldable pub valid_ip_or_cidr : Net → Text → Bool
valid_ip_or_cidr net s =
    let t = trim_space s in
    if is_empty t then true else if contains t (b'/' ∷ []) then net.is_cidr t else valid_ip4 net t

-- `SanitizeSingleLine`; the bytes of a character above 127 are none of those it drops.
-- UTF-8, as `utf8.DecodeRuneInString` reads it: a byte that continues a rune, and which bytes may
-- come second after a first one.
abbrev pub is_continuation : ℕ → Bool
is_continuation c = leb 128 c && leb c 191

abbrev pub may_follow : ℕ → ℕ → Bool
may_follow c d =
    is_continuation d
    && ((not (c == 224) || leb 160 d)
        && ((not (c == 237) || leb d 159)
            && ((not (c == 240) || leb 144 d) && (not (c == 244) || leb d 143))))

abbrev pub second_may_follow : ℕ → Text → Bool
second_may_follow c [] = false
second_may_follow c (d ∷ s) = may_follow c d

-- The text begins with so many bytes that continue a rune.
unfoldable pub continues : ℕ → Text → Bool
continues zero s = true
continues (suc n) [] = false
continues (suc n) (c ∷ s) = is_continuation c && continues n s

-- How many bytes continue a rune that begins with this byte.
abbrev pub rune_rest : ℕ → ℕ
rune_rest c = if leb c 223 then 1 else if leb c 239 then 2 else 3

-- The byte, of 128 or more, begins a rune that is written correctly.
abbrev pub starts_rune : ℕ → Text → Bool
starts_rune c s = (leb 194 c && leb c 244) && (second_may_follow c s && continues (rune_rest c) s)

-- `strings.Map`: a control character is left out; a byte that belongs to no rune becomes U+FFFD. The
-- number counts the bytes that continue a rune already begun.
unfoldable pub sanitize_from : ℕ → Text → Text
sanitize_from n [] = []
sanitize_from (suc n) (c ∷ s) = c ∷ sanitize_from n s
sanitize_from zero (c ∷ s) =
    let is_rune = leb 128 c && starts_rune c s in
    let rest = sanitize_from (if is_rune then rune_rest c else 0) s in
    if is_rune
    then c ∷ rest
    else if leb 128 c
    then 239 ∷ 191 ∷ 189 ∷ rest
    else if ltb c 32 || (c == 127)
    then rest
    else c ∷ rest

unfoldable pub sanitize_single_line : Text → Text
sanitize_single_line s = sanitize_from 0 s

abbrev pub is_letter : ℕ → Bool
is_letter c = (leb b'A' c && leb c b'Z') || (leb b'a' c && leb c b'z')

abbrev pub is_name_byte : ℕ → Bool
is_name_byte c =
    (is_letter c || is_digit c)
    || (((c == b' ') || (c == b'_')) || (((c == b'+') || (c == b'/')) || (c == b'-')))

-- `[A-Za-z0-9][A-Za-z0-9 _+/-]{0,63}`
unfoldable pub valid_preset_name : Text → Bool
valid_preset_name [] = false
valid_preset_name (c ∷ s) = (is_letter c || is_digit c) && (all is_name_byte s && leb (length s) 63)
