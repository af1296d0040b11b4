-- ===== src/Network.antt =====
-- internal/services/network.go: the lease file and the ARP table as lists of lines, the merge of
-- both into the devices of one scan, and the table `devices`. A Go map is a list of pairs. The
-- order in which a scan goes through its map is the order of that list.
pub mod Leases
pub mod Statuses
mod Tests
use airgapp_rpi.Base.{
  ℕ, ◌+◌, ◌-◌, ◌*◌, ◌^◌, Bool, true, false, not, ◌&&◌, ◌||◌, Option, none, some, List, [], ◌∷◌,
  ◌++◌, map, any, all, keep, ltb, leb, ◌==◌, if◌then◌else◌,
}
use airgapp_rpi.Base.Text.{Text, codes, str_eq, to_lower, to_upper, trim_space}
use airgapp_rpi.Base.Lines.{fields}
use airgapp_rpi.Validate.{is_empty, is_digit, valid_mac}

-- What a scan finds out of `models.Device`.
pub record Device : Type 0 where
  pub mac : Text
  pub ip : Text
  pub hostname : Text

module _ {ℓ} {A : Type ℓ} where
  unfoldable pub lookup : Text → List (Text × A) → Option A
  lookup key [] = none
  lookup key ((k, a) ∷ pairs) = let rest = lookup key pairs in if str_eq k key then some a else rest

  -- `m[key] = a`
  unfoldable pub put : Text → A → List (Text × A) → List (Text × A)
  put key a [] = (key, a) ∷ []
  put key a ((k, b) ∷ pairs) =
      let rest = put key a pairs in if str_eq k key then (key, a) ∷ pairs else (k, b) ∷ rest

abbrev pub number_of : ℕ → Text → ℕ
number_of acc [] = acc
number_of acc (c ∷ s) = number_of (acc * 10 + (c - b'0')) s

-- `strconv.ParseInt(s, 10, 64)`, with `2 ^ 63` added to its result, so that the order is kept.
abbrev pub zero_expiry : ℕ
zero_expiry = 2 ^ 63

abbrev pub is_number : Text → Bool
is_number s = not (is_empty s) && all is_digit s

abbrev pub positive : Text → Option ℕ
positive s =
    if is_number s && ltb (number_of 0 s) (2 ^ 63) then some (zero_expiry + number_of 0 s) else none

abbrev pub negative : Text → Option ℕ
negative s =
    if is_number s && leb (number_of 0 s) (2 ^ 63) then some (zero_expiry - number_of 0 s) else none

unfoldable pub parse_int : Text → Option ℕ
parse_int [] = none
parse_int (c ∷ s) =
    if c == b'-' then negative s else if c == b'+' then positive s else positive (c ∷ s)

-- A malformed expiry is 0.
unfoldable pub expiry_of : Text → ℕ
expiry_of s = elim (parse_int s) [ some n ↦ n | none ↦ zero_expiry ]

pub record Lease : Type 0 where
  pub expiry : ℕ
  pub device : Device

-- `expiry MAC IP hostname …`
unfoldable pub read_lease : Text → Option Lease
read_lease l = elim (fields l) [
  | e ∷ mac ∷ ip ∷ host ∷ rest ↦ some (record {
    expiry = expiry_of e;
    device = record {
      mac = to_upper mac;
      ip = ip;
      hostname = if str_eq host (codes "*") then [] else host;
    };
  })
  | _ ↦ none
]

pub record Merge : Type 0 where
  pub newest : List (Text × ℕ)
  pub devices : List (Text × Device)

unfoldable pub merge_lease : Lease → Merge → Merge
merge_lease lease m =
    let taken : Merge = record {
      newest = put lease.device.mac lease.expiry m.newest;
      devices = put lease.device.mac lease.device m.devices;
    } in
    elim (lookup lease.device.mac m.newest) [
      | some prev ↦ if leb lease.expiry prev then m else taken
      | none ↦ taken
    ]

-- The loop of `mergeLeases`.
unfoldable pub merge_lines : List Text → Merge → Merge
merge_lines [] m = m
merge_lines (l ∷ ls) m =
    merge_lines ls (elim (read_lease l) [ some lease ↦ merge_lease lease m | none ↦ m ])

unfoldable pub merge_leases : List (Text × Device) → List Text → List (Text × Device)
merge_leases devices ls = (merge_lines ls (record { newest = []; devices = devices })).devices

abbrev pub addresses : Option (List Text) → List Text
addresses none = []
addresses (some ips) = ips

-- `leasedIPsByMAC`
unfoldable pub leased_ips : List Text → List (Text × List Text) → List (Text × List Text)
leased_ips [] out = out
leased_ips (l ∷ ls) out = leased_ips ls (elim (fields l) [
  | e ∷ mac ∷ ip ∷ host ∷ rest ↦
      put (to_upper mac) (addresses (lookup (to_upper mac) out) ++ ip ∷ []) out
  | _ ↦ out
])

-- A complete entry of the ARP table on the interface: address and MAC.
unfoldable pub read_arp : Text → Text → Option (Text × Text)
read_arp lan l = elim (fields l) [
  | ip ∷ hwtype ∷ flags ∷ hwaddr ∷ mask ∷ dev ∷ rest ↦
      let mac = to_upper hwaddr in
      if not (str_eq dev lan) || str_eq flags (codes "0x0")
      then none
      else if is_empty mac
          || (str_eq mac (codes "00:00:00:00:00:00") || not (valid_mac (to_lower mac)))
      then none
      else some (ip, mac)
  | _ ↦ none
]

abbrev pub behind_header : List Text → List Text
behind_header [] = []
behind_header (header ∷ ls) = ls

abbrev pub arp_lines : Text → List Text → List (Text × Text) → List (Text × Text)
arp_lines lan [] out = out
arp_lines lan (l ∷ ls) out =
    arp_lines lan ls (elim (read_arp lan l) [ some (ip, mac) ↦ put ip mac out | none ↦ out ])

unfoldable pub arp_by_ip : Text → List Text → List (Text × Text)
arp_by_ip lan ls = arp_lines lan (behind_header ls) []

-- The live address wins over the leased one; the name of the lease is kept.
unfoldable pub with_arp : Text → Text → List (Text × Device) → List (Text × Device)
with_arp ip mac devices = elim (lookup mac devices) [
  | some d ↦ put mac (record d { ip = ip }) devices
  | none ↦ put mac (record { mac = mac; ip = ip; hostname = [] }) devices
]

abbrev pub merge_arp_lines :
    Text → List Text → List (Text × Device) × List Text → List (Text × Device) × List Text
merge_arp_lines lan [] s = s
merge_arp_lines lan (l ∷ ls) (devices, present) = merge_arp_lines lan ls (elim (read_arp lan l) [
  | some (ip, mac) ↦ (with_arp ip mac devices, mac ∷ present)
  | none ↦ (devices, present)
])

-- The devices, and the MACs that are present.
unfoldable pub merge_arp :
    Text → List Text → List (Text × Device) → List (Text × Device) × List Text
merge_arp lan ls devices = merge_arp_lines lan (behind_header ls) (devices, [])

-- A row of `devices`. `last_seen` is in seconds.
pub record DeviceRow : Type 0 where
  pub mac : Text
  pub ip : Text
  pub hostname : Text
  pub alias : Text
  pub status : Text
  pub is_blocked : Bool
  pub ignore_traffic_log : Bool
  pub last_seen : ℕ

-- The row that a new device gets: the columns that the statement does not name have their defaults.
unfoldable pub new_row : ℕ → Device → Bool → DeviceRow
new_row now d present = record {
  mac = d.mac;
  ip = d.ip;
  hostname = d.hostname;
  alias = [];
  status = codes "blocked";
  is_blocked = false;
  ignore_traffic_log = false;
  last_seen = if present then now else now - 600;
}

unfoldable pub seen_row : ℕ → Device → Bool → DeviceRow → DeviceRow
seen_row now d present r = record r {
  ip = d.ip;
  hostname = if is_empty d.hostname then r.hostname else d.hostname;
  last_seen = if present then now else r.last_seen;
}

unfoldable pub upsert_device : ℕ → Device → Bool → List DeviceRow → List DeviceRow
upsert_device now d present [] = new_row now d present ∷ []
upsert_device now d present (r ∷ rows) =
    let rest = upsert_device now d present rows in
    if str_eq r.mac d.mac then seen_row now d present r ∷ rows else r ∷ rest

abbrev pub upsert_all : ℕ → List Text → List (Text × Device) → List DeviceRow → List DeviceRow
upsert_all now present [] rows = rows
upsert_all now present ((mac, d) ∷ devices) rows =
    upsert_all now present devices (upsert_device now d (any (str_eq d.mac) present) rows)

-- `scan` on what the two files hold.
unfoldable pub scan : ℕ → Text → List Text → List Text → List DeviceRow → List DeviceRow
scan now lan leases arp rows =
    let (devices, present) = merge_arp lan arp (merge_leases [] leases) in
    upsert_all now present devices rows

pub data DeviceError : Type 0 where
  invalid_mac invalid_status device_not_found : DeviceError

pub data Saved : Type 0 where
  saved : List DeviceRow → Saved
  rejected : DeviceError → Saved

unfoldable pub clean_mac : Text → Text
clean_mac mac = to_upper (trim_space mac)

unfoldable pub is_status : Text → Bool
is_status s = str_eq s (codes "blocked") || (str_eq s (codes "filtered") || str_eq s (codes "open"))

-- `UPDATE … WHERE mac_address = ?`
unfoldable pub update_rows : Text → (DeviceRow → DeviceRow) → List DeviceRow → List DeviceRow
update_rows mac f [] = []
update_rows mac f (r ∷ rows) =
    let rest = update_rows mac f rows in if str_eq r.mac mac then f r ∷ rest else r ∷ rest

unfoldable pub set_status : Text → Text → List DeviceRow → Saved
set_status raw status rows =
    let mac = clean_mac raw in
    if not (valid_mac (to_lower mac))
    then rejected invalid_mac
    else if not (is_status status)
    then rejected invalid_status
    else saved (
        update_rows mac
          (λ r. record r { status = status; is_blocked = str_eq status (codes "blocked") }) rows)

-- `DELETE … WHERE mac_address = ?`
unfoldable pub delete_rows : Text → List DeviceRow → List DeviceRow
delete_rows mac [] = []
delete_rows mac (r ∷ rows) =
    let rest = delete_rows mac rows in if str_eq r.mac mac then rest else r ∷ rest

unfoldable pub delete_device : Text → List DeviceRow → Saved
delete_device raw rows =
    let mac = clean_mac raw in
    if not (valid_mac (to_lower mac))
    then rejected invalid_mac
    else if not (any (λ r. str_eq r.mac mac) rows)
    then rejected device_not_found
    else saved (delete_rows mac rows)

unfoldable pub update_device : Text → Text → Bool → List DeviceRow → List DeviceRow
update_device mac new_alias ignore rows =
    update_rows mac (λ r. record r { alias = new_alias; ignore_traffic_log = ignore }) rows

unfoldable pub device_ip : Text → List DeviceRow → Text
device_ip mac [] = []
device_ip mac (r ∷ rows) = let rest = device_ip mac rows in if str_eq r.mac mac then r.ip else rest

-- `Online` of `ListDevices`: seen in the last five minutes.
unfoldable pub is_online : ℕ → DeviceRow → Bool
is_online now r = ltb (now - 300) r.last_seen
