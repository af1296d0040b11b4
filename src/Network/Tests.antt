-- ===== src/Network/Tests.antt =====
-- Runs of Network on concrete files and tables.
use airgapp_rpi.Base.{◌≡◌, ◌≤◌, refl, true, false, none, some, List, [], ◌∷◌, All, ◌⊎◌}
use mathlib.Core.List.{Mem}
use airgapp_rpi.Base.Text.{
  Text, codes, str_eq, is_space, trim_left, trim_space, to_lower, lower_byte, to_upper, upper_byte,
}
use airgapp_rpi.Base.Lines.{fields}
use airgapp_rpi.Validate.{valid_mac, hex_octets}
use airgapp_rpi.Network.{
  Device, DeviceRow, lookup, put, parse_int, expiry_of, Lease, read_lease, merge_lease, merge_lines,
  merge_leases, leased_ips, read_arp, arp_by_ip, with_arp, merge_arp, new_row, upsert_device, scan,
  clean_mac, is_status, set_status, delete_device, rejected, invalid_status, device_not_found,
  is_online,
}
use airgapp_rpi.Network.Leases.{gather, merge_leases-newest}
use airgapp_rpi.Network.Statuses.{
  Op, seen, classify, edit, run, status_of, fate, fates, run-refines,
}

abbrev car : Text
car = codes "4C:FC:AA:00:00:01"

-- The newer lease stands first.
abbrev lease_file : List Text
lease_file =
    codes "1700000200 4c:fc:aa:00:00:01 192.168.4.20 car 01:x"
    ∷ codes "1700000100 4c:fc:aa:00:00:01 192.168.4.10 old 01:x"
    ∷ codes "short line"
    ∷ []

abbrev arp_file : List Text
arp_file =
    codes "IP address HW type Flags HW address Mask Device"
    ∷ codes "192.168.4.30 0x1 0x2 4c:fc:aa:00:00:01 * wlan0"
    ∷ codes "192.168.4.31 0x1 0x0 00:00:00:00:00:00 * wlan0"
    ∷ []

abbrev leased : Device
leased = record { mac = car; ip = codes "192.168.4.20"; hostname = codes "car" }

test_parse : parse_int (codes "-9223372036854775808") ≡ some 0
unfolding parse_int
test_parse = refl

test_range : expiry_of (codes "9223372036854775808") ≡ expiry_of (codes "junk")
unfolding expiry_of parse_int
test_range = refl

test_leases : lookup car (merge_leases [] lease_file) ≡ some leased
unfolding merge_leases merge_lines merge_lease read_lease expiry_of parse_int lookup put fields
    is_space to_upper upper_byte str_eq
test_leases = refl

test_leased_ips :
    leased_ips lease_file [] ≡ (car, codes "192.168.4.20" ∷ codes "192.168.4.10" ∷ []) ∷ []
unfolding leased_ips lookup put fields is_space to_upper upper_byte str_eq
test_leased_ips = refl

test_arp : arp_by_ip (codes "wlan0") arp_file ≡ (codes "192.168.4.30", car) ∷ []
unfolding arp_by_ip read_arp put fields is_space to_upper upper_byte to_lower lower_byte str_eq
    valid_mac hex_octets
test_arp = refl

-- A new device is blocked by its status, with the older column `is_blocked` left at its default.
abbrev found : DeviceRow
found = record {
  mac = car;
  ip = codes "192.168.4.30";
  hostname = codes "car";
  alias = [];
  status = codes "blocked";
  is_blocked = false;
  ignore_traffic_log = false;
  last_seen = 1000;
}

test_scan : scan 1000 (codes "wlan0") lease_file arp_file [] ≡ found ∷ []
unfolding scan upsert_device new_row merge_arp with_arp merge_leases merge_lines merge_lease
    read_lease read_arp expiry_of parse_int lookup put fields is_space to_upper upper_byte to_lower
    lower_byte str_eq valid_mac hex_octets
test_scan = refl

test_status : set_status car (codes "trusted") (found ∷ []) ≡ rejected invalid_status
unfolding set_status clean_mac is_status trim_space trim_left is_space to_upper upper_byte to_lower
    lower_byte str_eq valid_mac hex_octets
test_status = refl

test_delete : delete_device car [] ≡ rejected device_not_found
unfolding delete_device clean_mac trim_space trim_left is_space to_upper upper_byte to_lower
    lower_byte valid_mac hex_octets
test_delete = refl

test_online : is_online 1200 found ≡ true
unfolding is_online
test_online = refl

abbrev ops : List Op
ops =
    seen 10 leased true
    ∷ classify (codes " 4c:fc:aa:00:00:01") (codes "filtered")
    ∷ seen 20 leased false
    ∷ edit car (codes "my car") true
    ∷ []

test_fate : fates car ops none ≡ some (codes "filtered")
unfolding fates fate clean_mac is_status trim_space trim_left is_space to_upper upper_byte to_lower
    lower_byte str_eq valid_mac hex_octets
test_fate = refl

run-refines_example : status_of car (run ops []) ≡ fates car ops (status_of car [])
run-refines_example = run-refines car ops []

merge_leases-newest_example :
    ((lookup car (merge_leases [] lease_file) ≡ none)
      × All (λ l. str_eq l.device.mac car ≡ false) (gather lease_file []))
    ⊎ ((w : Lease) × Mem w (gather lease_file [])
        × (lookup car (merge_leases [] lease_file) ≡ some w.device)
        × All (λ l. str_eq l.device.mac car ≡ true → l.expiry ≤ w.expiry) (gather lease_file []))
merge_leases-newest_example = merge_leases-newest lease_file car
