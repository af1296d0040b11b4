-- ===== src/Network/Statuses.antt =====
-- What becomes of a device's status in internal/services/network.go.
use airgapp_rpi.Base.{
  ℕ, ◌≡◌, refl, sym, ap, ◌∙◌, Bool, false, ◌&&◌, Option, none, some, List, [], ◌∷◌, any, arith,
  Bool-cases, inl, inr, if◌then◌else◌,
}
use airgapp_rpi.Base.Text.{Text, codes, str_eq, str_eq-eq, str_eq_refl, to_lower}
use airgapp_rpi.Validate.{valid_mac}
use airgapp_rpi.Network.{
  Device, DeviceRow, new_row, seen_row, upsert_device, upsert_all, scan, merge_arp, merge_leases,
  clean_mac, is_status, update_rows, delete_rows, set_status, delete_device, update_device, saved,
  rejected, Saved,
}

-- What is called on the table: a scan, the three calls of the console, and a scan's single rows.
pub data Op : Type 0 where
  seen : ℕ → Device → Bool → Op
  classify : Text → Text → Op
  forget : Text → Op
  edit : Text → Text → Bool → Op

-- A call that is refused leaves the table as it is.
abbrev pub table_after : Saved → List DeviceRow → List DeviceRow
table_after (saved rows) old = rows
table_after (rejected e) old = old

unfoldable pub step : Op → List DeviceRow → List DeviceRow
step (seen now d present) rows = upsert_device now d present rows
step (classify mac status) rows = table_after (set_status mac status rows) rows
step (forget mac) rows = table_after (delete_device mac rows) rows
step (edit mac new_alias ignore) rows = update_device mac new_alias ignore rows

unfoldable pub run : List Op → List DeviceRow → List DeviceRow
run [] rows = rows
run (op ∷ ops) rows = run ops (step op rows)

-- The status of a MAC in the table.
unfoldable pub status_of : Text → List DeviceRow → Option Text
status_of mac [] = none
status_of mac (r ∷ rows) =
    let rest = status_of mac rows in if str_eq r.mac mac then some r.status else rest

-- The abstract view of one device: unknown, or its status. A device is blocked when it appears; only
-- the operator changes its status, to one of the three; a device that is forgotten is unknown.
abbrev appear : Option Text → Option Text
appear none = some (codes "blocked")
appear (some status) = some status

abbrev reclassify : Text → Option Text → Option Text
reclassify status none = none
reclassify status (some old) = some status

unfoldable pub fate : Text → Op → Option Text → Option Text
fate mac (seen now d present) s = if str_eq d.mac mac then appear s else s
fate mac (classify raw status) s =
    if str_eq (clean_mac raw) mac && (valid_mac (to_lower mac) && is_status status)
    then reclassify status s
    else s
fate mac (forget raw) s = if str_eq (clean_mac raw) mac && valid_mac (to_lower mac) then none else s
fate mac (edit raw new_alias ignore) s = s

unfoldable pub fates : Text → List Op → Option Text → Option Text
fates mac [] s = s
fates mac (op ∷ ops) s = fates mac ops (fate mac op s)

upsert-status :
    (mac : Text) (now : ℕ) (d : Device) (present : Bool) (rows : List DeviceRow)
    → status_of mac (upsert_device now d present rows)
      ≡ (if str_eq d.mac mac then appear (status_of mac rows) else status_of mac rows)
unfolding status_of upsert_device new_row seen_row
upsert-status mac now d present [] = refl
upsert-status mac now d present (r ∷ rows) = elim (Bool-cases (str_eq r.mac d.mac)) [
  | inl e ↦ rw (e, str_eq-eq r.mac d.mac e) (ground arith)
  | inr e ↦ elim (Bool-cases (str_eq d.mac mac)) [
    | inl q ↦
        let other : str_eq r.mac mac ≡ false = rw (sym (str_eq-eq d.mac mac q)) e in
        rw (e, other, upsert-status mac now d present rows, q) refl
    | inr q ↦ rw (e, upsert-status mac now d present rows, q) refl
  ]
]

set-status :
    (mac target status : Text) (rows : List DeviceRow)
    → status_of mac (
        update_rows target
          (λ r. record r { status = status; is_blocked = str_eq status (codes "blocked") })
          rows)
      ≡ (if str_eq target mac then reclassify status (status_of mac rows) else status_of mac rows)
unfolding status_of update_rows
set-status mac target status [] = ground arith
set-status mac target status (r ∷ rows) = elim (Bool-cases (str_eq r.mac target)) [
  | inl e ↦ rw (e, str_eq-eq r.mac target e, set-status mac target status rows) (ground arith)
  | inr e ↦ elim (Bool-cases (str_eq target mac)) [
    | inl q ↦
        let other : str_eq r.mac mac ≡ false = rw (sym (str_eq-eq target mac q)) e in
        rw (e, other, set-status mac target status rows, q) refl
    | inr q ↦ rw (e, set-status mac target status rows, q) refl
  ]
]

delete-status :
    (mac target : Text) (rows : List DeviceRow)
    → status_of mac (delete_rows target rows)
      ≡ (if str_eq target mac then none else status_of mac rows)
unfolding status_of delete_rows
delete-status mac target [] = ground arith
delete-status mac target (r ∷ rows) = elim (Bool-cases (str_eq r.mac target)) [
  | inl e ↦ rw (e, str_eq-eq r.mac target e, delete-status mac target rows) (ground arith)
  | inr e ↦ elim (Bool-cases (str_eq target mac)) [
    | inl q ↦
        let other : str_eq r.mac mac ≡ false = rw (sym (str_eq-eq target mac q)) e in
        rw (e, other, delete-status mac target rows, q) refl
    | inr q ↦ rw (e, delete-status mac target rows, q) refl
  ]
]

edit-status :
    (mac target new_alias : Text) (ignore : Bool) (rows : List DeviceRow)
    → status_of mac (update_device target new_alias ignore rows) ≡ status_of mac rows
unfolding status_of update_device update_rows
edit-status mac target new_alias ignore [] = refl
edit-status mac target new_alias ignore (r ∷ rows) =
    ground (arith, edit-status mac target new_alias ignore rows)

absent-status :
    (mac : Text) (rows : List DeviceRow)
    → any (λ r. str_eq r.mac mac) rows ≡ false
    → status_of mac rows ≡ none
unfolding status_of
absent-status mac [] h = refl
absent-status mac (r ∷ rows) h = ground (arith, absent-status mac rows)

-- One call on the table does to a device what the abstract view says.
step-fate :
    (mac : Text) (op : Op) (rows : List DeviceRow)
    → status_of mac (step op rows) ≡ fate mac op (status_of mac rows)
unfolding step fate set_status delete_device
step-fate mac (seen now d present) rows = upsert-status mac now d present rows
step-fate mac (edit raw new_alias ignore) rows = edit-status mac raw new_alias ignore rows
step-fate mac (classify raw status) rows = elim (Bool-cases (str_eq (clean_mac raw) mac)) [
  | inl q ↦
      rw (str_eq-eq (clean_mac raw) mac q, str_eq_refl mac)
        (ground (arith, set-status mac mac status rows, str_eq_refl mac))
  | inr q ↦ rw q (ground (arith, set-status mac (clean_mac raw) status rows))
]
step-fate mac (forget raw) rows = elim (Bool-cases (str_eq (clean_mac raw) mac)) [
  | inl q ↦
      rw (str_eq-eq (clean_mac raw) mac q, str_eq_refl mac)
        (ground (arith, delete-status mac mac rows, str_eq_refl mac, absent-status mac rows))
  | inr q ↦ rw q (ground (arith, delete-status mac (clean_mac raw) rows))
]

-- Whatever scans and calls come, in any order, from any table: the status of a device afterwards is
-- the one that its abstract history gives. A device that appears is blocked, a scan never changes the
-- status of a known one, only an accepted classification of that MAC does, and a device that was
-- forgotten is blocked again when it comes back.
pub run-refines :
    (mac : Text) (ops : List Op) (rows : List DeviceRow)
    → status_of mac (run ops rows) ≡ fates mac ops (status_of mac rows)
unfolding run fates
run-refines mac [] rows = refl
run-refines mac (op ∷ ops) rows =
    run-refines mac ops (step op rows) ∙ ap (fates mac ops) (step-fate mac op rows)

abbrev sightings : ℕ → List Text → List (Text × Device) → List Op
sightings now present [] = []
sightings now present ((mac, d) ∷ devices) =
    seen now d (any (str_eq d.mac) present) ∷ sightings now present devices

upsert_all-run :
    (now : ℕ) (present : List Text) (devices : List (Text × Device)) (rows : List DeviceRow)
    → upsert_all now present devices rows ≡ run (sightings now present devices) rows
unfolding run step
upsert_all-run now present [] rows = refl
upsert_all-run now present ((mac, d) ∷ devices) rows =
    upsert_all-run now present devices (upsert_device now d (any (str_eq d.mac) present) rows)

known-fate :
    (mac status : Text) (now : ℕ) (d : Device) (present : Bool)
    → fate mac (seen now d present) (some status) ≡ some status
unfolding fate
known-fate mac status now d present = ground arith

known-fates :
    (mac status : Text) (now : ℕ) (present : List Text) (devices : List (Text × Device))
    → fates mac (sightings now present devices) (some status) ≡ some status
unfolding fates
known-fates mac status now present [] = refl
known-fates mac status now present ((m, d) ∷ devices) =
    ap (fates mac (sightings now present devices))
      (known-fate mac status now d (any (str_eq d.mac) present))
    ∙ known-fates mac status now present devices

-- A scan, whatever the lease file and the ARP table hold, leaves the status of every known device as
-- it was.
scan-status :
    (now : ℕ) (lan : Text) (leases arp : List Text) (rows : List DeviceRow) (mac status : Text)
    → status_of mac rows ≡ some status
    → status_of mac (scan now lan leases arp rows) ≡ some status
unfolding scan
scan-status now lan leases arp rows mac status h =
    let (devices, present) = merge_arp lan arp (merge_leases [] leases) in
    let ops = sightings now present devices in
    ap (status_of mac) (upsert_all-run now present devices rows)
    ∙ run-refines mac ops rows
    ∙ ap (fates mac ops) h
    ∙ known-fates mac status now present devices
