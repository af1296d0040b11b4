-- ===== src/Wire.antt =====
-- internal/services/tesla_session.go, the wire format: `readVarint`, `scanProtoField` and the
-- four extractors. A byte slice is a list of bytes.
--
-- Go's `int` has 64 bits. Positions are kept as their bit patterns, numbers below 2 ^ 64, so that
-- `int(ln)` is `ln` itself; `is_neg` and `exceeds` read a pattern as a signed number. A slice
-- expression whose bounds are negative or out of order panics. `stuck` is no Go value: the fuel ran
-- out.
pub mod Varint
pub mod Message
pub mod Hostile
mod Tests
use Prim.Native.Nat.{bit_and, bit_or}
use airgapp_rpi.Base.{
  ℕ, zero, suc, ◌+◌, ◌-◌, ◌*◌, ◌/◌, ◌%◌, ◌^◌, Bool, ◌&&◌, ◌||◌, not, Option, none, some, List, [],
  ◌∷◌, ltb, leb, ◌==◌, if◌then◌else◌, length, take, drop,
}
use airgapp_rpi.Base.Text.{Text}

abbrev pub u64 : ℕ → ℕ
u64 n = n % 2 ^ 64

-- `v |= uint64(b&0x7F) << shift`
abbrev pub add_group : ℕ → ℕ → ℕ → ℕ
add_group v b shift = bit_or v (u64 (bit_and b 0x7f * 2 ^ shift))

-- The loop of `readVarint`, `i` bytes in.
unfoldable pub read_varint_from : Text → ℕ → ℕ → ℕ → ℕ × ℕ
read_varint_from [] v shift i = (0, 0)
read_varint_from (b ∷ bs) v shift i =
    let v' = add_group v b shift in
    let rest = read_varint_from bs v' (shift + 7) (i + 1) in
    if bit_and b 0x80 == 0 then (v', i + 1) else if leb 64 (shift + 7) then (0, 0) else rest

unfoldable pub read_varint : Text → ℕ × ℕ
unfolding read_varint_from
read_varint buf = read_varint_from buf 0 0 0

abbrev pub is_neg : ℕ → Bool
is_neg w = leb (2 ^ 63) w

-- `w > n` for a bit pattern `w` and the length `n` of a slice.
abbrev pub exceeds : ℕ → ℕ → Bool
exceeds w n = not (is_neg w) && ltb n w

-- `w < n`
abbrev pub is_below : ℕ → ℕ → Bool
is_below w n = is_neg w || ltb w n

pub data Scan : Type 0 where
  missing : Scan
  found : Text → Scan
  panics stuck : Scan

-- `buf[lo:hi]` for `lo` in range and `hi` at most the length, as signed numbers.
abbrev pub slice : Text → ℕ → ℕ → Scan
slice buf lo hi = if is_neg hi || ltb hi lo then panics else found (take (hi - lo) (drop lo buf))

-- The switch that skips a field: where the next one begins, `none` for `return nil`.
unfoldable pub skip_field : Text → ℕ → ℕ → Option ℕ
skip_field buf wt i =
    let n = length buf in
    let (ln, m) = read_varint (drop i buf) in
    if wt == 0
    then (if m == 0 then none else some (u64 (i + m)))
    else if wt == 1
    then (if exceeds (u64 (i + 8)) n then none else some (u64 (i + 8)))
    else if wt == 2
    then (if m == 0 || exceeds (u64 (i + m + ln)) n then none else some (u64 (i + m + ln)))
    else if wt == 5
    then (if exceeds (u64 (i + 4)) n then none else some (u64 (i + 4)))
    else none

-- The first match: `buf[i : i+int(ln)]`.
unfoldable pub take_field : Text → ℕ → Scan
take_field buf i =
    let (ln, m) = read_varint (drop i buf) in
    if m == 0 || exceeds (u64 (i + m + ln)) (length buf)
    then missing
    else slice buf (u64 (i + m)) (u64 (i + m + ln))

-- The loop of `scanProtoField`; `buf[i:]` panics for a negative `i`.
unfoldable pub scan_from : ℕ → Text → ℕ → ℕ → ℕ → Scan
scan_from zero buf i field wire = stuck
scan_from (suc fuel) buf i field wire =
    let (tag, m) = read_varint (drop i buf) in
    let i' = u64 (i + m) in
    let wt = tag % 8 in
    if not (is_below i (length buf))
    then missing
    else if is_neg i
    then panics
    else if m == 0
    then missing
    else if tag / 8 == field && (wt == wire && wt == 2)
    then take_field buf i'
    else elim (skip_field buf wt i') [
      | none ↦ missing
      | some next ↦ scan_from fuel buf next field wire
    ]

-- A field takes a byte at least, unless its length is negative, so this fuel is enough for a
-- message of Message. Hostile is about the lengths for which no fuel is.
unfoldable pub scan_proto_field : Text → ℕ → ℕ → Scan
scan_proto_field buf field wire = scan_from (suc (length buf)) buf 0 field wire

-- A second scan inside the bytes that the first one found.
abbrev pub within : Scan → ℕ → Scan
within (found inner) field = scan_proto_field inner field 2
within other field = other

unfoldable pub extract_routable_uuid : Text → Scan
extract_routable_uuid buf = scan_proto_field buf 51 2

unfoldable pub extract_routable_request_uuid : Text → Scan
extract_routable_request_uuid buf = scan_proto_field buf 50 2

unfoldable pub extract_routable_from_routing_address : Text → Scan
extract_routable_from_routing_address buf = within (scan_proto_field buf 7 2) 2

unfoldable pub extract_routable_to_routing_address : Text → Scan
extract_routable_to_routing_address buf = within (scan_proto_field buf 6 2) 2
