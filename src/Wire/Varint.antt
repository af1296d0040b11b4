-- ===== src/Wire/Varint.antt =====
-- Reading back a varint: `readVarint` inverts the base-128 encoding of every 64-bit number.
use native.Mathlib.Numerals.{towards_suc}
use native.Mathlib.Nat.{mod-eq_of_lt, pow-suc, div-add-mod}
use airgapp_rpi.Base.{
  ℕ, zero, suc, ◌+◌, ◌*◌, ◌/◌, ◌%◌, ◌^◌, ◌≤◌, ◌<◌, ◌≡◌, refl, ap, ◌∙◌, [], ◌∷◌, ◌++◌, arith, ltb,
  if◌then◌else◌, length, All, Bool-cases, inl, inr, ltb→lt,
}
use airgapp_rpi.Base.Text.{Text}
use airgapp_rpi.Base.Bits.{low_bits, top_bit, bit_or-shifted}
use airgapp_rpi.Wire.{add_group, read_varint_from, read_varint}

-- The groups of seven bits, lowest first, each but the last with its top bit set; for numbers below
-- 128 ^ (k + 1).
unfoldable pub groups : ℕ → ℕ → Text
groups zero v = v ∷ []
groups (suc k) v =
    let more = (v % 128 + 128) ∷ groups k (v / 128) in if ltb v 128 then v ∷ [] else more

-- The encoding of a 64-bit number, in ten bytes at most.
unfoldable pub encode_varint : ℕ → Text
unfolding groups
encode_varint v = groups 9 v

abbrev pub IsByte : ℕ → Type 0
IsByte b = b < 256

groups-IsByte : (k v : ℕ) → v < 128 ^ suc k → All IsByte (groups k v)
unfolding groups
groups-IsByte zero v h = omega arith
groups-IsByte (suc k) v h = ground (arith, groups-IsByte k (v / 128) (omega arith))

pub encode_varint-IsByte : (v : ℕ) → v < 2 ^ 64 → All IsByte (encode_varint v)
unfolding encode_varint
encode_varint-IsByte v h = groups-IsByte 9 v (omega arith)

length-groups : (k v : ℕ) → (1 ≤ length (groups k v)) × (length (groups k v) ≤ suc k)
unfolding groups
length-groups zero v = omega arith
length-groups (suc k) v = ground (arith, length-groups k (v / 128))

pub length-encode_varint :
    (v : ℕ) → (1 ≤ length (encode_varint v)) × (length (encode_varint v) ≤ 10)
unfolding encode_varint
length-encode_varint v = length-groups 9 v

add_group-eq :
    (v b shift : ℕ)
    → b < 256
    → v < 2 ^ shift
    → b % 128 * 2 ^ shift < 2 ^ 64
    → add_group v b shift ≡ v + b % 128 * 2 ^ shift
add_group-eq v b shift hb hv fits =
    rw (low_bits b hb, mod-eq_of_lt fits) (bit_or-shifted shift v (b % 128) hv)

pow_seven : (s : ℕ) → 2 ^ (s + 7) ≡ 128 * 2 ^ s
pow_seven s = simp towards_suc (omega arith)

-- The last byte of a number, and one with its top bit set.
last_byte :
    (w v shift i : ℕ) (rest : Text)
    → w < 128
    → v < 2 ^ shift
    → v + w * 2 ^ shift < 2 ^ 64
    → read_varint_from (w ∷ rest) v shift i ≡ (v + w * 2 ^ shift, i + 1)
unfolding read_varint_from
last_byte w v shift i rest hw hv fits =
    let e : w % 128 ≡ w = omega arith in
    ground (
      arith,
      top_bit w,
      e,
      ap (λ (t : ℕ). t * 2 ^ shift) e,
      add_group-eq v w shift (omega arith) hv (rw e (omega arith)),
    )

inner_byte :
    (g v shift i : ℕ) (rest : Text)
    → g < 128
    → v < 2 ^ shift
    → g * 2 ^ shift < 2 ^ 64
    → shift + 7 < 64
    → read_varint_from ((g + 128) ∷ rest) v shift i
      ≡ read_varint_from rest (v + g * 2 ^ shift) (shift + 7) (i + 1)
unfolding read_varint_from
inner_byte g v shift i rest hg hv fits hs =
    let e : (g + 128) % 128 ≡ g = omega arith in
    ground (
      arith,
      top_bit (g + 128),
      e,
      ap (λ (t : ℕ). t * 2 ^ shift) e,
      add_group-eq v (g + 128) shift (omega arith) hv (rw e fits),
    )

-- The lowest group of `w` and the rest, in place.
split_low : (w s : ℕ) → w * 2 ^ s ≡ w % 128 * 2 ^ s + w / 128 * 2 ^ (s + 7)
split_low w s = omega (
  arith,
  ap (λ (t : ℕ). t * 2 ^ s) (div-add-mod w 128),
  ap (λ (t : ℕ). w / 128 * t) (pow_seven s),
)

low_fits : (g v s : ℕ) → g < 128 → v < 2 ^ s → v + g * 2 ^ s < 2 ^ (s + 7)
low_fits g v s hg hv = rw (pow_seven s) (grind arith)

read-groups :
    (k j w v shift i : ℕ) (rest : Text)
    → k + j ≡ 9
    → shift ≡ 7 * j
    → w < 128 ^ suc k
    → v < 2 ^ shift
    → v + w * 2 ^ shift < 2 ^ 64
    → read_varint_from (groups k w ++ rest) v shift i ≡ (v + w * 2 ^ shift, i + length (groups k w))
unfolding groups
read-groups zero j w v shift i rest hk hs hw hv fits =
    last_byte w v shift i rest (omega arith) hv fits
read-groups (suc k) j w v shift i rest hk hs hw hv fits = elim (Bool-cases (ltb w 128)) [
  | inl small ↦ rw small (last_byte w v shift i rest (ltb→lt _ _ small) hv fits)
  | inr large ↦ rw large (
      inner_byte (w % 128) v shift i (groups k (w / 128) ++ rest) (omega arith) hv
        (omega (arith, split_low w shift)) (omega arith)
      ∙ read-groups k (suc j) (w / 128) (v + w % 128 * 2 ^ shift) (shift + 7) (i + 1) rest
          (omega arith) (omega arith) (omega (arith, pow-suc 128 (suc k)))
          (low_fits (w % 128) v shift (omega arith) hv) (omega (arith, split_low w shift))
      ∙ ground (arith, split_low w shift))
]

-- `readVarint` reads back every 64-bit number from its encoding, whatever follows, and reports the
-- number of bytes of the encoding.
pub read-encode_varint :
    (v : ℕ) (rest : Text)
    → v < 2 ^ 64
    → read_varint (encode_varint v ++ rest) ≡ (v, length (encode_varint v))
unfolding read_varint encode_varint
read-encode_varint v rest h =
    read-groups 9 0 v 0 0 0 rest refl refl (omega arith) (omega arith) (omega arith) ∙ ground arith
