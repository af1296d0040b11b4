-- ===== src/Wire/Hostile.antt =====
-- `scanProtoField` on a field of bytes whose length has its top bit set, so that `int(ln)` is
-- negative and the guard `i+m+int(ln) > len(buf)` lets it through.
use native.Mathlib.Nat.{pow-suc, one-le-pow}
use airgapp_rpi.Base.{
  ℕ, zero, suc, ◌+◌, ◌-◌, ◌*◌, ◌/◌, ◌^◌, ◌≤◌, ◌<◌, ◌≡◌, ◌≢◌, refl, ◌∙◌, ◌++◌, arith, length,
  length-append, drop, some,
}
use airgapp_rpi.Base.Text.{Text}
use airgapp_rpi.Wire.{
  panics, stuck, read_varint, skip_field, take_field, scan_from, scan_proto_field,
}
use airgapp_rpi.Wire.Varint.{groups, encode_varint, length-encode_varint}
use airgapp_rpi.Wire.Message.{read_at, next_at, scan-step}

length-groups_large : (k v : ℕ) → 128 ^ k ≤ v → length (groups k v) ≡ suc k
unfolding groups
length-groups_large zero v h = refl
length-groups_large (suc k) v h = ground (
  arith,
  pow-suc 128 k,
  one-le-pow k 128 (omega arith),
  length-groups_large k (v / 128) (omega (arith, pow-suc 128 k)),
)

-- A number with its top bit set takes ten bytes.
length-encode_large : (v : ℕ) → 2 ^ 63 ≤ v → length (encode_varint v) ≡ 10
unfolding encode_varint
length-encode_large v h = length-groups_large 9 v (omega arith)

-- A field of bytes with number `n` that claims the length `ln`.
abbrev pub claim : ℕ → ℕ → Text → Text
claim n ln rest = encode_varint (n * 8 + 2) ++ (encode_varint ln ++ rest)

-- The length that sends the scan back to the start of the frame.
abbrev pub back_length : ℕ → ℕ
back_length n = 2 ^ 64 - (length (encode_varint (n * 8 + 2)) + 10)

-- The position behind the tag of such a field, and what stands there.
module _ (n ln : ℕ) (rest : Text) (hn : n < 2 ^ 61) (top : 2 ^ 63 ≤ ln) (fits : ln < 2 ^ 64) where
  abbrev behind : ℕ
  behind = length (encode_varint (n * 8 + 2))

  at_length : drop (0 + behind) (claim n ln rest) ≡ encode_varint ln ++ rest
  at_length =
      next_at 0 (claim n ln rest) (encode_varint (n * 8 + 2)) (encode_varint ln ++ rest) refl

  read_length : read_varint (drop (0 + behind) (claim n ln rest)) ≡ (ln, 10)
  read_length =
      rw (← length-encode_large ln top)
        (read_at (0 + behind) (claim n ln rest) ln rest at_length fits)

  long_enough : behind + 10 ≤ length (claim n ln rest)
  long_enough = omega (
    arith,
    length-append (encode_varint (n * 8 + 2)) (encode_varint ln ++ rest),
    length-append (encode_varint ln) rest,
    length-encode_large ln top,
  )

  take_field-claim : take_field (claim n ln rest) (0 + behind) ≡ panics
  unfolding take_field
  take_field-claim =
      let b = length-encode_varint (n * 8 + 2) in rw read_length (ground (arith, long_enough))

  skip_field-claim :
      ln + (behind + 10) ≡ 2 ^ 64 → skip_field (claim n ln rest) 2 (0 + behind) ≡ some 0
  unfolding skip_field
  skip_field-claim back =
      let b = length-encode_varint (n * 8 + 2) in rw read_length (ground (arith, long_enough))

-- A frame that begins with a field of bytes other than the wanted one, and claims for it the length
-- that leads back to the start, is never done: with any fuel the loop of `scanProtoField` is still
-- running, for every field number below 2 ^ 61 and whatever follows in a frame below 2 ^ 63 bytes.
pub scan-hangs :
    (fuel n k : ℕ) (rest : Text)
    → n < 2 ^ 61
    → n ≢ k
    → length (claim n (back_length n) rest) < 2 ^ 63
    → scan_from fuel (claim n (back_length n) rest) 0 k 2 ≡ stuck
scan-hangs zero n k rest hn ne small = unfold scan_from in refl
scan-hangs (suc fuel) n k rest hn ne small =
    let b = length-encode_varint (n * 8 + 2) in
    let skipped : skip_field (claim n (back_length n) rest) 2
          (0 + length (encode_varint (n * 8 + 2)))
        ≡ some 0 =
      skip_field-claim n (back_length n) rest hn (omega arith) (omega arith) (omega arith) in
    scan-step fuel 0 k n 2 (claim n (back_length n) rest) (encode_varint (back_length n) ++ rest)
      (omega arith) hn refl (omega arith) small
    ∙ rw skipped (ground (arith, scan-hangs fuel n k rest hn ne small))

-- If the wanted field itself claims a length of 2 ^ 63 or more, the slice expression panics.
pub scan-panics :
    (k ln : ℕ) (rest : Text)
    → k < 2 ^ 61
    → 2 ^ 63 ≤ ln
    → ln < 2 ^ 64
    → length (claim k ln rest) < 2 ^ 63
    → scan_proto_field (claim k ln rest) k 2 ≡ panics
unfolding scan_proto_field
scan-panics k ln rest hk lo hi small =
    scan-step (length (claim k ln rest)) 0 k k 2 (claim k ln rest) (encode_varint ln ++ rest)
      (omega arith) hk refl (omega arith) small
    ∙ ground (arith, take_field-claim k ln rest hk lo hi)
