-- ===== src/Wire/Message.antt =====
-- `scanProtoField` on the encoding of a message: it finds the first field that is asked for.
use airgapp_rpi.Base.{
  ℕ, zero, suc, ◌+◌, ◌-◌, ◌*◌, ◌/◌, ◌%◌, ◌^◌, ◌≤◌, ◌<◌, ◌≡◌, refl, ap, ◌∙◌, sym, List, [], ◌∷◌,
  ◌++◌, arith, ◌==◌, if◌then◌else◌, length, length-append, length-drop, drop, take-append_self,
  drop-append_self, All, Option, some, none, ◌&&◌,
}
use airgapp_rpi.Base.Text.{Text}
use airgapp_rpi.Wire.{
  Scan, missing, found, u64, read_varint, skip_field, take_field, scan_from, scan_proto_field,
}
use airgapp_rpi.Wire.Varint.{encode_varint, length-encode_varint, read-encode_varint}

-- A field with its number, in the four wire types that the format still uses.
pub data Field : Type 0 where
  varint : ℕ → ℕ → Field
  fixed64 : ℕ → Text → Field
  bytes : ℕ → Text → Field
  fixed32 : ℕ → Text → Field

abbrev pub number : Field → ℕ
number (varint n v) = n
number (fixed64 n t) = n
number (bytes n t) = n
number (fixed32 n t) = n

abbrev pub wire_type : Field → ℕ
wire_type (varint n v) = 0
wire_type (fixed64 n t) = 1
wire_type (bytes n t) = 2
wire_type (fixed32 n t) = 5

-- What stands behind the tag, in front of `rest`.
abbrev pub encode_body : Field → Text → Text
encode_body (varint n v) rest = encode_varint v ++ rest
encode_body (fixed64 n t) rest = t ++ rest
encode_body (bytes n t) rest = encode_varint (length t) ++ (t ++ rest)
encode_body (fixed32 n t) rest = t ++ rest

abbrev pub encode_message : List Field → Text
encode_message [] = []
encode_message (f ∷ fs) =
    encode_varint (number f * 8 + wire_type f) ++ encode_body f (encode_message fs)

abbrev BodyFits : Field → Type 0
BodyFits (varint n v) = v < 2 ^ 64
BodyFits (fixed64 n t) = length t ≡ 8
BodyFits (bytes n t) = length t < 2 ^ 63
BodyFits (fixed32 n t) = length t ≡ 4

-- The number leaves room for the wire type in 64 bits, and the body has the size of its type.
abbrev pub IsField : Field → Type 0
IsField f = (number f < 2 ^ 61) × BodyFits f

-- The first field of bytes with the number `k`.
abbrev pub first_bytes : ℕ → List Field → Scan
first_bytes k [] = missing
first_bytes k (bytes n t ∷ fs) = if n == k then found t else first_bytes k fs
first_bytes k (f ∷ fs) = first_bytes k fs

drop_eq : (m n : ℕ) (buf : Text) → m ≡ n → drop m buf ≡ drop n buf
drop_eq m n buf e = ap (λ (k : ℕ). drop k buf) e

drop-nil : (k : ℕ) → drop {A = ℕ} k [] ≡ []
drop-nil zero = refl
drop-nil (suc k) = refl

drop-drop : (m n : ℕ) (buf : Text) → drop n (drop m buf) ≡ drop (m + n) buf
drop-drop zero n buf = drop_eq n (zero + n) buf (omega arith)
drop-drop (suc m) n [] = drop-nil n ∙ sym (drop-nil (suc m + n))
drop-drop (suc m) n (b ∷ buf) =
    drop-drop m n buf ∙ drop_eq (suc (m + n)) (suc m + n) (b ∷ buf) (omega arith)

pub next_at : (i : ℕ) (buf x s : Text) → drop i buf ≡ x ++ s → drop (i + length x) buf ≡ s
next_at i buf x s e =
    sym (drop-drop i (length x) buf) ∙ ap (drop (length x)) e ∙ drop-append_self x s

-- Where the bytes at `i` begin with `x`, `x` and what follows fill the rest of the buffer.
pub room :
    (i : ℕ) (buf x s : Text)
    → drop i buf ≡ x ++ s
    → 1 ≤ length x
    → i + length x + length s ≡ length buf
room i buf x s e h = omega (arith, ap length e, length-drop i buf, length-append x s)

pub read_at :
    (i : ℕ) (buf : Text) (v : ℕ) (s : Text)
    → drop i buf ≡ encode_varint v ++ s
    → v < 2 ^ 64
    → read_varint (drop i buf) ≡ (v, length (encode_varint v))
read_at i buf v s e h = rw e (read-encode_varint v s h)

take_field-bytes :
    (i : ℕ) (buf t s : Text)
    → drop i buf ≡ encode_varint (length t) ++ (t ++ s)
    → length buf < 2 ^ 63
    → take_field buf i ≡ found t
unfolding take_field
take_field-bytes i buf t s e h =
    let m : ℕ = length (encode_varint (length t)) in
    let long = length-encode_varint (length t) in
    let r : i + m + length (t ++ s) ≡ length buf =
      room i buf (encode_varint (length t)) (t ++ s) e long.0 in
    let fits : i + m + length t < 2 ^ 63 = omega (arith, r, length-append t s) in
    let at : drop (i + m) buf ≡ t ++ s = next_at i buf (encode_varint (length t)) (t ++ s) e in
    let hi : u64 (i + m + length t) ≡ i + m + length t = omega (arith, fits) in
    let lo : u64 (i + m) ≡ i + m = omega (arith, fits) in
    let cut : i + m + length t - (i + m) ≡ length t = omega arith in
    rw (read_at i buf (length t) (t ++ s) e (omega (arith, fits)))
      (rw (hi, lo, cut, at, take-append_self t s) (ground (arith, length-append t s)))

-- A field that is skipped leaves the scan at the next one.
skip_field-lands :
    (f : Field) (i : ℕ) (buf s : Text)
    → drop i buf ≡ encode_body f s
    → BodyFits f
    → i ≤ length buf
    → length buf < 2 ^ 63
    → (next : ℕ) × (skip_field buf (wire_type f) i ≡ some next)
      × (drop next buf ≡ s)
      × (next ≤ length buf)
unfolding skip_field
skip_field-lands (varint n v) i buf s e fits hi h =
    let m = length (encode_varint v) in
    let long = length-encode_varint v in
    let r : i + m + length s ≡ length buf = room i buf (encode_varint v) s e long.0 in
    (
      i + m,
      rw (read_at i buf v s e fits) (ground arith),
      next_at i buf (encode_varint v) s e,
      omega arith,
    )
skip_field-lands (fixed64 n t) i buf s e fits hi h =
    let r : i + length t + length s ≡ length buf = room i buf t s e (omega arith) in
    (i + length t, ground arith, next_at i buf t s e, omega arith)
skip_field-lands (bytes n t) i buf s e fits hi h =
    let m = length (encode_varint (length t)) in
    let long = length-encode_varint (length t) in
    let r : i + m + length (t ++ s) ≡ length buf =
      room i buf (encode_varint (length t)) (t ++ s) e long.0 in
    let l = length-append t s in
    let at : drop (i + m) buf ≡ t ++ s = next_at i buf (encode_varint (length t)) (t ++ s) e in
    (
      i + m + length t,
      rw (read_at i buf (length t) (t ++ s) e (omega arith)) (ground arith),
      next_at (i + m) buf t s at,
      omega arith,
    )
skip_field-lands (fixed32 n t) i buf s e fits hi h =
    let r : i + length t + length s ≡ length buf = room i buf t s e (omega arith) in
    (i + length t, ground arith, next_at i buf t s e, omega arith)

wire_type-lt : (f : Field) → wire_type f < 8
wire_type-lt (varint n v) = omega arith
wire_type-lt (fixed64 n t) = omega arith
wire_type-lt (bytes n t) = omega arith
wire_type-lt (fixed32 n t) = omega arith

-- The scan at a field: take it, or go on behind it.
abbrev pub go_on : ℕ → Text → ℕ → Option ℕ → Scan
go_on fuel buf k none = missing
go_on fuel buf k (some next) = scan_from fuel buf next k 2

pub scan-step :
    (fuel i k n w : ℕ) (buf s : Text)
    → w < 8
    → n < 2 ^ 61
    → drop i buf ≡ encode_varint (n * 8 + w) ++ s
    → i ≤ length buf
    → length buf < 2 ^ 63
    → scan_from (suc fuel) buf i k 2 ≡ (
        if n == k && (w == 2)
        then take_field buf (i + length (encode_varint (n * 8 + w)))
        else go_on fuel buf k (skip_field buf w (i + length (encode_varint (n * 8 + w)))))
unfolding scan_from
scan-step fuel i k n w buf s hw hn e hi h =
    let tag : ℕ = n * 8 + w in
    let long = length-encode_varint tag in
    let r : i + length (encode_varint tag) + length s ≡ length buf =
      room i buf (encode_varint tag) s e long.0 in
    let num : tag / 8 ≡ n = omega arith in
    let wire : tag % 8 ≡ w = omega arith in
    let pos : u64 (i + length (encode_varint tag)) ≡ i + length (encode_varint tag) = omega arith in
    rw (read_at i buf tag s e (omega arith)) (rw (num, wire, pos) (ground arith))

length-encode_body : (f : Field) (rest : Text) → length rest ≤ length (encode_body f rest)
length-encode_body (varint n v) rest = omega (arith, length-append (encode_varint v) rest)
length-encode_body (fixed64 n t) rest = omega (arith, length-append t rest)
length-encode_body (bytes n t) rest =
    omega (arith, length-append (encode_varint (length t)) (t ++ rest), length-append t rest)
length-encode_body (fixed32 n t) rest = omega (arith, length-append t rest)

length-encode_message :
    (f : Field) (fs : List Field) → length (encode_message fs) < length (encode_message (f ∷ fs))
length-encode_message f fs =
    let tag : ℕ = number f * 8 + wire_type f in
    omega (
      arith,
      length-append (encode_varint tag) (encode_body f (encode_message fs)),
      length-encode_varint tag,
      length-encode_body f (encode_message fs),
    )

module _ (k : ℕ) (buf : Text) (small : length buf < 2 ^ 63) where
  -- One field, whatever it is: the scan of the rest is `rest`.
  scan-field :
      (fuel i : ℕ) (f : Field) (fs : List Field)
      → drop i buf ≡ encode_message (f ∷ fs)
      → IsField f
      → i ≤ length buf
      → ((next : ℕ)
          → drop next buf ≡ encode_message fs
          → next ≤ length buf
          → scan_from fuel buf next k 2 ≡ first_bytes k fs)
      → scan_from (suc fuel) buf i k 2 ≡ first_bytes k (f ∷ fs)
  scan-field fuel i f fs e (hn, fits) hi rest =
      let tag : ℕ = number f * 8 + wire_type f in
      let s : Text = encode_body f (encode_message fs) in
      let r : i + length (encode_varint tag) + length s ≡ length buf =
        room i buf (encode_varint tag) s e (length-encode_varint tag).0 in
      let at : drop (i + length (encode_varint tag)) buf ≡ s =
        next_at i buf (encode_varint tag) s e in
      let (next, skipped, there, within) =
        skip_field-lands f (i + length (encode_varint tag)) buf (encode_message fs) at fits
          (omega arith) small in
      scan-step fuel i k (number f) (wire_type f) buf s (wire_type-lt f) hn e hi small
      ∙ rw skipped (rw (rest next there within) (finish f (i + length (encode_varint tag)) at))
    where
      finish :
          (g : Field) (j : ℕ)
          → drop j buf ≡ encode_body g (encode_message fs)
          → (if number g == k && (wire_type g == 2) then take_field buf j else first_bytes k fs)
            ≡ first_bytes k (g ∷ fs)
      finish (varint n v) j q = ground arith
      finish (fixed64 n t) j q = ground arith
      finish (bytes n t) j q = ground (arith, take_field-bytes j buf t (encode_message fs) q small)
      finish (fixed32 n t) j q = ground arith

  scan_from-encode :
      (fs : List Field) (fuel i : ℕ)
      → drop i buf ≡ encode_message fs
      → All IsField fs
      → i ≤ length buf
      → length (encode_message fs) < fuel
      → scan_from fuel buf i k 2 ≡ first_bytes k fs
  scan_from-encode fs zero i e ok hi enough = absurd (omega arith)
  scan_from-encode [] (suc fuel) i e ok hi enough = scan-end fuel i e hi
    where
      scan-end :
          (fuel i : ℕ) → drop i buf ≡ [] → i ≤ length buf → scan_from (suc fuel) buf i k 2 ≡ missing
      scan-end fuel i e hi = unfold scan_from in ground (arith, ap length e, length-drop i buf)
  scan_from-encode (f ∷ fs) (suc fuel) i e (ok, oks) hi enough =
      scan-field fuel i f fs e ok hi (λ next there within.
        scan_from-encode fs fuel next there oks within (omega (arith, length-encode_message f fs)))

-- On the encoding of any list of fields that fits into memory, in any of the four wire types, the
-- scan for the field `k` ends within its fuel, does not panic, and returns the bytes of the first
-- field of bytes that has the number `k`, or nothing if there is none.
pub scan-encode_message :
    (k : ℕ) (fs : List Field)
    → All IsField fs
    → length (encode_message fs) < 2 ^ 63
    → scan_proto_field (encode_message fs) k 2 ≡ first_bytes k fs
unfolding scan_proto_field
scan-encode_message k fs ok small =
    scan_from-encode k (encode_message fs) small fs (suc (length (encode_message fs))) 0 refl ok
      (omega arith) (omega arith)
