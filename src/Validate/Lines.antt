-- ===== src/Validate/Lines.antt =====
-- What passes a check of internal/services/validate.go stands on one line.
use airgapp_rpi.Base.{
  ℕ, zero, suc, ◌≡◌, refl, true, false, List, [], ◌∷◌, all, All, any, arith, ◌==◌, inl, inr,
  Bool-cases,
}
use airgapp_rpi.Base.Text.{
  Text, codes, str_eq, str_eq-eq, to_lower, lower_byte, is_space, trim_space,
}
use airgapp_rpi.Base.Trim.{trim_space-solid}
use airgapp_rpi.Base.Lines.{one_line, split_on, onto_first}
use airgapp_rpi.Validate.{
  is_digit, is_hex, is_empty, hex_octets, valid_mac, valid_protocol, port_parts, valid_port_spec,
}

-- A byte that is neither a blank nor upper case.
abbrev pub IsSolid : ℕ → Type 0
IsSolid c = (lower_byte c ≡ c) × ((is_space c ≡ false) × ((c == b'\n') ≡ false))

hex-IsSolid : (c : ℕ) → is_hex c ≡ true → IsSolid c
unfolding lower_byte is_space
hex-IsSolid c h = (ground arith, (ground arith, ground arith))

colon-IsSolid : (c : ℕ) → (c == b':') ≡ true → IsSolid c
unfolding lower_byte is_space
colon-IsSolid c h = (ground arith, (ground arith, ground arith))

hex_octets-IsSolid : (n : ℕ) (s : Text) → hex_octets n s ≡ true → All IsSolid s
unfolding hex_octets
hex_octets-IsSolid zero [] h = absurd cc
hex_octets-IsSolid zero (a ∷ []) h = absurd cc
hex_octets-IsSolid zero (a ∷ b ∷ []) h =
    (hex-IsSolid a (ground arith), (hex-IsSolid b (ground arith), tt))
hex_octets-IsSolid zero (a ∷ b ∷ c ∷ s) h = absurd cc
hex_octets-IsSolid (suc n) [] h = tt
hex_octets-IsSolid (suc n) (a ∷ []) h = absurd cc
hex_octets-IsSolid (suc n) (a ∷ b ∷ []) h = absurd cc
hex_octets-IsSolid (suc n) (a ∷ b ∷ c ∷ s) h = (
  hex-IsSolid a (ground arith),
  (
    hex-IsSolid b (ground arith),
    (colon-IsSolid c (ground arith), hex_octets-IsSolid n s (ground arith)),
  ),
)

pub solid-to_lower : (s : Text) → All IsSolid s → to_lower s ≡ s
unfolding to_lower
solid-to_lower [] h = refl
solid-to_lower (c ∷ s) ((l, k), h) = ground (arith, solid-to_lower s h)

solid-blanks : (s : Text) → All IsSolid s → All (λ c. is_space c ≡ false) s
solid-blanks [] h = tt
solid-blanks (c ∷ s) ((l, (k, n)), h) = (k, solid-blanks s h)

pub solid-trim_space : (s : Text) → All IsSolid s → trim_space s ≡ s
solid-trim_space s h = trim_space-solid s (solid-blanks s h)

pub solid-one_line : (s : Text) → All IsSolid s → one_line s ≡ true
unfolding one_line
solid-one_line [] h = refl
solid-one_line (c ∷ s) ((l, (k, n)), h) = ground (arith, solid-one_line s h)

pub to_lower-twice : (s : Text) → to_lower (to_lower s) ≡ to_lower s
unfolding to_lower lower_byte
to_lower-twice [] = refl
to_lower-twice (c ∷ s) = ground (arith, to_lower-twice s)

pub valid_mac-IsSolid : (s : Text) → valid_mac s ≡ true → All IsSolid (to_lower s)
unfolding valid_mac
valid_mac-IsSolid s h = hex_octets-IsSolid 5 (to_lower s) h

pub valid_mac-nonempty : (s : Text) → valid_mac s ≡ true → is_empty (to_lower s) ≡ false
unfolding valid_mac hex_octets to_lower
valid_mac-nonempty [] h = absurd cc
valid_mac-nonempty (c ∷ s) h = refl

-- Every byte of the text stands in a part, or is the separator.
onto_first-one_line :
    (x : ℕ) (ls : List Text)
    → all one_line (onto_first x ls) ≡ true
    → ((x == b'\n') ≡ false) × (all one_line ls ≡ true)
unfolding one_line
onto_first-one_line x [] h = (ground arith, refl)
onto_first-one_line x (l ∷ ls) h = (ground arith, ground arith)

split_on-one_line : (s : Text) → all one_line (split_on b'-' s) ≡ true → one_line s ≡ true
unfolding split_on one_line
split_on-one_line [] h = refl
split_on-one_line (x ∷ s) h = elim (Bool-cases (x == b'-')) [
  | inl e ↦ let rest = split_on-one_line s (ground arith) in ground arith
  | inr e ↦
      let (a, b) = onto_first-one_line x (split_on b'-' s) (ground arith) in
      let rest = split_on-one_line s b in ground arith
]

digits-one_line : (s : Text) → all is_digit s ≡ true → one_line s ≡ true
unfolding one_line
digits-one_line [] h = refl
digits-one_line (c ∷ s) h = ground (arith, digits-one_line s)

port_parts-one_line : (ls : List Text) → port_parts ls ≡ true → all one_line ls ≡ true
port_parts-one_line [] h = refl
port_parts-one_line (p ∷ []) h = ground (arith, digits-one_line p)
port_parts-one_line (p ∷ q ∷ []) h = ground (arith, digits-one_line p, digits-one_line q)
port_parts-one_line (p ∷ q ∷ r ∷ ls) h = absurd cc

pub valid_port_spec-one_line : (s : Text) → valid_port_spec s ≡ true → one_line s ≡ true
unfolding valid_port_spec one_line
valid_port_spec-one_line [] h = refl
valid_port_spec-one_line (c ∷ s) h =
    split_on-one_line (c ∷ s) (port_parts-one_line (split_on b'-' (c ∷ s)) h)

any-one_line :
    (s : Text) (words : List Text)
    → all one_line words ≡ true
    → any (str_eq s) words ≡ true
    → one_line s ≡ true
any-one_line s [] h k = absurd cc
any-one_line s (w ∷ words) h k = elim (Bool-cases (str_eq s w)) [
  | inl e ↦ rw (str_eq-eq s w e) (ground arith)
  | inr e ↦ any-one_line s words (ground arith) (ground arith)
]

pub valid_protocol-one_line : (s : Text) → valid_protocol s ≡ true → one_line s ≡ true
unfolding valid_protocol one_line
valid_protocol-one_line s h =
    any-one_line s ([] ∷ codes "all" ∷ codes "tcp" ∷ codes "udp" ∷ codes "icmp" ∷ []) refl h
