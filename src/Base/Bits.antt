-- ===== src/Base/Bits.antt =====
-- Facts about the native `bit_and` and `bit_or` that the wire format needs.
use Prim.Native.Nat.{
  ℕ, zero, suc, ◌+◌, ◌*◌, ◌/◌, ◌%◌, ◌^◌, ◌≤◌, ◌<◌, max, bit_and, bit_or, digits, bit_or-bitwise,
}
use mathlib.Core.Path.{◌≡◌, refl, ap, sym, ◌∙◌}
use mathlib.Core.Logic.{inl, inr}
use mathlib.Core.Bool.{Bool, true, ◌&&◌}
use native.Mathlib.Nat.{pow-suc}
use native.Mathlib.Omega.{arith}
use airgapp_rpi.Base.Tests.{◌==◌, Bool-cases}

-- Two functions agree below a bound, by evaluation.
agree_to : ℕ → (ℕ → ℕ) → (ℕ → ℕ) → Bool
agree_to zero f g = true
agree_to (suc n) f g = (f n == g n) && agree_to n f g

agree_to-eq : (n : ℕ) (f g : ℕ → ℕ) → agree_to n f g ≡ true → (x : ℕ) → x < n → f x ≡ g x
unfolding agree_to
agree_to-eq zero f g h x below = absurd (omega (arith, below))
agree_to-eq (suc n) f g h x below =
    let rest : agree_to n f g ≡ true = ground arith in
    let here : f n ≡ g n = ground arith in
    elim (Bool-cases (x == n)) [
      | inl last ↦ let same : x ≡ n = ground arith in rw same here
      | inr earlier ↦ agree_to-eq n f g rest x (ground arith)
    ]

low_bytes : agree_to 256 (λ b. bit_and b 0x7f) (λ b. b % 128) ≡ true
unfolding agree_to
low_bytes = refl

top_bytes : agree_to 256 (λ b. bit_and b 0x80) (λ b. b / 128 * 128) ≡ true
unfolding agree_to
top_bytes = refl

pub low_bits : (b : ℕ) → b < 256 → bit_and b 0x7f ≡ b % 128
low_bits = agree_to-eq 256 (λ b. bit_and b 0x7f) (λ b. b % 128) low_bytes

pub top_bit : (b : ℕ) → b < 256 → bit_and b 0x80 ≡ b / 128 * 128
top_bit = agree_to-eq 256 (λ b. bit_and b 0x80) (λ b. b / 128 * 128) top_bytes

-- What `bit_or` stands for: the digits of both numbers, for a number of rounds that covers `a`.
abbrev or_rounds : (a b rounds : ℕ) → ℕ
or_rounds a b rounds = digits (λ b. b) max rounds a b

no_rounds : (b r : ℕ) → or_rounds 0 b r ≡ b
no_rounds b zero = refl
no_rounds b (suc r) = refl

enough_rounds : (r t b a : ℕ) → a ≤ t → a ≤ r → or_rounds a b t ≡ or_rounds a b r
enough_rounds r t b zero in_t in_r = no_rounds b t ∙ sym (no_rounds b r)
enough_rounds r zero b (suc a) in_t in_r = absurd (omega (arith, in_t))
enough_rounds zero (suc t) b (suc a) in_t in_r = absurd (omega (arith, in_r))
enough_rounds (suc r) (suc t) b (suc a) in_t in_r =
    let halved =
      enough_rounds r t (b / 2) (suc a / 2) (omega (arith, in_t)) (omega (arith, in_r)) in
    omega (arith, halved)

bit_or_nothing : (b : ℕ) → bit_or 0 b ≡ b
bit_or_nothing = bit_or-bitwise 0

bit_or_step : (a b : ℕ) → bit_or a b ≡ max (a % 2) (b % 2) + bit_or (a / 2) (b / 2) * 2
bit_or_step zero b = omega (arith, bit_or_nothing (b / 2), bit_or_nothing b)
bit_or_step (suc a) b =
    let rounds : or_rounds (suc a / 2) (b / 2) a ≡ or_rounds (suc a / 2) (b / 2) (suc a / 2) =
      enough_rounds (suc a / 2) a (b / 2) (suc a / 2) (omega arith) (omega arith) in
    omega (arith, rounds, bit_or-bitwise (suc a / 2) (b / 2), bit_or-bitwise (suc a) b)

double_pow : (y s : ℕ) → y * 2 ^ suc s ≡ y * 2 ^ s * 2
double_pow y s = omega (arith, ap (λ (t : ℕ). y * t) (pow-suc 2 s))

-- Where the bits of `v` lie below bit `s`, an or with a number shifted by `s` is a sum.
pub bit_or-shifted : (s v y : ℕ) → v < 2 ^ s → bit_or v (y * 2 ^ s) ≡ v + y * 2 ^ s
bit_or-shifted zero v y h =
    let e : v ≡ 0 = omega arith in rw e (omega (arith, bit_or_nothing (y * 2 ^ 0)))
bit_or-shifted (suc s) v y h = omega (
  arith,
  bit_or_step v (y * 2 ^ suc s),
  double_pow y s,
  pow-suc 2 s,
  half_eq,
  bit_or-shifted s (v / 2) y (omega (arith, pow-suc 2 s)),
)
  where
    half_eq : bit_or (v / 2) (y * 2 ^ suc s / 2) ≡ bit_or (v / 2) (y * 2 ^ s)
    half_eq = ap (bit_or (v / 2)) (omega (arith, double_pow y s))
