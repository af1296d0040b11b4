-- ===== src/Base/Trim.antt =====
-- When `strings.TrimSpace` leaves a text as it is.
use Prim.Native.Nat.{ℕ}
use mathlib.Core.Path.{◌≡◌, refl, ap, sym, subst}
use mathlib.Core.Bool.{Bool, false, not, ◌||◌}
use mathlib.Core.List.{List, [], ◌∷◌, ◌++◌, reverse, reverse-append, reverse-cons, reverse-reverse}
use native.Mathlib.Omega.{arith}
use mathlib.Core.Logic.{inl, inr, ◌⊎◌}
use airgapp_rpi.Base.Tests.{Bool-cases}
use airgapp_rpi.Base.Lists.{All, any}
use airgapp_rpi.Base.Text.{Text, is_space, to_lower, lower_byte, trim_left, trim_space}

module _ {ℓ κ} {A : Type ℓ} (P : A → Type κ) where
  All-snoc : (s : List A) (c : A) → All P s → P c → All P (s ++ c ∷ [])
  All-snoc [] c h p = (p, tt)
  All-snoc (d ∷ s) c (q, h) p = (q, All-snoc s c h p)

  pub All-reverse : (s : List A) → All P s → All P (reverse s)
  All-reverse [] h = tt
  All-reverse (c ∷ s) (p, h) =
      subst (All P) (sym (reverse-cons c s)) (All-snoc (reverse s) c (All-reverse s h) p)

trim_left-solid : (s : Text) → All (λ c. is_space c ≡ false) s → trim_left s ≡ s
unfolding trim_left
trim_left-solid [] h = refl
trim_left-solid (c ∷ s) (p, h) = ground arith

pub trim_space-solid : (s : Text) → All (λ c. is_space c ≡ false) s → trim_space s ≡ s
unfolding trim_space
trim_space-solid s h =
    rw
      (
        trim_left-solid s h,
        trim_left-solid (reverse s) (All-reverse (λ c. is_space c ≡ false) s h),
        reverse-reverse s,
      )
      refl

module _ {ℓ} {A : Type ℓ} (p : A → Bool) where
  any-snoc : (s : List A) (c : A) → (any p (s ++ c ∷ []) ≡ (any p s || p c))
  any-snoc [] c = ground arith
  any-snoc (d ∷ s) c = ground (arith, any-snoc s c)

  any-reverse : (s : List A) → any p (reverse s) ≡ any p s
  any-reverse [] = refl
  any-reverse (c ∷ s) = rw (reverse-cons c s, any-snoc (reverse s) c, any-reverse s) (ground arith)

any-trim_left :
    (s : Text) → any (λ c. not (is_space c)) (trim_left s) ≡ any (λ c. not (is_space c)) s
unfolding trim_left
any-trim_left [] = refl
any-trim_left (c ∷ s) = ground (arith, any-trim_left s)

-- A text with a byte that is no blank is not empty after `strings.TrimSpace`.
pub any-trim_space :
    (s : Text) → any (λ c. not (is_space c)) (trim_space s) ≡ any (λ c. not (is_space c)) s
unfolding trim_space
any-trim_space s =
    rw (any-reverse, any-trim_left (reverse (trim_left s)), any-reverse, any-trim_left s) refl

trim_left-snoc :
    (s : Text) (c : ℕ) → is_space c ≡ false → trim_left (s ++ c ∷ []) ≡ trim_left s ++ c ∷ []
unfolding trim_left
trim_left-snoc [] c h = rw h refl
trim_left-snoc (d ∷ s) c h = ground (arith, trim_left-snoc s c)

reverse-snoc : (s : Text) (c : ℕ) → reverse (s ++ c ∷ []) ≡ c ∷ reverse s
reverse-snoc s c = rw (reverse-append s (c ∷ [])) refl

-- A text that does not start with a blank keeps its first byte.
pub trim_space-first :
    (c : ℕ) (s : Text)
    → is_space c ≡ false
    → trim_space (c ∷ s) ≡ c ∷ reverse (trim_left (reverse s))
unfolding trim_space trim_left
trim_space-first c s h =
    rw (h, reverse-cons c s, trim_left-snoc (reverse s) c h)
      (reverse-snoc (trim_left (reverse s)) c)

-- `strings.TrimSpace` once more changes nothing, and the letters' case does not matter to it.
trim_left-shape :
    (s : Text)
    → (trim_left s ≡ []) ⊎ ((c : ℕ) × (t : Text) × (trim_left s ≡ c ∷ t) × (is_space c ≡ false))
unfolding trim_left
trim_left-shape [] = inl refl
trim_left-shape (d ∷ s) = elim (Bool-cases (is_space d)) [
  | inl e ↦ rw e (trim_left-shape s)
  | inr e ↦ rw e (inr (d, s, refl, e))
]

trim_left-twice : (s : Text) → trim_left (trim_left s) ≡ trim_left s
unfolding trim_left
trim_left-twice [] = refl
trim_left-twice (d ∷ s) = ground (arith, trim_left-twice s)

trim_space-from :
    (s : Text) (c : ℕ) (t : Text)
    → trim_left s ≡ c ∷ t
    → is_space c ≡ false
    → trim_space s ≡ c ∷ reverse (trim_left (reverse t))
unfolding trim_space
trim_space-from s c t e h =
    rw (e, reverse-cons c t, trim_left-snoc (reverse t) c h)
      (reverse-snoc (trim_left (reverse t)) c)

trim_space-blank : (s : Text) → trim_left s ≡ [] → trim_space s ≡ []
unfolding trim_space trim_left
trim_space-blank s e = rw e refl

nothing : trim_space [] ≡ []
unfolding trim_space trim_left
nothing = refl

pub trim_space-twice : (s : Text) → trim_space (trim_space s) ≡ trim_space s
trim_space-twice s = elim (trim_left-shape s) [
  | inl e ↦ rw (trim_space-blank s e) nothing
  | inr (c, t, e, h) ↦
      rw
        (
          trim_space-from s c t e h,
          trim_space-first c (reverse (trim_left (reverse t))) h,
          reverse-reverse (trim_left (reverse t)),
          trim_left-twice (reverse t),
        )
        refl
]

lower_byte-is_space : (c : ℕ) → is_space (lower_byte c) ≡ is_space c
unfolding is_space lower_byte
lower_byte-is_space c = ground arith

trim_left-lower : (s : Text) → trim_left (to_lower s) ≡ to_lower (trim_left s)
unfolding trim_left to_lower
trim_left-lower [] = refl
trim_left-lower (c ∷ s) =
    let same = lower_byte-is_space c in
    elim (Bool-cases (is_space c)) [
      | inl e ↦ rw (same, e) (trim_left-lower s)
      | inr e ↦ rw (same, e) refl
    ]

lower-snoc : (s : Text) (c : ℕ) → to_lower (s ++ c ∷ []) ≡ to_lower s ++ lower_byte c ∷ []
unfolding to_lower
lower-snoc [] c = refl
lower-snoc (d ∷ s) c = ap (◌∷◌ (lower_byte d)) (lower-snoc s c)

to_lower-cons : (c : ℕ) (s : Text) → to_lower (c ∷ s) ≡ lower_byte c ∷ to_lower s
unfolding to_lower
to_lower-cons c s = refl

to_lower-nil : reverse (to_lower []) ≡ to_lower (reverse [])
unfolding to_lower
to_lower-nil = refl

reverse-lower : (s : Text) → reverse (to_lower s) ≡ to_lower (reverse s)
reverse-lower [] = to_lower-nil
reverse-lower (c ∷ s) =
    rw
      (
        to_lower-cons c s,
        reverse-cons (lower_byte c) (to_lower s),
        reverse-lower s,
        reverse-cons c s,
        lower-snoc (reverse s) c,
      )
      refl

pub trim_space-to_lower : (s : Text) → trim_space (to_lower s) ≡ to_lower (trim_space s)
unfolding trim_space
trim_space-to_lower s =
    rw
      (
        trim_left-lower s,
        reverse-lower (trim_left s),
        trim_left-lower (reverse (trim_left s)),
        reverse-lower (trim_left (reverse (trim_left s))),
      )
      refl
