-- ===== src/Base/Text.antt =====
-- Text as the list of its bytes: Go's string comparison, prefix and suffix tests, and the ASCII
-- part of `strings.ToLower` and `strings.TrimSpace`. Bytes above 127 are left as they are.
use Prim.Native.Char.{code}
use Prim.Native.String.{String}
use Prim.Native.Nat.{ℕ, ◌+◌, ◌-◌}
use mathlib.Core.Path.{◌≡◌, refl, ap}
use mathlib.Core.Bool.{Bool, true, false, ◌&&◌, ◌||◌}
use mathlib.Core.Logic.{◌↔◌, inl, inr}
use mathlib.Core.List.{List, [], ◌∷◌, ◌++◌, map, reverse}
use native.Mathlib.Omega.{arith}
use airgapp_rpi.Base.Tests.{leb, ◌==◌, if◌then◌else◌, Bool-cases}

-- A Go string or byte slice.
abbrev pub Text : Type 0
Text = List ℕ

-- The bytes of an ASCII literal.
abbrev pub codes : String → Text
codes String.[] = []
codes (String.◌∷◌ c s) = code c ∷ codes s

unfoldable pub str_eq : Text → Text → Bool
str_eq [] [] = true
str_eq [] (y ∷ ys) = false
str_eq (x ∷ xs) [] = false
str_eq (x ∷ xs) (y ∷ ys) = (x == y) && str_eq xs ys

pub str_eq-eq : (xs ys : Text) → str_eq xs ys ≡ true → xs ≡ ys
unfolding str_eq
str_eq-eq [] [] h = refl
str_eq-eq [] (y ∷ ys) h = cc
str_eq-eq (x ∷ xs) [] h = cc
str_eq-eq (x ∷ xs) (y ∷ ys) h = ground (arith, str_eq-eq xs ys)

pub str_eq_refl : (xs : Text) → str_eq xs xs ≡ true
unfolding str_eq
str_eq_refl [] = refl
str_eq_refl (x ∷ xs) = ground (arith, str_eq_refl xs)

pub str_eq_iff : (xs ys : Text) → (str_eq xs ys ≡ true) ↔ (xs ≡ ys)
str_eq_iff xs ys = (str_eq-eq xs ys, λ e. subst_refl e)
  where
    subst_refl : xs ≡ ys → str_eq xs ys ≡ true
    subst_refl e = rw e (str_eq_refl ys)

-- `strings.HasPrefix` with the text first, as in Go.
unfoldable pub has_prefix : Text → Text → Bool
has_prefix s [] = true
has_prefix [] (p ∷ ps) = false
has_prefix (x ∷ s) (p ∷ ps) = (x == p) && has_prefix s ps

-- `strings.HasSuffix`: some tail of the text is the suffix.
unfoldable pub has_suffix : Text → Text → Bool
has_suffix [] q = str_eq [] q
has_suffix (x ∷ s) q = str_eq (x ∷ s) q || has_suffix s q

pub has_suffix-append : (s q : Text) → has_suffix (s ++ q) q ≡ true
unfolding has_suffix
has_suffix-append [] [] = str_eq_refl []
has_suffix-append [] (y ∷ q) = ground (arith, str_eq_refl (y ∷ q))
has_suffix-append (x ∷ s) q = ground (arith, has_suffix-append s q)

pub has_suffix-eq : (s q : Text) → has_suffix s q ≡ true → (p : Text) × (s ≡ p ++ q)
unfolding has_suffix
has_suffix-eq [] q h = ([], str_eq-eq [] q h)
has_suffix-eq (x ∷ s) q h = elim (Bool-cases (str_eq (x ∷ s) q)) [
  | inl e ↦ ([], str_eq-eq (x ∷ s) q e)
  | inr n ↦ let (p, e) = has_suffix-eq s q (ground arith) in (x ∷ p, ap (◌∷◌ x) e)
]

abbrev is_upper : ℕ → Bool
is_upper c = leb b'A' c && leb c b'Z'

unfoldable pub lower_byte : ℕ → ℕ
lower_byte c = if is_upper c then c + 32 else c

unfoldable pub upper_byte : ℕ → ℕ
upper_byte c = if leb b'a' c && leb c b'z' then c - 32 else c

unfoldable pub to_lower : Text → Text
unfolding lower_byte
to_lower s = map lower_byte s

unfoldable pub to_upper : Text → Text
unfolding upper_byte
to_upper s = map upper_byte s

-- The ASCII characters for which `unicode.IsSpace` holds: tab to carriage return, and the blank.
unfoldable pub is_space : ℕ → Bool
is_space c = (leb 9 c && leb c 13) || (c == 32)

unfoldable pub trim_left : Text → Text
unfolding is_space
trim_left [] = []
trim_left (c ∷ s) = let rest = trim_left s in if is_space c then rest else c ∷ s

unfoldable pub trim_space : Text → Text
unfolding trim_left
trim_space s = reverse (trim_left (reverse (trim_left s)))
