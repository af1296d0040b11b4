-- ===== src/Base/Lines.antt =====
-- Text in lines: Go's `strings.Contains`, `strings.Split`, `strings.Join` and `%d`, and when a text
-- stands on one line.
use Prim.Native.Nat.{ℕ, zero, suc, ◌+◌, ◌/◌, ◌%◌}
use mathlib.Core.Path.{◌≡◌, refl, ap, ◌∙◌}
use mathlib.Core.Bool.{Bool, true, false, not, ◌&&◌, ◌||◌}
use mathlib.Core.Logic.{inl, inr}
use mathlib.Core.List.{List, [], ◌∷◌, ◌++◌}
use native.Mathlib.Omega.{arith}
use airgapp_rpi.Base.Tests.{ltb, ◌==◌, if◌then◌else◌, Bool-cases}
use airgapp_rpi.Base.Lists.{all, any}
use airgapp_rpi.Base.Text.{Text, has_prefix, to_lower, lower_byte, is_space}

unfoldable pub contains : Text → Text → Bool
contains [] p = has_prefix [] p
contains (x ∷ s) p = has_prefix (x ∷ s) p || contains s p

-- `strings.Split` at a separator of one byte.
abbrev pub onto_first : ℕ → List Text → List Text
onto_first x [] = (x ∷ []) ∷ []
onto_first x (l ∷ ls) = (x ∷ l) ∷ ls

unfoldable pub split_on : ℕ → Text → List Text
split_on c [] = [] ∷ []
split_on c (x ∷ s) = let rest = split_on c s in if x == c then [] ∷ rest else onto_first x rest

unfoldable pub join : Text → List Text → Text
join sep [] = []
join sep (l ∷ []) = l
join sep (l ∷ k ∷ ls) = l ++ sep ++ join sep (k ∷ ls)

-- The lines, each ended by a newline.
unfoldable pub unlines : List Text → Text
unlines [] = []
unlines (l ∷ ls) = l ++ b'\n' ∷ unlines ls

-- `%d` of a number below `10 ^ fuel`.
unfoldable pub digits : ℕ → ℕ → Text
digits zero n = []
digits (suc fuel) n =
    let high = digits fuel (n / 10) in
    if ltb n 10 then (b'0' + n) ∷ [] else high ++ (b'0' + n % 10) ∷ []

-- Twenty digits are enough for 64 bits.
unfoldable pub decimal : ℕ → Text
decimal n = digits 20 n

unfoldable pub one_line : Text → Bool
one_line s = all (λ c. not (c == b'\n')) s

module _ {ℓ} {A : Type ℓ} (p : A → Bool) where
  pub all-append : (xs ys : List A) → all p xs ≡ true → all p ys ≡ true → all p (xs ++ ys) ≡ true
  all-append [] ys hx hy = hy
  all-append (x ∷ xs) ys hx hy = ground (arith, all-append xs ys)

  pub all_of-append : (xs ys : List A) → all p (xs ++ ys) ≡ (all p xs && all p ys)
  all_of-append [] ys = refl
  all_of-append (x ∷ xs) ys = ground (arith, all_of-append xs ys)

pub has_prefix-append : (p s : Text) → has_prefix (p ++ s) p ≡ true
unfolding has_prefix
has_prefix-append [] s = refl
has_prefix-append (x ∷ p) s = ground (arith, has_prefix-append p s)

has_prefix-append_more : (s p t : Text) → has_prefix s p ≡ true → has_prefix (s ++ t) p ≡ true
unfolding has_prefix
has_prefix-append_more s [] t h = refl
has_prefix-append_more [] (x ∷ p) t h = cc
has_prefix-append_more (y ∷ s) (x ∷ p) t h = ground (arith, has_prefix-append_more s p t)

contains_prefix : (s p : Text) → has_prefix s p ≡ true → contains s p ≡ true
unfolding contains
contains_prefix [] p h = h
contains_prefix (x ∷ s) p h = ground arith

pub contains-append_right : (s t p : Text) → contains t p ≡ true → contains (s ++ t) p ≡ true
unfolding contains
contains-append_right [] t p h = h
contains-append_right (x ∷ s) t p h = ground (arith, contains-append_right s t p)

pub contains-append_left : (s t p : Text) → contains s p ≡ true → contains (s ++ t) p ≡ true
unfolding contains
contains-append_left [] t p h = contains_prefix t p (has_prefix-append_more [] p t h)
contains-append_left (x ∷ s) t p h = elim (Bool-cases (has_prefix (x ∷ s) p)) [
  | inl e ↦ contains_prefix (x ∷ s ++ t) p (has_prefix-append_more (x ∷ s) p t e)
  | inr n ↦
      let rest : contains (s ++ t) p ≡ true = contains-append_left s t p (ground arith) in
      ground arith
]

has_prefix_refl : (p : Text) → has_prefix p p ≡ true
unfolding has_prefix
has_prefix_refl [] = refl
has_prefix_refl (x ∷ p) = ground (arith, has_prefix_refl p)

pub contains_self : (p : Text) → contains p p ≡ true
unfolding has_prefix
contains_self p = contains_prefix p p (has_prefix_refl p)

pub to_lower-append : (s t : Text) → to_lower (s ++ t) ≡ to_lower s ++ to_lower t
unfolding to_lower
to_lower-append [] t = refl
to_lower-append (x ∷ s) t = ap (◌∷◌ (lower_byte x)) (to_lower-append s t)

pub one_line-append :
    (s t : Text) → one_line s ≡ true → one_line t ≡ true → one_line (s ++ t) ≡ true
unfolding one_line
one_line-append s t hs ht = all-append (λ c. not (c == b'\n')) s t hs ht

digits-one_line : (fuel n : ℕ) → one_line (digits fuel n) ≡ true
unfolding one_line digits
digits-one_line zero n = refl
digits-one_line (suc fuel) n = elim (Bool-cases (ltb n 10)) [
  | inl e ↦ rw e (ground arith)
  | inr e ↦ rw e (
      one_line-append (digits fuel (n / 10)) ((b'0' + n % 10) ∷ []) (digits-one_line fuel (n / 10))
        (ground arith))
]

pub decimal-one_line : (n : ℕ) → one_line (decimal n) ≡ true
unfolding decimal
decimal-one_line n = digits-one_line 20 n

-- Splitting the lines of a text that was put together from lines gives them back.
split_on-line :
    (l t : Text) → one_line l ≡ true → split_on b'\n' (l ++ b'\n' ∷ t) ≡ l ∷ split_on b'\n' t
unfolding one_line split_on
split_on-line [] t h = refl
split_on-line (x ∷ l) t h = rw (split_on-line l t (ground arith)) (ground arith)

pub split_on-unlines :
    (ls : List Text) → all one_line ls ≡ true → split_on b'\n' (unlines ls) ≡ ls ++ [] ∷ []
unfolding unlines split_on
split_on-unlines [] h = refl
split_on-unlines (l ∷ ls) h =
    rw (split_on-line l (unlines ls) (ground arith), split_on-unlines ls (ground arith)) refl

-- `contains` under `to_lower`, part by part.
pub lower-left :
    (s t p : Text) → contains (to_lower s) p ≡ true → contains (to_lower (s ++ t)) p ≡ true
lower-left s t p h = rw (to_lower-append s t) (contains-append_left (to_lower s) (to_lower t) p h)

pub lower-right :
    (s t p : Text) → contains (to_lower t) p ≡ true → contains (to_lower (s ++ t)) p ≡ true
lower-right s t p h = rw (to_lower-append s t) (contains-append_right (to_lower s) (to_lower t) p h)

pub lower-join :
    (sep : Text) (ls : List Text) (p : Text)
    → any (λ l. contains (to_lower l) p) ls ≡ true
    → contains (to_lower (join sep ls)) p ≡ true
unfolding join
lower-join sep [] p h = absurd cc
lower-join sep (l ∷ []) p h = ground arith
lower-join sep (l ∷ k ∷ ls) p h = elim (Bool-cases (contains (to_lower l) p)) [
  | inl e ↦ lower-left (l ++ sep) (join sep (k ∷ ls)) p (lower-left l sep p e)
  | inr e ↦ lower-right (l ++ sep) (join sep (k ∷ ls)) p (lower-join sep (k ∷ ls) p (ground arith))
]

-- Joined by a separator on one line, the parts decide.
pub one_line_of-join :
    (sep : Text) (ls : List Text) → one_line sep ≡ true → one_line (join sep ls) ≡ all one_line ls
unfolding join one_line
one_line_of-join sep [] s = refl
one_line_of-join sep (l ∷ []) s = ground arith
one_line_of-join sep (l ∷ k ∷ ls) s =
    rw
      (
        all_of-append (λ c. not (c == b'\n')) (l ++ sep) (join sep (k ∷ ls)),
        all_of-append (λ c. not (c == b'\n')) l sep,
      )
      (ground (arith, one_line_of-join sep (k ∷ ls) s))

pub one_line-join :
    (sep : Text) (ls : List Text)
    → one_line sep ≡ true
    → all one_line ls ≡ true
    → one_line (join sep ls) ≡ true
one_line-join sep ls s h = one_line_of-join sep ls s ∙ h

digits-lower : (fuel n : ℕ) → to_lower (digits fuel n) ≡ digits fuel n
unfolding to_lower lower_byte digits
digits-lower zero n = refl
digits-lower (suc fuel) n = elim (Bool-cases (ltb n 10)) [
  | inl e ↦ rw e (ground arith)
  | inr e ↦ rw (e, to_lower-append, digits-lower fuel (n / 10)) (ground arith)
]

pub decimal-lower : (n : ℕ) → to_lower (decimal n) ≡ decimal n
unfolding decimal
decimal-lower n = digits-lower 20 n

module _ {ℓ} {A : Type ℓ} (p : A → Bool) where
  pub any-append-left : (xs ys : List A) → any p xs ≡ true → any p (xs ++ ys) ≡ true
  any-append-left [] ys h = absurd cc
  any-append-left (x ∷ xs) ys h = ground (arith, any-append-left xs ys)

  pub any-append-right : (xs ys : List A) → any p ys ≡ true → any p (xs ++ ys) ≡ true
  any-append-right [] ys h = h
  any-append-right (x ∷ xs) ys h = ground (arith, any-append-right xs ys)

-- The separator cuts a text in two that are split apart.
split_on-shape : (c : ℕ) (s : Text) → (l : Text) × (ls : List Text) × (split_on c s ≡ l ∷ ls)
unfolding split_on
split_on-shape c [] = ([], [], refl)
split_on-shape c (x ∷ s) =
    let (l, ls, e) = split_on-shape c s in
    elim (Bool-cases (x == c)) [
      | inl q ↦ ([], split_on c s, rw q refl)
      | inr q ↦ (x ∷ l, ls, rw (q, e) refl)
    ]

onto_first-append :
    (x : ℕ) (l : Text) (ls ms : List Text)
    → onto_first x ((l ∷ ls) ++ ms) ≡ onto_first x (l ∷ ls) ++ ms
onto_first-append x l ls ms = refl

pub split_on-cut : (c : ℕ) (s t : Text) → split_on c (s ++ c ∷ t) ≡ split_on c s ++ split_on c t
unfolding split_on
split_on-cut c [] t = ground arith
split_on-cut c (x ∷ s) t =
    let (l, ls, e) = split_on-shape c s in
    elim (Bool-cases (x == c)) [
      | inl q ↦ rw (q, split_on-cut c s t) refl
      | inr q ↦ rw (q, split_on-cut c s t, e) refl
    ]

-- A line among others is one of the parts when the text is split again.
pub any-split_on-unlines :
    (p : Text → Bool) (ls : List Text)
    → any (λ l. one_line l && p l) ls ≡ true
    → any p (split_on b'\n' (unlines ls)) ≡ true
unfolding unlines
any-split_on-unlines p [] h = absurd cc
any-split_on-unlines p (l ∷ ls) h = elim (Bool-cases (one_line l && p l)) [
  | inl e ↦ rw (split_on-line l (unlines ls) (ground arith)) (ground arith)
  | inr e ↦ rw (split_on-cut b'\n' l (unlines ls)) (
      any-append-right p (split_on b'\n' l) (split_on b'\n' (unlines ls))
        (any-split_on-unlines p ls (ground arith)))
]

-- `strings.Fields`: the runs of bytes that are no blanks.
abbrev starts_word : Text → Bool
starts_word [] = false
starts_word (c ∷ s) = not (is_space c)

unfoldable pub fields : Text → List Text
unfolding is_space
fields [] = []
fields (c ∷ s) =
    let rest = fields s in
    if is_space c then rest else if starts_word s then onto_first c rest else (c ∷ []) ∷ rest
