-- ===== src/Domains/Guarded.antt =====
-- What a stored domain of internal/services/filter.go is like.
use airgapp_rpi.Base.{
  ℕ, ◌≤◌, ◌≡◌, refl, subst, Bool, true, false, ◌||◌, [], ◌∷◌, length, All, arith, Bool-cases, inl,
  inr, ◌⊎◌, ◌==◌,
}
use airgapp_rpi.Base.Text.{Text, to_lower, lower_byte, is_space}
use airgapp_rpi.Base.Trim.{trim_space-solid}
use airgapp_rpi.Floor.{clean, is_exempt, is_protected_denied, is_protected_ancestor}
use airgapp_rpi.Domains.{
  is_alnum, LabelState, at_start, after_alnum, after_hyphen, matches_domain, valid_domain,
  trim_wildcard, normalize_domain, is_blank, stored, create_domain,
}
use airgapp_rpi.Sni.Decision.{IsGuarded}

-- A lower-case letter, a digit, a hyphen or a dot: no byte that ends a line or a directive of the
-- generated configuration.
abbrev pub is_plain : ℕ → Bool
is_plain c = is_alnum c || ((c == b'-') || (c == b'.'))

matches-plain :
    (st : LabelState) (s : Text) → matches_domain st s ≡ true → All (λ c. is_plain c ≡ true) s
unfolding matches_domain
matches-plain st [] h = tt
matches-plain at_start (c ∷ s) h = (ground arith, matches-plain after_alnum s (ground arith))
matches-plain after_alnum (c ∷ s) h = elim (Bool-cases (is_alnum c)) [
  | inl q ↦ (ground arith, matches-plain after_alnum s (ground arith))
  | inr q ↦ elim (Bool-cases (c == b'-')) [
    | inl r ↦ (ground arith, matches-plain after_hyphen s (ground arith))
    | inr r ↦ (ground arith, matches-plain at_start s (ground arith))
  ]
]
matches-plain after_hyphen (c ∷ s) h = elim (Bool-cases (is_alnum c)) [
  | inl q ↦ (ground arith, matches-plain after_alnum s (ground arith))
  | inr q ↦ (ground arith, matches-plain after_hyphen s (ground arith))
]

valid_domain-plain :
    (s : Text) → valid_domain s ≡ true → All (λ c. is_plain c ≡ true) s × (length s ≤ 253)
unfolding valid_domain
valid_domain-plain s h = (matches-plain at_start s (ground arith), ground arith)

-- Whatever is typed in: the name that `NormalizeDomain` returns, possibly the empty one, has at most
-- 253 bytes, and each is a lower-case letter, a digit, a hyphen or a dot.
normalize_domain-plain :
    (d : Text)
    → All (λ c. is_plain c ≡ true) (normalize_domain d) × (length (normalize_domain d) ≤ 253)
unfolding normalize_domain
normalize_domain-plain d = elim (Bool-cases (valid_domain (trim_wildcard (clean d)))) [
  | inl q ↦ rw (q, normalize_domain) (valid_domain-plain (trim_wildcard (clean d)) q)
  | inr q ↦ rw (q, normalize_domain) (tt, omega arith)
]

plain_byte : (c : ℕ) → is_plain c ≡ true → (lower_byte c ≡ c) × (is_space c ≡ false)
unfolding lower_byte is_space
plain_byte c h = ground arith

lower-plain : (s : Text) → All (λ c. is_plain c ≡ true) s → to_lower s ≡ s
unfolding to_lower
lower-plain [] h = refl
lower-plain (c ∷ s) (p, h) = ground (arith, plain_byte c, lower-plain s h)

All-solid : (s : Text) → All (λ c. is_plain c ≡ true) s → All (λ c. is_space c ≡ false) s
All-solid [] h = tt
All-solid (c ∷ s) (p, h) = ((plain_byte c p).1, All-solid s h)

pub clean-plain : (s : Text) → All (λ c. is_plain c ≡ true) s → clean s ≡ s
unfolding clean
clean-plain s h = rw (trim_space-solid s (All-solid s h)) (lower-plain s h)

-- The guards of `create_domain`, in the order of the code.
create_domain-guards :
    (raw description name reason : Text)
    → create_domain raw description ≡ stored name reason
    → (normalize_domain raw ≡ name)
      × (is_blank reason ≡ false)
      × (is_protected_denied name ≡ false)
      × (is_protected_ancestor name ≡ false)
unfolding create_domain
create_domain-guards raw description name reason h =
    (ground arith, ground arith, ground arith, ground arith)

-- Whatever an operator types in: a domain that `CreateDomain` stores has a description, consists of
-- plain bytes, and is one of the exempt hosts or has no protected host at or below it, as
-- `IsGuarded` asks of the domains of an allow list.
pub create_domain-IsGuarded :
    (raw description name reason : Text)
    → create_domain raw description ≡ stored name reason
    → (is_blank reason ≡ false)
      × All (λ c. is_plain c ≡ true) name
      × ((is_exempt name ≡ true) ⊎ IsGuarded name)
unfolding is_protected_denied is_protected_ancestor
create_domain-IsGuarded raw description name reason h =
    let (same, reasoned, clear, narrow) = create_domain-guards raw description name reason h in
    let plain : All (λ c. is_plain c ≡ true) name =
      subst (All (λ c. is_plain c ≡ true)) same (normalize_domain-plain raw).0 in
    let cleaned = clean-plain name plain in
    (
      reasoned,
      plain,
      elim (Bool-cases (is_exempt name)) [
        | inl q ↦ inl q
        | inr q ↦ inr (record {
          is_exempt = q;
          not_denied = rw cleaned at clear;
          not_ancestor = rw cleaned at narrow;
        })
      ],
    )
