-- ===== src/Floor/Suffix.antt =====
-- Two names that are both parents of a host are parents of one another: so below a domain that
-- passes the two guards of internal/services/protected.go, and is no exempt host, no host is denied.
use airgapp_rpi.Base.{
  ℕ, ◌≡◌, ◌≢◌, refl, sym, ap, ◌∙◌, true, false, List, [], ◌∷◌, ◌++◌, any, arith, Bool-cases, inl,
  inr, ◌⊎◌,
}
use airgapp_rpi.Base.Text.{
  Text, str_eq, str_eq-eq, str_eq_refl, has_suffix, has_suffix-append, has_suffix-eq,
}
use airgapp_rpi.Floor.{is_under, is_exempt, denied_by, ancestor_of}

tail-eq : (x y : ℕ) (xs ys : Text) → x ∷ xs ≡ y ∷ ys → (x ≡ y) × (xs ≡ ys)
tail-eq x y xs ys e = (cc, cc)

comparable :
    (x y a b : Text) → x ++ a ≡ y ++ b → ((z : Text) × (a ≡ z ++ b)) ⊎ ((z : Text) × (b ≡ z ++ a))
comparable [] y a b e = inl (y, e)
comparable (c ∷ x) [] a b e = inr (c ∷ x, sym e)
comparable (c ∷ x) (d ∷ y) a b e = comparable x y a b (tail-eq c d (x ++ a) (y ++ b) e).1

-- A parent, with the dot before it, is a suffix of the host with a dot before it.
under-dotted : (h d : Text) → is_under h d ≡ true → (x : Text) × (b'.' ∷ h ≡ x ++ b'.' ∷ d)
unfolding is_under
under-dotted h d u = elim (Bool-cases (str_eq h d)) [
  | inl e ↦ ([], ap (◌∷◌ b'.') (str_eq-eq h d e))
  | inr n ↦ let (x, e) = has_suffix-eq h (b'.' ∷ d) (ground arith) in (b'.' ∷ x, ap (◌∷◌ b'.') e)
]

dotted-under :
    (h d x : Text) → b'.' ∷ h ≡ x ++ b'.' ∷ d → (h ≡ d) ⊎ (has_suffix h (b'.' ∷ d) ≡ true)
dotted-under h d [] e = inl (tail-eq b'.' b'.' h d e).1
dotted-under h d (c ∷ x) e =
    inr (rw ((tail-eq b'.' c h (x ++ b'.' ∷ d) e).1) (has_suffix-append x (b'.' ∷ d)))

same-under : (d p : Text) → d ≡ p → is_under d p ≡ true
unfolding is_under
same-under d p e = rw e (ground (arith, str_eq_refl p))

suffix-under : (d p : Text) → has_suffix d (b'.' ∷ p) ≡ true → is_under d p ≡ true
unfolding is_under
suffix-under d p h = ground arith

-- Of two parents of one host, one is the other's parent.
parents :
    (h d p : Text)
    → is_under h d ≡ true
    → is_under h p ≡ true
    → (is_under d p ≡ true) ⊎ (has_suffix p (b'.' ∷ d) ≡ true)
parents h d p u v =
    let (x, e) = under-dotted h d u in
    let (y, f) = under-dotted h p v in
    elim (comparable x y (b'.' ∷ d) (b'.' ∷ p) (sym e ∙ f)) [
      | inl (z, q) ↦ elim (dotted-under d p z q) [
        | inl same ↦ inl (same-under d p same)
        | inr below ↦ inl (suffix-under d p below)
      ]
      | inr (z, q) ↦ elim (dotted-under p d z q) [
        | inl same ↦ inl (same-under d p (sym same))
        | inr above ↦ inr above
      ]
    ]

none-under :
    (deny : List Text) (h d : Text)
    → any (is_under d) deny ≡ false
    → any (λ p. has_suffix p (b'.' ∷ d)) deny ≡ false
    → is_under h d ≡ true
    → any (is_under h) deny ≡ false
none-under [] h d a b u = refl
none-under (p ∷ deny) h d a b u = elim (Bool-cases (is_under h p)) [
  | inl v ↦ absurd (ground (arith, parents h d p u v))
  | inr n ↦ ground (arith, none-under deny h d)
]

-- For any deny list: a name that is neither denied nor a parent of a denied name, and not one of
-- the exempt hosts, has no denied host below it.
pub guarded-admits :
    (deny : List Text) (h d : Text)
    → d ≢ []
    → is_exempt d ≡ false
    → denied_by deny d ≡ false
    → ancestor_of deny d ≡ false
    → is_under h d ≡ true
    → denied_by deny h ≡ false
unfolding denied_by ancestor_of
guarded-admits deny h [] n x a b u = absurd (n refl)
guarded-admits deny [] (c ∷ d) n x a b u = refl
guarded-admits deny (i ∷ h) (c ∷ d) n x a b u = ground (arith, none-under deny (i ∷ h) (c ∷ d))
