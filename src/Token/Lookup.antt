-- ===== src/Token/Lookup.antt =====
-- Rows that are selected, updated and deleted by a condition, for the queries of
-- internal/services/tesla_token.go.
use airgapp_rpi.Base.{
  ◌≡◌, refl, subst, Bool, true, false, some, List, [], ◌∷◌, any, keep, All, arith, Bool-cases, inl,
  inr, if◌then◌else◌,
}
use airgapp_rpi.Token.{Row, select, update_where}

pub select-finds :
    (p : Row → Bool) (rows : List Row) → any p rows ≡ true → (r : Row) × (select p rows ≡ some r)
select-finds p [] h = cc
select-finds p (r ∷ rows) h = elim (Bool-cases (p r)) [
  | inl q ↦ (r, rw (q, select) refl)
  | inr q ↦ let (s, e) = select-finds p rows (ground arith) in (s, rw (q, select) e)
]

pub select-holds :
    (p : Row → Bool) (rows : List Row) (r : Row) → select p rows ≡ some r → p r ≡ true
select-holds p [] r e = cc
select-holds p (q ∷ rows) r e = ground (arith, select-holds p rows r)

pub select-any :
    (p : Row → Bool) (rows : List Row) (r : Row) → select p rows ≡ some r → any p rows ≡ true
select-any p [] r e = cc
select-any p (q ∷ rows) r e = ground (arith, select-any p rows r)

pub select-All {ℓ} :
    (P : Row → Type ℓ) (p : Row → Bool) (rows : List Row) (r : Row)
    → All P rows
    → select p rows ≡ some r
    → P r
select-All P p [] r h e = absurd cc
select-All P p (q ∷ rows) r (k, h) e = elim (Bool-cases (p q)) [
  | inl t ↦ subst P (some-eq (rw t at e)) k
  | inr f ↦ select-All P p rows r h (rw f at e)
]
  where
    some-eq : some q ≡ some r → q ≡ r
    some-eq x = cc

-- A condition that the update keeps holds of some row after it, and after a deletion that spares
-- the rows of the condition.
pub any-update :
    (p : Row → Bool) (w : Row → Bool) (f : Row → Row) (rows : List Row)
    → ((r : Row) → p r ≡ true → w r ≡ true → p (f r) ≡ true)
    → any p rows ≡ true
    → any p (update_where w f rows) ≡ true
any-update p w f [] k h = cc
any-update p w f (r ∷ rows) k h = ground (arith, k r, any-update p w f rows k)

pub any-keep :
    (p : Row → Bool) (w : Row → Bool) (rows : List Row)
    → ((r : Row) → p r ≡ true → w r ≡ true)
    → any p rows ≡ true
    → any p (keep w rows) ≡ true
any-keep p w [] k h = cc
any-keep p w (r ∷ rows) k h = ground (arith, k r, any-keep p w rows k)

pub All-update {ℓ} :
    (P : Row → Type ℓ) (w : Row → Bool) (f : Row → Row) (rows : List Row)
    → ((r : Row) → P r → P (f r))
    → All P rows
    → All P (update_where w f rows)
All-update P w f [] k h = tt
All-update P w f (r ∷ rows) k (h, hs) = (by_test (w r), All-update P w f rows k hs)
  where
    by_test : (b : Bool) → P (if b then f r else r)
    by_test true = k r h
    by_test false = h

pub All-keep {ℓ} :
    (P : Row → Type ℓ) (w : Row → Bool) (rows : List Row) → All P rows → All P (keep w rows)
All-keep P w [] h = tt
All-keep P w (r ∷ rows) (h, hs) = elim (Bool-cases (w r)) [
  | inl q ↦ rw (q, All, keep) (h, All-keep P w rows hs)
  | inr q ↦ rw (q, All, keep) (All-keep P w rows hs)
]

-- What a deletion by its complement leaves.
pub keep-All {ℓ} :
    (P : Row → Type ℓ) (w : Row → Bool) (rows : List Row)
    → ((r : Row) → w r ≡ true → P r)
    → All P (keep w rows)
keep-All P w [] k = tt
keep-All P w (r ∷ rows) k = elim (Bool-cases (w r)) [
  | inl q ↦ rw (q, All, keep) (k r q, keep-All P w rows k)
  | inr q ↦ rw (q, All, keep) (keep-All P w rows k)
]
