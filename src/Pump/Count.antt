-- ===== src/Pump/Count.antt =====
-- How often an id stands among the waiters, the answers and the subscribers, before and after the
-- list operations of the pump.
use airgapp_rpi.Base.{
  ℕ, ◌+◌, ◌≤◌, ◌≡◌, refl, ap, inl, inr, true, not, some, List, [], ◌∷◌, ◌++◌, map, ◌==◌,
  if◌then◌else◌, keep, Option-cases, arith,
}
use airgapp_rpi.Base.Text.{Text}
use airgapp_rpi.Pump.{
  Waiter, is_match, take_match, offer, is_answered, remove_waiter, has_sub, read_one,
}

abbrev pub count : ℕ → List ℕ → ℕ
count n [] = 0
count n (x ∷ xs) = (if x == n then 1 else 0) + count n xs

abbrev pub waiter_ids : List Waiter → List ℕ
waiter_ids = map (λ w. w.id)

abbrev pub answer_ids : List (Waiter × Text) → List ℕ
answer_ids = map (λ c. c.0.id)

abbrev pub sub_ids : List (ℕ × List Text) → List ℕ
sub_ids = map (λ c. c.0)

pub count-append : (n : ℕ) (xs ys : List ℕ) → count n (xs ++ ys) ≡ count n xs + count n ys
count-append n [] ys = omega arith
count-append n (x ∷ xs) ys = omega (arith, count-append n xs ys)

pub count-waiters_append :
    (n : ℕ) (ws vs : List Waiter)
    → count n (waiter_ids (ws ++ vs)) ≡ count n (waiter_ids ws) + count n (waiter_ids vs)
count-waiters_append n [] vs = omega arith
count-waiters_append n (w ∷ ws) vs = omega (arith, count-waiters_append n ws vs)

pub count-subs_append :
    (n : ℕ) (xs ys : List (ℕ × List Text))
    → count n (sub_ids (xs ++ ys)) ≡ count n (sub_ids xs) + count n (sub_ids ys)
count-subs_append n [] ys = omega arith
count-subs_append n (x ∷ xs) ys = omega (arith, count-subs_append n xs ys)

pub count-take_match :
    (n : ℕ) (a u : Text) (ws : List Waiter) (w : Waiter) (rest : List Waiter)
    → take_match a u ws ≡ some (w, rest)
    → (count n (waiter_ids ws) ≡ count n (waiter_ids (w ∷ rest))) × (is_match a u w ≡ true)
unfolding take_match
count-take_match n a u [] w rest e = cc
count-take_match n a u (v ∷ ws) w rest e = elim (Option-cases (take_match a u ws)) [
  | inl q ↦ ground (arith, q)
  | inr ((m, r), q) ↦
      let (same, hit) = count-take_match n a u ws m r q in ground (arith, same, hit, q)
]

pub count-remove_waiter :
    (n id : ℕ) (ws : List Waiter)
    → count n (waiter_ids (remove_waiter id ws)) ≤ count n (waiter_ids ws)
count-remove_waiter n id [] = omega arith
count-remove_waiter n id (w ∷ ws) = ground (arith, count-remove_waiter n id ws)

pub count-keep :
    (n id : ℕ) (subs : List (ℕ × List Text))
    → count n (sub_ids (keep (λ c. not (c.0 == id)) subs))
        + (if id == n then count n (sub_ids subs) else 0)
      ≡ count n (sub_ids subs)
count-keep n id [] = ground arith
count-keep n id (c ∷ subs) = ground (arith, count-keep n id subs)

pub count-has_sub :
    (id : ℕ) (subs : List (ℕ × List Text)) → has_sub id subs ≡ true → 1 ≤ count id (sub_ids subs)
count-has_sub id [] h = cc
count-has_sub id (c ∷ subs) h = ground (arith, count-has_sub id subs)

pub sub_ids-offer :
    (frame : Text) (subs : List (ℕ × List Text)) → sub_ids (map (offer frame) subs) ≡ sub_ids subs
sub_ids-offer frame [] = refl
sub_ids-offer frame ((id, queue) ∷ subs) = ground (arith, sub_ids-offer frame subs)

pub sub_ids-read_one :
    (id : ℕ) (subs : List (ℕ × List Text)) → sub_ids (map (read_one id) subs) ≡ sub_ids subs
sub_ids-read_one id [] = refl
sub_ids-read_one id ((j, []) ∷ subs) = ap (◌∷◌ j) (sub_ids-read_one id subs)
sub_ids-read_one id ((j, f ∷ queue) ∷ subs) = ground (arith, sub_ids-read_one id subs)

pub count-answered :
    (id : ℕ) (sent : List (Waiter × Text))
    → is_answered id sent ≡ true
    → 1 ≤ count id (answer_ids sent)
count-answered id [] h = cc
count-answered id (c ∷ sent) h = ground (arith, count-answered id sent)
