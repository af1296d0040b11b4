-- ===== src/Pump/Routing.antt =====
-- Who gets a frame: the first waiter whose correlator it carries, or else every subscriber.
use airgapp_rpi.Base.{
  ◌≡◌, ◌≢◌, refl, ◌⊎◌, true, false, none, some, List, [], ◌∷◌, ◌++◌, map, length, All, arith, ◌↔◌,
}
use airgapp_rpi.Base.Text.{Text}
use airgapp_rpi.Pump.{
  Waiter, Pump, same_bytes, bytes_equal, is_match, take_match, route_by, offer, is_answered,
}

same_bytes-eq : (a b : Text) → length a ≡ length b → same_bytes a b ≡ true → a ≡ b
same_bytes-eq [] [] h e = refl
same_bytes-eq [] (y ∷ b) h e = absurd (omega arith)
same_bytes-eq (x ∷ a) [] h e = absurd (omega arith)
same_bytes-eq (x ∷ a) (y ∷ b) h e = ground (arith, same_bytes-eq a b (omega arith))

same_bytes_refl : (a : Text) → same_bytes a a ≡ true
same_bytes_refl [] = refl
same_bytes_refl (x ∷ a) = ground (arith, same_bytes_refl a)

-- `bytesEqual` decides equality.
pub bytes_equal_iff : (a b : Text) → (bytes_equal a b ≡ true) ↔ (a ≡ b)
unfolding bytes_equal
bytes_equal_iff a b =
    (λ h. ground (arith, same_bytes-eq a b), λ e. rw e (ground (arith, same_bytes_refl b)))

-- A frame with these two correlators answers the waiter: it carries the waiter's routing address,
-- or its uuid, or the waiter asked for nothing in particular.
abbrev pub Answers : Text → Text → Waiter → Type 0
Answers got_addr got_uuid w =
    ((w.want_addr ≢ []) × (got_addr ≡ w.want_addr))
    ⊎ ((w.want_uuid ≢ []) × (got_uuid ≡ w.want_uuid))
    ⊎ ((w.want_addr ≡ []) × (w.want_uuid ≡ []))

pub is_match→Answers : (a u : Text) (w : Waiter) → is_match a u w ≡ true → Answers a u w
unfolding is_match
is_match→Answers a u w h =
    ground (arith, bytes_equal_iff a w.want_addr, bytes_equal_iff u w.want_uuid)

pub Answers→is_match : (a u : Text) (w : Waiter) → Answers a u w → is_match a u w ≡ true
unfolding is_match
Answers→is_match a u w h =
    ground (arith, bytes_equal_iff a w.want_addr, bytes_equal_iff u w.want_uuid)

-- `w` is the first of the waiters that the frame answers.
pub record IsFirst (a u : Text) (ws : List Waiter) (w : Waiter) (before after : List Waiter)
    : Type 0 where
  pub split : ws ≡ before ++ w ∷ after
  pub passed : All (λ v. is_match a u v ≡ false) before
  pub hit : is_match a u w ≡ true

take_match-IsFirst :
    (a u : Text) (before after : List Waiter) (w : Waiter)
    → All (λ v. is_match a u v ≡ false) before
    → is_match a u w ≡ true
    → take_match a u (before ++ w ∷ after) ≡ some (w, before ++ after)
unfolding take_match
take_match-IsFirst a u [] after w p h = ground arith
take_match-IsFirst a u (v ∷ before) after w (q, p) h =
    ground (arith, take_match-IsFirst a u before after w p h)

take_match-none :
    (a u : Text) (ws : List Waiter)
    → All (λ v. is_match a u v ≡ false) ws
    → take_match a u ws ≡ none
unfolding take_match
take_match-none a u [] p = refl
take_match-none a u (v ∷ ws) (q, p) = ground (arith, take_match-none a u ws p)

-- A frame that answers some waiter goes to the first such waiter and to nobody else: that waiter,
-- not answered before, leaves the list, the others keep their order, and the subscribers see nothing.
pub route_by-first :
    (a u frame : Text) (s : Pump) (w : Waiter) (before after : List Waiter)
    → IsFirst a u s.waiters w before after
    → is_answered w.id s.answers ≡ false
    → route_by a u frame s
      ≡ record s { waiters = before ++ after; answers = (w, frame) ∷ s.answers }
unfolding route_by
route_by-first a u frame s w before after first new =
    rw (first.split, take_match-IsFirst a u before after w first.passed first.hit, new) refl

-- A frame that answers no waiter is offered to every subscriber, and the waiters stay as they are.
route_by-fans_out :
    (a u frame : Text) (s : Pump)
    → All (λ v. is_match a u v ≡ false) s.waiters
    → route_by a u frame s ≡ record s { subs = map (offer frame) s.subs }
unfolding route_by
route_by-fans_out a u frame s none_match = rw (take_match-none a u s.waiters none_match) refl
