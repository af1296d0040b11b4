-- ===== src/Pump/Answers.antt =====
-- Every answer carries what its waiter asked for, and no subscriber's buffer passes its capacity.
use mathlib.Core.Path.{subst}
use airgapp_rpi.Base.{
  ℕ, ◌≤◌, ◌≡◌, sym, ◌∙◌, ◌⊎◌, inl, inr, Bool, true, false, not, some, List, [], ◌∷◌, ◌++◌, map, ltb,
  ◌==◌, length, length-append, All, keep, Bool-cases, Option-cases, arith, tests,
}
use airgapp_rpi.Base.Text.{Text}
use airgapp_rpi.Pump.{
  Waiter, Pump, new_pump, take_match, route_by, offer, is_answered, deliver, routed, route_frame,
  register_waiter, unregister_waiter, subscribe, unsubscribe, read_one, receive, shutdown_pump, Op,
  frame_in, register, unregister, subscribe_op, unsubscribe_op, receive_op, shutdown, step, run,
  sub_capacity,
}
use airgapp_rpi.Pump.Routing.{Answers, is_match→Answers, IsFirst, route_by-first}
use airgapp_rpi.Pump.Count.{count-take_match}
use airgapp_rpi.Pump.Fates.{
  to_address, request_uuid, routed-injective, route_frame-routed, run-preserves, run-Inv, Inv-room,
}

-- After any operations, a frame that answers some waiter is sent to the first such waiter, and the
-- session changes in nothing else than that.
pub run-route_frame :
    (s t : Pump) (os : List Op) (frame : Text) (w : Waiter) (before after : List Waiter)
    → run new_pump os ≡ routed s
    → route_frame s frame ≡ routed t
    → IsFirst (to_address frame) (request_uuid frame) s.waiters w before after
    → t ≡ record s { waiters = before ++ after; answers = (w, frame) ∷ s.answers }
run-route_frame s t os frame w before after reached e first =
    sym (route_frame-routed s t frame e)
    ∙ route_by-first (to_address frame) (request_uuid frame) frame s w before after first
        (Inv-room s w before after (run-Inv s os reached) first.split)

abbrev pub IsSound : Waiter × Text → Type 0
IsSound (w, frame) = Answers (to_address frame) (request_uuid frame) w

abbrev pub IsBounded : ℕ × List Text → Type 0
IsBounded (id, queue) = length queue ≤ sub_capacity

pub record Delivers (s : Pump) : Type 0 where
  pub sound : All IsSound s.answers
  pub bounded : All IsBounded s.subs

All-offer :
    (frame : Text) (subs : List (ℕ × List Text))
    → All IsBounded subs
    → All IsBounded (map (offer frame) subs)
All-offer frame [] h = tt
All-offer frame ((id, queue) ∷ subs) (q, h) =
    (offered (Bool-cases (ltb (length queue) sub_capacity)), All-offer frame subs h)
  where
    offered :
        (ltb (length queue) sub_capacity ≡ true) ⊎ (ltb (length queue) sub_capacity ≡ false)
        → IsBounded (offer frame (id, queue))
    offered (inl free) = rw free (omega (tests, length-append queue (frame ∷ [])))
    offered (inr full) = rw full q

All-read_one :
    (id : ℕ) (subs : List (ℕ × List Text))
    → All IsBounded subs
    → All IsBounded (map (read_one id) subs)
All-read_one id [] h = tt
All-read_one id ((j, []) ∷ subs) (q, h) = (q, All-read_one id subs h)
All-read_one id ((j, f ∷ queue) ∷ subs) (q, h) = ground (arith, All-read_one id subs h)

All-keep :
    (p : ℕ × List Text → Bool) (subs : List (ℕ × List Text))
    → All IsBounded subs
    → All IsBounded (keep p subs)
All-keep p [] h = tt
All-keep p (c ∷ subs) (q, h) = elim (Bool-cases (p c)) [
  | inl kept ↦ rw (kept, keep) (q, All-keep p subs h)
  | inr gone ↦ rw (gone, keep) (All-keep p subs h)
]

All-snoc :
    (c : ℕ × List Text) (subs : List (ℕ × List Text))
    → All IsBounded subs
    → IsBounded c
    → All IsBounded (subs ++ c ∷ [])
All-snoc c [] h k = (k, tt)
All-snoc c (d ∷ subs) (q, h) k = (q, All-snoc c subs h k)

route_by-Delivers :
    (frame : Text) (s : Pump)
    → Delivers s
    → Delivers (route_by (to_address frame) (request_uuid frame) frame s)
unfolding route_by
route_by-Delivers frame s h =
    elim (Option-cases (take_match (to_address frame) (request_uuid frame) s.waiters)) [
      | inl q ↦ rw q (record { sound = h.sound; bounded = All-offer frame s.subs h.bounded })
      | inr ((w, rest), q) ↦ rw q (record {
        sound = sent w rest q (Bool-cases (is_answered w.id s.answers));
        bounded = h.bounded;
      })
    ]
  where
    sent :
        (w : Waiter) (rest : List Waiter)
        → take_match (to_address frame) (request_uuid frame) s.waiters ≡ some (w, rest)
        → (is_answered w.id s.answers ≡ true) ⊎ (is_answered w.id s.answers ≡ false)
        → All IsSound (deliver w frame s.answers)
    sent w rest q (inl old) = rw old h.sound
    sent w rest q (inr new) = rw new (
      is_match→Answers (to_address frame) (request_uuid frame) w
          (count-take_match 0 (to_address frame) (request_uuid frame) s.waiters w rest q).1,
      h.sound,
    )

step-Delivers : (s t : Pump) (o : Op) → step s o ≡ routed t → Delivers s → Delivers t
unfolding step register_waiter unregister_waiter subscribe unsubscribe receive shutdown_pump
step-Delivers s t (frame_in frame) e h =
    rw (← route_frame-routed s t frame e) (route_by-Delivers frame s h)
step-Delivers s t (register a u) e h = ground arith
step-Delivers s t (unregister id) e h = ground arith
step-Delivers s t subscribe_op e h =
    ground (arith, All-snoc (s.sub_seq, []) s.subs h.bounded (omega arith))
step-Delivers s t (unsubscribe_op id) e h =
    ground (arith, All-keep (λ c. not (c.0 == id)) s.subs h.bounded)
step-Delivers s t (receive_op id) e h =
    subst Delivers (routed-injective e)
      (record { sound = h.sound; bounded = All-read_one id s.subs h.bounded })
step-Delivers s t shutdown e h =
    subst Delivers (routed-injective e) (record { sound = h.sound; bounded = tt })

-- After any operations in any order, as long as no frame stops the pump, every frame that was sent
-- to a waiter carries the waiter's routing address or its uuid, or the waiter gave neither; and no
-- subscriber's buffer holds more than eight frames.
pub run-Delivers : (s : Pump) (os : List Op) → run new_pump os ≡ routed s → Delivers s
unfolding new_pump
run-Delivers s os e =
    run-preserves Delivers step-Delivers new_pump s os e (record { sound = tt; bounded = tt })
