-- ===== src/Pump/Fates.antt =====
-- What holds of a session after any operations in any order: every waiter meets one fate at most,
-- no channel is closed twice, a waiter's answer carries its correlator, and buffers are bounded.
use airgapp_rpi.Base.{
  ℕ, ◌+◌, ◌≤◌, ◌≡◌, refl, ap, inl, inr, true, false, List, [], ◌∷◌, ◌++◌, Option-cases, arith,
}
use mathlib.Core.Path.{subst}
use airgapp_rpi.Base.Text.{Text}
use airgapp_rpi.Wire.{
  Scan, missing, found, panics, stuck, extract_routable_to_routing_address,
  extract_routable_request_uuid,
}
use airgapp_rpi.Pump.{
  Waiter, Pump, new_pump, take_match, route_by, is_answered, Routed, routed, crashed, hung,
  with_bytes, then_run, route_frame, register_waiter, unregister_waiter, subscribe, unsubscribe,
  receive, shutdown_pump, Op, frame_in, register, unregister, subscribe_op, unsubscribe_op,
  receive_op, shutdown, after_register, step, run,
}
use airgapp_rpi.Pump.Count.{
  count, waiter_ids, answer_ids, sub_ids, count-append, count-waiters_append, count-subs_append,
  count-take_match, count-remove_waiter, count-keep, count-has_sub, sub_ids-offer, sub_ids-read_one,
  count-answered,
}

-- How many fates the waiter `n` has: waiting, answered, or its channel closed.
abbrev pub fates : ℕ → Pump → ℕ
fates n s = count n (waiter_ids s.waiters) + count n (answer_ids s.answers) + count n s.ended

abbrev pub sub_fates : ℕ → Pump → ℕ
sub_fates n s = count n (sub_ids s.subs) + count n s.ended_subs

pub record Inv (s : Pump) : Type 0 where
  pub once : (n : ℕ) → fates n s ≤ 1
  pub fresh : (n : ℕ) → s.next_waiter ≤ n → fates n s ≡ 0
  pub sub_once : (n : ℕ) → sub_fates n s ≤ 1
  pub sub_fresh : (n : ℕ) → s.sub_seq ≤ n → sub_fates n s ≡ 0
  pub no_waiters : s.closed ≡ true → s.waiters ≡ []
  pub no_subs : s.closed ≡ true → s.subs ≡ []

-- The bytes of an extraction that returns, and the two correlators of a frame.
abbrev pub bytes_of : Scan → Text
bytes_of (found t) = t
bytes_of _ = []

abbrev pub to_address : Text → Text
to_address frame = bytes_of (extract_routable_to_routing_address frame)

abbrev pub request_uuid : Text → Text
request_uuid frame = bytes_of (extract_routable_request_uuid frame)

pub routed-injective : {s t : Pump} → routed s ≡ routed t → s ≡ t
routed-injective e = cc

-- The invariant, operation by operation.
new_pump-Inv : Inv new_pump
unfolding new_pump
new_pump-Inv = record {
  once = λ n. omega arith;
  fresh = λ n h. omega arith;
  sub_once = λ n. omega arith;
  sub_fresh = λ n h. omega arith;
  no_waiters = λ e. refl;
  no_subs = λ e. refl;
}

route_by-Inv : (a u frame : Text) (s : Pump) → Inv s → Inv (route_by a u frame s)
unfolding route_by
route_by-Inv a u frame s h = elim (Option-cases (take_match a u s.waiters)) [
  | inl q ↦ rw q (record {
    once = h.once;
    fresh = h.fresh;
    sub_once = λ n. rw (sub_ids-offer frame s.subs) (h.sub_once n);
    sub_fresh = λ n k. rw (sub_ids-offer frame s.subs) (h.sub_fresh n k);
    no_waiters = h.no_waiters;
    no_subs = λ e. rw (h.no_subs e) refl;
  })
  | inr ((w, rest), q) ↦ rw q (record {
    once = λ n. ground (arith, h.once n, (count-take_match n a u s.waiters w rest q).0);
    fresh = λ n k. ground (arith, h.fresh n k, (count-take_match n a u s.waiters w rest q).0);
    sub_once = h.sub_once;
    sub_fresh = h.sub_fresh;
    no_waiters = λ e. absurd (cc (rw (h.no_waiters e) at q));
    no_subs = h.no_subs;
  })
]

register_waiter-Inv :
    (a u : Text) (s : Pump) → Inv s → Inv (after_register s (register_waiter s a u))
unfolding register_waiter
register_waiter-Inv a u s h = record {
  once =
      λ n. ground (arith, h.once n, h.fresh n, count-waiters_append n s.waiters (new_waiter ∷ []));
  fresh = λ n k. ground (arith, h.fresh n, count-waiters_append n s.waiters (new_waiter ∷ []));
  sub_once = λ n. ground (arith, h.sub_once n);
  sub_fresh = λ n k. ground (arith, h.sub_fresh n);
  no_waiters = λ e. ground (arith, h.no_waiters);
  no_subs = λ e. ground (arith, h.no_subs);
}
  where
    new_waiter : Waiter
    new_waiter = record { id = s.next_waiter; want_addr = a; want_uuid = u }

unregister_waiter-Inv : (id : ℕ) (s : Pump) → Inv s → Inv (unregister_waiter s id)
unfolding unregister_waiter
unregister_waiter-Inv id s h = record {
  once = λ n. omega (arith, h.once n, count-remove_waiter n id s.waiters);
  fresh = λ n k. omega (arith, h.fresh n k, count-remove_waiter n id s.waiters);
  sub_once = h.sub_once;
  sub_fresh = h.sub_fresh;
  no_waiters = λ e. rw (h.no_waiters e) refl;
  no_subs = h.no_subs;
}

subscribe-Inv : (s : Pump) → Inv s → Inv (subscribe s).1
unfolding subscribe
subscribe-Inv s h = record {
  once = λ n. ground (arith, h.once n);
  fresh = λ n k. ground (arith, h.fresh n);
  sub_once = λ n.
      ground
        (arith, h.sub_once n, h.sub_fresh n, count-subs_append n s.subs ((s.sub_seq, []) ∷ []));
  sub_fresh =
      λ n k. ground (arith, h.sub_fresh n, count-subs_append n s.subs ((s.sub_seq, []) ∷ []));
  no_waiters = λ e. ground (arith, h.no_waiters);
  no_subs = λ e. ground (arith, h.no_subs);
}

unsubscribe-Inv : (id : ℕ) (s : Pump) → Inv s → Inv (unsubscribe s id)
unfolding unsubscribe
unsubscribe-Inv id s h = record {
  once = λ n. ground (arith, h.once n);
  fresh = λ n k. ground (arith, h.fresh n);
  sub_once = λ n. ground (arith, h.sub_once n, count-keep n id s.subs, count-has_sub id s.subs);
  sub_fresh = λ n k. ground (arith, h.sub_fresh n, count-keep n id s.subs, count-has_sub id s.subs);
  no_waiters = λ e. ground (arith, h.no_waiters);
  no_subs = λ e. ground (arith, h.no_subs);
}

receive-Inv : (id : ℕ) (s : Pump) → Inv s → Inv (receive s id)
unfolding receive
receive-Inv id s h = record {
  once = h.once;
  fresh = h.fresh;
  sub_once = λ n. rw (sub_ids-read_one id s.subs) (h.sub_once n);
  sub_fresh = λ n k. rw (sub_ids-read_one id s.subs) (h.sub_fresh n k);
  no_waiters = h.no_waiters;
  no_subs = λ e. rw (h.no_subs e) refl;
}

shutdown_pump-Inv : (s : Pump) → Inv s → Inv (shutdown_pump s)
unfolding shutdown_pump
shutdown_pump-Inv s h = record {
  once = λ n. omega (arith, h.once n, count-append n (waiter_ids s.waiters) s.ended);
  fresh = λ n k. omega (arith, h.fresh n k, count-append n (waiter_ids s.waiters) s.ended);
  sub_once = λ n. omega (arith, h.sub_once n, count-append n (sub_ids s.subs) s.ended_subs);
  sub_fresh = λ n k. omega (arith, h.sub_fresh n k, count-append n (sub_ids s.subs) s.ended_subs);
  no_waiters = λ e. refl;
  no_subs = λ e. refl;
}

with_bytes-routed :
    (x : Scan) (k : Text → Routed) (s : Pump)
    → with_bytes x k ≡ routed s
    → k (bytes_of x) ≡ routed s
with_bytes-routed missing k s e = e
with_bytes-routed (found t) k s e = e
with_bytes-routed panics k s e = cc
with_bytes-routed stuck k s e = cc

-- A frame that is routed at all is routed by the two correlators that it carries.
pub route_frame-routed :
    (s t : Pump) (frame : Text)
    → route_frame s frame ≡ routed t
    → route_by (to_address frame) (request_uuid frame) frame s ≡ t
unfolding route_frame
route_frame-routed s t frame e = routed-injective (
    with_bytes-routed (extract_routable_request_uuid frame) _ t
      (with_bytes-routed (extract_routable_to_routing_address frame) _ t e))

step-Inv : (s t : Pump) (o : Op) → step s o ≡ routed t → Inv s → Inv t
unfolding step
step-Inv s t (frame_in frame) e h =
    rw (← route_frame-routed s t frame e)
      (route_by-Inv (to_address frame) (request_uuid frame) frame s h)
step-Inv s t (register a u) e h = subst Inv (routed-injective e) (register_waiter-Inv a u s h)
step-Inv s t (unregister id) e h = subst Inv (routed-injective e) (unregister_waiter-Inv id s h)
step-Inv s t subscribe_op e h = subst Inv (routed-injective e) (subscribe-Inv s h)
step-Inv s t (unsubscribe_op id) e h = subst Inv (routed-injective e) (unsubscribe-Inv id s h)
step-Inv s t (receive_op id) e h = subst Inv (routed-injective e) (receive-Inv id s h)
step-Inv s t shutdown e h = subst Inv (routed-injective e) (shutdown_pump-Inv s h)

then_run-routed :
    (r : Routed) (k : Pump → Routed) {t : Pump}
    → then_run r k ≡ routed t
    → (s : Pump) × (r ≡ routed s) × (k s ≡ routed t)
then_run-routed (routed s) k e = (s, refl, e)
then_run-routed crashed k e = cc
then_run-routed hung k e = cc

pub run-preserves :
    (P : Pump → Type 0)
    → ((s t : Pump) (o : Op) → step s o ≡ routed t → P s → P t)
    → (s t : Pump) (os : List Op) → run s os ≡ routed t
    → P s
    → P t
unfolding run
run-preserves P keeps s t [] e h = subst P (routed-injective e) h
run-preserves P keeps s t (o ∷ os) e h =
    let (s', now, later) = then_run-routed (step s o) (λ s'. run s' os) e in
    run-preserves P keeps s' t os later (keeps s s' o now h)

-- After any operations in any order, as long as no frame stops the pump: every waiter has at most
-- one fate, so it is answered once at most and its channel is closed once at most, and never both;
-- the same for the channels of the subscribers; ids are not used again; and a closed session has
-- neither waiters nor subscribers.
pub run-Inv : (s : Pump) (os : List Op) → run new_pump os ≡ routed s → Inv s
run-Inv s os e = run-preserves Inv step-Inv new_pump s os e new_pump-Inv

-- A waiter on the list has not been answered, so the send on its channel never finds it full.
pub Inv-room :
    (s : Pump) (w : Waiter) (before after : List Waiter)
    → Inv s
    → s.waiters ≡ before ++ w ∷ after
    → is_answered w.id s.answers ≡ false
Inv-room s w before after h e = ground (
  arith,
  h.once w.id,
  count-answered w.id s.answers,
  count-waiters_append w.id before (w ∷ after),
  ap (λ ws. count w.id (waiter_ids ws)) e,
)
