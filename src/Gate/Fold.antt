-- ===== src/Gate/Fold.antt =====
-- What the verdict of the gate means, and what a history of signals makes of it.
use airgapp_rpi.Base.{
  ℕ, ◌+◌, ◌≤◌, ◌≡◌, refl, ◌↔◌, Bool, true, false, not, ◌&&◌, Option, none, some, List, [], ◌∷◌,
  arith, ltb,
}
use airgapp_rpi.Gate.{
  LockSignal, signal_none, signal_status, signal_activity, GateState, empty_gate, apply,
  ap_should_be_up, activity_lease,
}

-- The access point goes down in exactly one situation: a status is known, it says locked and
-- nobody present, and no activity lease is running.
pub down_iff :
    (g : GateState) (now : ℕ)
    → (ap_should_be_up g now ≡ false) ↔ (
        (g.have_status ≡ true) × (g.locked ≡ true) × (g.present ≡ false) × (g.activity_until ≤ now))
unfolding ap_should_be_up
down_iff g now = (λ h. ground arith, λ h. ground arith)

-- A history of signals with the times at which they arrived, latest first.
abbrev pub History : Type 0
History = List (LockSignal × ℕ)

abbrev pub fold : History → GateState
unfolding apply
fold [] = empty_gate
fold ((sig, now) ∷ h) = apply (fold h) sig now

-- The latest status of a history, and the time of its latest activity.
abbrev pub last_status : History → Option (Bool × Bool)
last_status [] = none
last_status ((signal_status l p, now) ∷ h) = some (l, p)
last_status ((_, now) ∷ h) = last_status h

abbrev pub last_activity : History → Option ℕ
last_activity [] = none
last_activity ((signal_activity, now) ∷ h) = some now
last_activity ((_, now) ∷ h) = last_activity h

abbrev pub lease_over : Option ℕ → ℕ → Bool
lease_over none now = true
lease_over (some t) now = not (ltb now (t + activity_lease))

-- Locked and empty, by the latest status.
abbrev pub locked_and_empty : Option (Bool × Bool) → Bool
locked_and_empty none = false
locked_and_empty (some (l, p)) = l && not p

abbrev gate_of : Option (Bool × Bool) → Option ℕ → GateState
gate_of none none = empty_gate
gate_of none (some t) = record empty_gate { activity_until = t + activity_lease }
gate_of (some (l, p)) none = record {
  have_status = true;
  locked = l;
  present = p;
  activity_until = 0;
}
gate_of (some (l, p)) (some t) = record {
  have_status = true;
  locked = l;
  present = p;
  activity_until = t + activity_lease;
}

apply-gate_of-status :
    (s : Option (Bool × Bool)) (a : Option ℕ) (l p : Bool) (now : ℕ)
    → apply (gate_of s a) (signal_status l p) now ≡ gate_of (some (l, p)) a
unfolding apply
apply-gate_of-status s a l p now = ground arith

apply-gate_of-activity :
    (s : Option (Bool × Bool)) (a : Option ℕ) (now : ℕ)
    → apply (gate_of s a) signal_activity now ≡ gate_of s (some now)
unfolding apply
apply-gate_of-activity s a now = ground arith

fold-gate_of : (h : History) → fold h ≡ gate_of (last_status h) (last_activity h)
unfolding apply
fold-gate_of [] = refl
fold-gate_of ((signal_none, now) ∷ h) = fold-gate_of h
fold-gate_of ((signal_status l p, now) ∷ h) =
    rw (fold-gate_of h) (apply-gate_of-status (last_status h) (last_activity h) l p now)
fold-gate_of ((signal_activity, now) ∷ h) =
    rw (fold-gate_of h) (apply-gate_of-activity (last_status h) (last_activity h) now)

up-gate_of :
    (s : Option (Bool × Bool)) (a : Option ℕ) (now : ℕ)
    → ap_should_be_up (gate_of s a) now ≡ not (locked_and_empty s && lease_over a now)
unfolding ap_should_be_up
up-gate_of s a now = ground arith

-- After any history of signals the verdict depends on two things only: the latest status, and
-- whether the lease of the latest activity is over. It is down when the status says locked and
-- nobody present and the lease is over, and up otherwise; with no status it is up.
pub fold-verdict :
    (h : History) (now : ℕ)
    → ap_should_be_up (fold h) now
      ≡ not (locked_and_empty (last_status h) && lease_over (last_activity h) now)
fold-verdict h now = rw (fold-gate_of h) (up-gate_of (last_status h) (last_activity h) now)
