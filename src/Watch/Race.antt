-- ===== src/Watch/Race.antt =====
-- `settle` taken apart, for goroutines that interleave: `applyMu` is held from the reading of the
-- verdict to the end of the enforcer's call, while the gate and the enforcer may be written under
-- `mu` at any time. A goroutine that wrote the gate, or whose timer fired, is `pending` until its
-- own `settle` has read; one that has stored a new enforcer is counted in `resets` until it has
-- cleared `lastWanted`. `read_gate`, `read_time` and `settled` record the latest reading, and are
-- no part of the program's state.
use airgapp_rpi.Base.{ℕ, ◌+◌, ◌-◌, ◌<◌, ◌≡◌, Bool, true, false, Option, none, some, arith}
use airgapp_rpi.Gate.{GateState, empty_gate, ap_should_be_up}
use airgapp_rpi.Watch.{Watch, new_watch, settle_read, settle_apply}
use airgapp_rpi.Watch.Settle.{InSync, Says}

pub record System : Type 0 where
  pub watch : Watch
  pub holder : Option (Bool × Option ℕ)
  pub pending : ℕ
  pub resets : ℕ
  pub read_gate : GateState
  pub read_time : ℕ
  pub settled : Bool

unfoldable pub start : System
unfolding new_watch
start = record {
  watch = new_watch;
  holder = none;
  pending = 0;
  resets = 0;
  read_gate = empty_gate;
  read_time = 0;
  settled = false;
}

-- The `settle` of a pending goroutine takes `applyMu` and reads.
abbrev read_step : System → ℕ → System
read_step s now = record s {
  holder = some (settle_read s.watch now);
  pending = s.pending - 1;
  read_gate = s.watch.gate;
  read_time = now;
  settled = true;
}

pub data Step (s : System) : System → Type 0 where
  -- `Ingest`, `ReportExternal` or `noteSessionLost` writes the gate.
  write_gate :
      (g : GateState)
      → Step s (record s { watch = record (s.watch) { gate = g }; pending = s.pending + 1 })
  -- The re-settle timer fires.
  timer : Step s (record s { pending = s.pending + 1 })
  -- `SetEnforcer` stores the function, and later clears `lastWanted` under `applyMu`.
  store_enforcer :
      (fn : Option ℕ)
      → Step s (record s { watch = record (s.watch) { enforcer = fn }; resets = s.resets + 1 })
  clear_wanted :
      s.holder ≡ none
      → 0 < s.resets
      → Step s (record s {
        watch = record (s.watch) { last_wanted = none };
        resets = s.resets - 1;
        pending = s.pending + 1;
      })
  read : (now : ℕ) → s.holder ≡ none → 0 < s.pending → Step s (read_step s now)
  -- The holder of `applyMu` applies what it read, and unlocks.
  finish :
      (want : Bool) (fn : Option ℕ)
      → s.holder ≡ some (want, fn)
      → Step s (record s { watch = settle_apply s.watch want fn; holder = none })

pub data Reach : System → Type 0 where
  here : Reach start
  next : {s t : System} → Reach s → Step s t → Reach t

-- What the holder of `applyMu` carries is the verdict of the latest reading.
abbrev Carries : Option (Bool × Option ℕ) → System → Type 0
Carries none s = Unit {0}
Carries (some (want, fn)) s =
    (want ≡ ap_should_be_up s.read_gate s.read_time)
    × (s.resets ≡ 0 → fn ≡ s.watch.enforcer)
    × (s.settled ≡ true)

record Inv (s : System) : Type 0 where
  holding : Carries s.holder s
  current : s.pending ≡ 0 → s.watch.gate ≡ s.read_gate
  recorded :
      s.pending ≡ 0
      → s.holder ≡ none
      → s.settled ≡ true
      → s.watch.last_wanted ≡ some (ap_should_be_up s.read_gate s.read_time)
  synced : s.resets ≡ 0 → InSync s.watch

start-Inv : Inv start
unfolding start new_watch
start-Inv = ground arith

Step-Inv : {s t : System} → Step s t → Inv s → Inv t
Step-Inv {s} (write_gate g) h = ground arith
Step-Inv {s} timer h = ground arith
Step-Inv {s} (store_enforcer fn) h = ground arith
Step-Inv {s} (clear_wanted p q) h = ground arith
Step-Inv {s} (read now p q) h = ground arith
Step-Inv {s} (finish want fn p) h = ground arith

Reach-Inv : {s : System} → Reach s → Inv s
Reach-Inv here = start-Inv
Reach-Inv (next r st) = Step-Inv st (Reach-Inv r)

-- Whatever the interleaving: once no goroutine holds the lock or is on its way to `settle` or to
-- clearing the recorded verdict, and some `settle` has read, the enforcer's latest call, if one is
-- installed, carried the verdict of the gate as it is now, at the time of the latest reading.
pub quiet-Says :
    (s : System)
    → Reach s
    → s.holder ≡ none
    → s.pending ≡ 0
    → s.resets ≡ 0
    → s.settled ≡ true
    → Says s.watch.enforcer (ap_should_be_up s.watch.gate s.read_time) s.watch.calls
quiet-Says s r free quiet cleared done = ground (arith, Reach-Inv r)
