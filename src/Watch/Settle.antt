-- ===== src/Watch/Settle.antt =====
-- What the actuator was told last, after each operation of the watcher.
use airgapp_rpi.Base.{ℕ, ◌≡◌, refl, Bool, true, false, Option, none, some, List, [], ◌∷◌, arith}
use airgapp_rpi.Base.Text.{Text}
use airgapp_rpi.Gate.{
  ap_should_be_up, LockSignal, signal_none, signal_status, signal_activity, Decoder,
  decode_lock_signal,
}
use airgapp_rpi.Watch.{
  Watch, new_watch, settle, set_enforcer, classify, fold_signal, ingest, report_external,
  ingest_signal, Event, frame, report, tick, install, handle, handle_all,
}

abbrev pub last_call : List (ℕ × Bool) → Option (ℕ × Bool)
last_call [] = none
last_call (c ∷ cs) = some c

-- While an enforcer is installed and a verdict is recorded, the verdict is the last call.
abbrev Told : Option ℕ → Option Bool → List (ℕ × Bool) → Type 0
Told (some e) (some b) calls = last_call calls ≡ some (e, b)
Told _ _ calls = Unit {0}

abbrev pub InSync : Watch → Type 0
InSync s = Told s.enforcer s.last_wanted s.calls

-- The last call told the enforcer what the gate says at `now`.
abbrev pub Says : Option ℕ → Bool → List (ℕ × Bool) → Type 0
Says (some e) b calls = last_call calls ≡ some (e, b)
Says none b calls = Unit {0}

abbrev pub Actuated : Watch → ℕ → Type 0
Actuated s now = Says s.enforcer (ap_should_be_up s.gate now) s.calls

pub settle-InSync : (s : Watch) (now : ℕ) → InSync s → InSync (settle s now)
unfolding settle
settle-InSync s now h = ground arith

pub settle-Actuated : (s : Watch) (now : ℕ) → InSync s → Actuated (settle s now) now
unfolding settle
settle-Actuated s now h = ground arith

-- A new enforcer is told the current verdict at once, whatever was told to the one before it.
pub set_enforcer-asserts :
    (s : Watch) (e now : ℕ)
    → (set_enforcer s (some e) now).calls ≡ (e, ap_should_be_up s.gate now) ∷ s.calls
unfolding set_enforcer settle
set_enforcer-asserts s e now = refl

set_enforcer-InSync : (s : Watch) (fn : Option ℕ) (now : ℕ) → InSync (set_enforcer s fn now)
unfolding set_enforcer settle
set_enforcer-InSync s none now = tt
set_enforcer-InSync s (some e) now = refl

classify-InSync : (s : Watch) (sig : LockSignal) → InSync s → InSync (classify s sig)
unfolding classify
classify-InSync s sig h = ground arith

fold_signal-InSync :
    (s : Watch) (sig : LockSignal) (now : ℕ) → InSync s → InSync (fold_signal s sig now)
unfolding fold_signal
fold_signal-InSync s sig now h = settle-InSync _ now h

ingest-InSync :
    (d : Decoder) (s : Watch) (f : Text) (now : ℕ) → InSync s → InSync (ingest d s f now)
unfolding ingest
ingest-InSync d s f now h = ingest_signal-InSync (decode_lock_signal d f)
  where
    ingest_signal-InSync : (sig : LockSignal) → InSync (ingest_signal s sig now)
    ingest_signal-InSync signal_none = classify-InSync s signal_none h
    ingest_signal-InSync (signal_status l p) =
        fold_signal-InSync _ (signal_status l p) now (classify-InSync s (signal_status l p) h)
    ingest_signal-InSync signal_activity =
        fold_signal-InSync _ signal_activity now (classify-InSync s signal_activity h)

pub handle-InSync : (d : Decoder) (s : Watch) (e : Event) → InSync s → InSync (handle d s e)
unfolding handle report_external
handle-InSync d s (frame bytes now) h = ingest-InSync d _ bytes now h
handle-InSync d s (report l p now) h = fold_signal-InSync s (signal_status l p) now h
handle-InSync d s (tick now) h = settle-InSync s now h
handle-InSync d s (install fn now) h = set_enforcer-InSync s fn now

pub handle_all-InSync :
    (d : Decoder) (s : Watch) (es : List Event) → InSync s → InSync (handle_all d s es)
unfolding handle_all
handle_all-InSync d s [] h = h
handle_all-InSync d s (e ∷ es) h = handle_all-InSync d (handle d s e) es (handle-InSync d s e h)

pub new_watch-InSync : InSync new_watch
unfolding new_watch
new_watch-InSync = tt

abbrev has_signal : LockSignal → Bool
has_signal signal_none = false
has_signal _ = true

-- The events after which the actuator is up to date: all but a frame without a signal.
abbrev pub is_settling : Decoder → Event → Bool
is_settling d (frame bytes now) = has_signal (decode_lock_signal d bytes)
is_settling d (report l p now) = true
is_settling d (tick now) = true
is_settling d (install fn now) = true

abbrev pub stamp : Event → ℕ
stamp (frame bytes now) = now
stamp (report l p now) = now
stamp (tick now) = now
stamp (install fn now) = now

fold_signal-Actuated :
    (s : Watch) (sig : LockSignal) (now : ℕ) → InSync s → Actuated (fold_signal s sig now) now
unfolding fold_signal
fold_signal-Actuated s sig now h = settle-Actuated _ now h

ingest_signal-Actuated :
    (s : Watch) (sig : LockSignal) (now : ℕ)
    → has_signal sig ≡ true
    → InSync s
    → Actuated (ingest_signal s sig now) now
ingest_signal-Actuated s signal_none now h k = cc
ingest_signal-Actuated s (signal_status l p) now h k =
    fold_signal-Actuated _ (signal_status l p) now (classify-InSync s (signal_status l p) k)
ingest_signal-Actuated s signal_activity now h k =
    fold_signal-Actuated _ signal_activity now (classify-InSync s signal_activity k)

handle-Actuated :
    (d : Decoder) (s : Watch) (e : Event)
    → is_settling d e ≡ true
    → InSync s
    → Actuated (handle d s e) (stamp e)
unfolding handle report_external ingest set_enforcer
handle-Actuated d s (frame bytes now) h k =
    ingest_signal-Actuated _ (decode_lock_signal d bytes) now h k
handle-Actuated d s (report l p now) h k = fold_signal-Actuated s (signal_status l p) now k
handle-Actuated d s (tick now) h k = settle-Actuated s now k
handle-Actuated d s (install none now) h k = settle-Actuated _ now tt
handle-Actuated d s (install (some e) now) h k = settle-Actuated _ now tt

-- After any events on a new watcher, and one more that is a report, a tick, a new enforcer or a
-- frame that carries a signal, the last call told the enforcer, if there is one, what the gate says
-- at the time of that event.
pub handle_all-Actuated :
    (d : Decoder) (es : List Event) (e : Event)
    → is_settling d e ≡ true
    → Actuated (handle d (handle_all d new_watch es) e) (stamp e)
handle_all-Actuated d es e h =
    handle-Actuated d _ e h (handle_all-InSync d new_watch es new_watch-InSync)
