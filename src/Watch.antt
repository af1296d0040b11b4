-- ===== src/Watch.antt =====
-- internal/services/lockwatch.go: the state of the lock watcher and its operations, each as one
-- atomic step; Race takes `settle` apart. `calls` records what the actuator was told, latest first:
-- it stands for the radio, and the Go struct has no such field. An enforcer is a function in Go;
-- here it is a number that tells one installed function from another, and `none` is nil.
pub mod Settle
pub mod Attach
pub mod Race
mod Tests
use airgapp_rpi.Base.{
  ℕ, ◌+◌, ◌*◌, Bool, true, false, ◌&&◌, Option, none, some, List, [], ◌∷◌, ltb, eq_bool,
  if◌then◌else◌,
}
use airgapp_rpi.Base.Text.{Text}
use airgapp_rpi.Gate.{
  second, minute, GateState, empty_gate, apply, ap_should_be_up, LockSignal, signal_none,
  signal_status, signal_activity, Decoder, decode_lock_signal,
}

abbrev pub max_retry_backoff : ℕ
max_retry_backoff = 5 * minute

abbrev pub default_retry_delay : ℕ
default_retry_delay = 10 * second

abbrev pub max_frames_described : ℕ
max_frames_described = 8

pub record Watch : Type 0 where
  pub last_wanted : Option Bool
  pub gate : GateState
  pub last_signal : ℕ
  pub session_id : Text
  pub enforcer : Option ℕ
  pub attached_since : ℕ
  pub frames_seen : ℕ
  pub frames_status : ℕ
  pub frames_activity : ℕ
  pub frames_described : ℕ
  pub saw_status : Bool
  pub calls : List (ℕ × Bool)

-- `NewLockWatchService`
unfoldable pub new_watch : Watch
new_watch = record {
  last_wanted = none;
  gate = empty_gate;
  last_signal = 0;
  session_id = [];
  enforcer = none;
  attached_since = 0;
  frames_seen = 0;
  frames_status = 0;
  frames_activity = 0;
  frames_described = 0;
  saw_status = false;
  calls = [];
}

-- `*s.lastWanted == want`, where `lastWanted` is not nil.
abbrev pub wanted_is : Option Bool → Bool → Bool
wanted_is none want = false
wanted_is (some b) want = eq_bool b want

abbrev pub call_enforcer : Option ℕ → Bool → List (ℕ × Bool) → List (ℕ × Bool)
call_enforcer none want calls = calls
call_enforcer (some e) want calls = (e, want) ∷ calls

-- `settle` reads the verdict and the enforcer under `mu`, and applies them under `applyMu`.
abbrev pub settle_read : Watch → ℕ → Bool × Option ℕ
settle_read s now = (ap_should_be_up s.gate now, s.enforcer)

abbrev pub settle_apply : Watch → Bool → Option ℕ → Watch
settle_apply s want fn =
    if wanted_is s.last_wanted want
    then s
    else record s { last_wanted = some want; calls = call_enforcer fn want s.calls }

unfoldable pub settle : Watch → ℕ → Watch
settle s now = let (want, fn) = settle_read s now in settle_apply s want fn

unfoldable pub set_enforcer : Watch → Option ℕ → ℕ → Watch
set_enforcer s fn now = settle (record s { enforcer = fn; last_wanted = none }) now

-- `LockWatchStatus`
pub record LockWatchStatus : Type 0 where
  pub have_status : Bool
  pub locked : Bool
  pub present : Bool
  pub ap_up : Bool
  pub last_signal : ℕ
  pub session_id : Text
  pub attached_since : ℕ
  pub frames_seen : ℕ

unfoldable pub status : Watch → ℕ → LockWatchStatus
status s now = record {
  have_status = s.gate.have_status;
  locked = s.gate.locked;
  present = s.gate.present;
  ap_up = ap_should_be_up s.gate now;
  last_signal = s.last_signal;
  session_id = s.session_id;
  attached_since = s.attached_since;
  frames_seen = s.frames_seen;
}

-- The first locked section of `Ingest`, which counts the frame by its kind.
unfoldable pub classify : Watch → LockSignal → Watch
classify s (signal_status l p) = record s { frames_status = s.frames_status + 1; saw_status = true }
classify s signal_activity = record s { frames_activity = s.frames_activity + 1 }
classify s signal_none =
    if ltb s.frames_described max_frames_described
    then record s { frames_described = s.frames_described + 1 }
    else s

-- The second one, with the `settle` that follows it.
unfoldable pub fold_signal : Watch → LockSignal → ℕ → Watch
fold_signal s sig now = settle (record s { gate = apply s.gate sig now; last_signal = now }) now

abbrev ingest_signal : Watch → LockSignal → ℕ → Watch
ingest_signal s signal_none now = classify s signal_none
ingest_signal s sig now = fold_signal (classify s sig) sig now

unfoldable pub ingest : Decoder → Watch → Text → ℕ → Watch
ingest d s frame now = ingest_signal s (decode_lock_signal d frame) now

unfoldable pub report_external : Watch → Bool → Bool → ℕ → Watch
report_external s l p now = fold_signal s (signal_status l p) now

unfoldable pub note_session_lost : Watch → ℕ → Watch
note_session_lost s now =
    settle
      (record s {
        gate = empty_gate;
        session_id = [];
        last_signal = 0;
        attached_since = 0;
        frames_seen = 0;
        frames_status = 0;
        frames_activity = 0;
        frames_described = 0;
      })
      now

-- What the other goroutines do while the pump of an attachment runs, and a frame on its channel.
pub data Event : Type 0 where
  frame : Text → ℕ → Event
  report : Bool → Bool → ℕ → Event
  tick : ℕ → Event
  install : Option ℕ → ℕ → Event

-- One turn: the `frame` case is a round of the loop in `attachAndPump`, `tick` one of
-- `resettleLoop`.
unfoldable pub handle : Decoder → Watch → Event → Watch
handle d s (frame bytes now) = ingest d (record s { frames_seen = s.frames_seen + 1 }) bytes now
handle d s (report l p now) = report_external s l p now
handle d s (tick now) = settle s now
handle d s (install fn now) = set_enforcer s fn now

unfoldable pub handle_all : Decoder → Watch → List Event → Watch
handle_all d s [] = s
handle_all d s (e ∷ es) = handle_all d (handle d s e) es

-- What one call of `attachAndPump` meets: no live session, a failing `Subscribe`, or a session,
-- the time of the attachment and the events until the channel closes or `Stop` is called.
pub data Attempt : Type 0 where
  no_session : Attempt
  subscribe_failed : Text → Attempt
  attached : Text → ℕ → List Event → Attempt

abbrev pub attach : Watch → Text → ℕ → Watch
attach s id at = record s {
  session_id = id;
  attached_since = at;
  frames_seen = 0;
  frames_status = 0;
  frames_activity = 0;
  frames_described = 0;
}

-- The result is `ok`; the deferred `noteSessionLost` runs at the time `now` of the exit.
unfoldable pub attach_and_pump : Decoder → Watch → Attempt → ℕ → Watch × Bool
attach_and_pump d s no_session now = (note_session_lost s now, true)
attach_and_pump d s (subscribe_failed id) now = (note_session_lost s now, false)
attach_and_pump d s (attached id at es) now =
    (note_session_lost (handle_all d (attach s id at) es) now, true)

-- The delay after an attempt.
unfoldable pub next_delay : ℕ → ℕ → Bool → ℕ
next_delay retry_delay delay true = retry_delay
next_delay retry_delay delay false =
    if ltb max_retry_backoff (delay * 2) then max_retry_backoff else delay * 2

-- `supervise` over the attempts until `Stop`, each with the time of its exit: the state it leaves,
-- and the delays it waited for.
unfoldable pub supervise : Decoder → ℕ → ℕ → Watch → List (Attempt × ℕ) → Watch × List ℕ
supervise d retry_delay delay s [] = (s, [])
supervise d retry_delay delay s ((a, now) ∷ rest) =
    let (s', ok) = attach_and_pump d s a now in
    let delay' = next_delay retry_delay delay ok in
    let (last, delays) = supervise d retry_delay delay' s' rest in (last, delay' ∷ delays)
