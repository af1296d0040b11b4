-- ===== src/Watch/Attach.antt =====
-- An attachment ends in the open state, its counters add up, and the retry delay stays in bounds.
use airgapp_rpi.Base.{
  ℕ, suc, ◌+◌, ◌*◌, ◌^◌, ◌≤◌, min, ◌≡◌, refl, Bool, true, false, List, [], ◌∷◌, arith, All, ap,
}
use native.Mathlib.Nat.{pow-suc}
use airgapp_rpi.Base.Text.{Text}
use airgapp_rpi.Gate.{
  empty_gate, ap_should_be_up, Decoder, LockSignal, signal_none, signal_status, signal_activity,
  decode_lock_signal,
}
use airgapp_rpi.Watch.{
  Watch, settle, set_enforcer, classify, fold_signal, ingest_signal, ingest, report_external,
  note_session_lost, Event, frame, report, tick, install, handle, handle_all, Attempt, no_session,
  subscribe_failed, attached, attach, attach_and_pump, next_delay, supervise, max_retry_backoff,
}
use airgapp_rpi.Watch.Settle.{InSync, Says, settle-InSync, handle_all-InSync}

-- The watcher knows nothing, and whoever drives the radio was last told to keep it up.
pub record IsFailOpen (s : Watch) : Type 0 where
  pub gate : s.gate ≡ empty_gate
  pub session : s.session_id ≡ []
  pub silent : s.last_signal ≡ 0
  pub detached : s.attached_since ≡ 0
  pub seen : s.frames_seen ≡ 0
  pub radio : Says s.enforcer true s.calls

note_session_lost-IsFailOpen :
    (s : Watch) (now : ℕ) → InSync s → IsFailOpen (note_session_lost s now)
unfolding note_session_lost settle ap_should_be_up
note_session_lost-IsFailOpen s now h = ground arith

-- From a watcher whose recorded verdict, if there is one, is what the enforcer was last told, as it
-- is of a new watcher and after every operation: however an attempt ends, with no session, a failed subscription, or an attachment with any
-- frames, reports, ticks and new enforcers during it, it leaves the watcher open: the gate is empty,
-- the attachment is forgotten, and the last call told the enforcer, if there is one, to keep the
-- radio up.
pub attach_and_pump-IsFailOpen :
    (d : Decoder) (s : Watch) (a : Attempt) (now : ℕ)
    → InSync s
    → IsFailOpen (attach_and_pump d s a now).0
unfolding attach_and_pump
attach_and_pump-IsFailOpen d s no_session now h = note_session_lost-IsFailOpen s now h
attach_and_pump-IsFailOpen d s (subscribe_failed id) now h = note_session_lost-IsFailOpen s now h
attach_and_pump-IsFailOpen d s (attached id at es) now h =
    note_session_lost-IsFailOpen _ now (handle_all-InSync d (attach s id at) es h)

note_session_lost-InSync : (s : Watch) (now : ℕ) → InSync s → InSync (note_session_lost s now)
unfolding note_session_lost
note_session_lost-InSync s now h = settle-InSync _ now h

attach_and_pump-InSync :
    (d : Decoder) (s : Watch) (a : Attempt) (now : ℕ)
    → InSync s
    → InSync (attach_and_pump d s a now).0
unfolding attach_and_pump
attach_and_pump-InSync d s no_session now h = note_session_lost-InSync s now h
attach_and_pump-InSync d s (subscribe_failed id) now h = note_session_lost-InSync s now h
attach_and_pump-InSync d s (attached id at es) now h =
    note_session_lost-InSync _ now (handle_all-InSync d (attach s id at) es h)

-- Every frame of the attachment is counted once: as a status, as activity, or as neither.
record CountsFit (s : Watch) : Type 0 where
  pub sorted : s.frames_status + s.frames_activity + s.frames_described ≤ s.frames_seen
  pub described : s.frames_described ≤ 8

settle-CountsFit : (s : Watch) (now : ℕ) → CountsFit s → CountsFit (settle s now)
unfolding settle
settle-CountsFit s now h = ground arith

-- `Ingest` runs after `framesSeen++`.
ingest_signal-CountsFit :
    (s : Watch) (sig : LockSignal) (now : ℕ)
    → CountsFit s
    → CountsFit (ingest_signal (record s { frames_seen = s.frames_seen + 1 }) sig now)
unfolding classify fold_signal settle
ingest_signal-CountsFit s signal_none now h = ground arith
ingest_signal-CountsFit s (signal_status l p) now h = ground arith
ingest_signal-CountsFit s signal_activity now h = ground arith

handle-CountsFit : (d : Decoder) (s : Watch) (e : Event) → CountsFit s → CountsFit (handle d s e)
unfolding handle report_external ingest set_enforcer fold_signal
handle-CountsFit d s (frame bytes now) h =
    ingest_signal-CountsFit s (decode_lock_signal d bytes) now h
handle-CountsFit d s (report l p now) h =
    settle-CountsFit _ now (record { sorted = h.sorted; described = h.described })
handle-CountsFit d s (tick now) h = settle-CountsFit s now h
handle-CountsFit d s (install fn now) h =
    settle-CountsFit _ now (record { sorted = h.sorted; described = h.described })

handle_all-CountsFit :
    (d : Decoder) (s : Watch) (es : List Event) → CountsFit s → CountsFit (handle_all d s es)
unfolding handle_all
handle_all-CountsFit d s [] h = h
handle_all-CountsFit d s (e ∷ es) h =
    handle_all-CountsFit d (handle d s e) es (handle-CountsFit d s e h)

-- During an attachment, whatever happens, the frames counted as status, as activity and as
-- described are together at most the frames seen, and at most eight are described.
attach-CountsFit :
    (d : Decoder) (s : Watch) (id : Text) (at : ℕ) (es : List Event)
    → CountsFit (handle_all d (attach s id at) es)
attach-CountsFit d s id at es = handle_all-CountsFit d (attach s id at) es (ground arith)

-- The delays `supervise` waits for.
next_delay-bounds :
    (retry delay : ℕ) (ok : Bool)
    → retry ≤ max_retry_backoff
    → retry ≤ delay
    → (retry ≤ next_delay retry delay ok) × (next_delay retry delay ok ≤ max_retry_backoff)
unfolding next_delay
next_delay-bounds retry delay ok h k = ground arith

-- `supervise` never waits for less than the retry delay, nor for more than five minutes.
supervise-delays :
    (d : Decoder) (retry delay : ℕ) (s : Watch) (tries : List (Attempt × ℕ))
    → retry ≤ max_retry_backoff
    → retry ≤ delay
    → All (λ w. (retry ≤ w) × (w ≤ max_retry_backoff)) (supervise d retry delay s tries).1
unfolding supervise
supervise-delays d retry delay s [] h k = tt
supervise-delays d retry delay s ((a, now) ∷ rest) h k =
    let (s', ok) = attach_and_pump d s a now in
    let b : (retry ≤ next_delay retry delay ok) × (next_delay retry delay ok ≤ max_retry_backoff) =
      next_delay-bounds retry delay ok h k in
    (b, supervise-delays d retry (next_delay retry delay ok) s' rest h b.0)

-- The delay after `k` failures in a row, doubled each time and capped.
abbrev pub doubled : ℕ → ℕ → ℕ
doubled retry k = min (retry * 2 ^ k) max_retry_backoff

abbrev pub doubled_from : ℕ → ℕ → List (Attempt × ℕ) → List ℕ
doubled_from retry k [] = []
doubled_from retry k (a ∷ rest) = doubled retry (suc k) ∷ doubled_from retry (suc k) rest

abbrev pub IsFailure : Attempt → Type 0
IsFailure (subscribe_failed id) = Unit
IsFailure _ = ⊥

next_delay-min :
    (retry x y : ℕ)
    → y ≡ x * 2
    → next_delay retry (min x max_retry_backoff) false ≡ min y max_retry_backoff
unfolding next_delay
next_delay-min retry x y h = ground arith

next_delay-doubled :
    (retry k : ℕ) → next_delay retry (doubled retry k) false ≡ doubled retry (suc k)
next_delay-doubled retry k =
    next_delay-min retry (retry * 2 ^ k) (retry * 2 ^ suc k)
      (omega (arith, ap (λ (t : ℕ). retry * t) (pow-suc 2 k)))

supervise-failing :
    (d : Decoder) (retry k : ℕ) (s : Watch) (tries : List (Attempt × ℕ))
    → All (λ t. IsFailure t.0) tries
    → (supervise d retry (doubled retry k) s tries).1 ≡ doubled_from retry k tries
unfolding supervise attach_and_pump
supervise-failing d retry k s [] h = refl
supervise-failing d retry k s ((subscribe_failed id, now) ∷ rest) (f, h) =
    rw (next_delay-doubled retry k) (
      ap (◌∷◌ (doubled retry (suc k)))
        (supervise-failing d retry (suc k) (note_session_lost s now) rest h))
supervise-failing d retry k s ((no_session, now) ∷ rest) (f, h) = absurd f
supervise-failing d retry k s ((attached id at es, now) ∷ rest) (f, h) = absurd f

-- While every attempt fails to subscribe, the delays double from the retry delay on and stop at
-- five minutes: the delay after the k-th failure is the smaller of retry * 2 ^ k and the cap.
supervise-doubles :
    (d : Decoder) (retry : ℕ) (s : Watch) (tries : List (Attempt × ℕ))
    → retry ≤ max_retry_backoff
    → All (λ t. IsFailure t.0) tries
    → (supervise d retry retry s tries).1 ≡ doubled_from retry 0 tries
supervise-doubles d retry s tries h k =
    let e : doubled retry 0 ≡ retry = omega arith in rw e at (supervise-failing d retry 0 s tries k)
