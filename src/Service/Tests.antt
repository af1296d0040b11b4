-- ===== src/Service/Tests.antt =====
-- Concrete sessions, and a schedule in which one call of `Open` overtakes another.
use airgapp_rpi.Base.{◌*◌, ◌≤◌, ◌≡◌, ◌↔◌, refl, true, false, none, some, [], ◌∷◌, All, arith}
use airgapp_rpi.Gate.{second}
use airgapp_rpi.Service.{
  Entry, Service, new_service, begin_open, revoke, get, reaper_round, reaped, sleeps, try_lock,
}
use airgapp_rpi.Service.Sessions.{idle_session_reaped}
use airgapp_rpi.Service.Race.{
  Thread, System, begun, preempting, waiting, holding, Reach, here, next, begin, snapshot,
  preempted, lock,
}
use airgapp_rpi.Service.Race.Adapter.{holders, adapter_exclusive}
use airgapp_rpi.Service.Race.Supersede.{is_open}
use airgapp_rpi.Service.Race.Newest.{IsBarred, revoke-supersedes}

abbrev entry : Entry
entry = record { id = 4; owner = 9; last_used = 10 * second }

abbrev serving : Service
serving = record {
  sessions = entry ∷ [];
  open_seq = 1;
  pending = false;
  pending_owner = 0;
  slot = true;
  releasing = 0;
  bumps = 1;
}

sleeps-first : reaper_round serving 4 (70 * second) ≡ sleeps (241 * second)
unfolding reaper_round get
sleeps-first = refl

idle_session_reaped_example :
    (v : Service) × (reaper_round serving 4 (311 * second) ≡ reaped v) × (get v 4 ≡ none)
idle_session_reaped_example =
    idle_session_reaped serving serving 4 (70 * second) (311 * second) (241 * second) sleeps-first
      refl (omega arith)

finds-entry : get serving 4 ≡ some entry
unfolding get
finds-entry = refl

-- The first call has the adapter and scans when the second begins.
abbrev slow : Thread
slow = record { phase = holding; owner = 9; seq = 1; birth = 1 }

abbrev fast : Thread
fast = record { phase = begun; owner = 5; seq = 2; birth = 2 }

abbrev overtaken : System
overtaken = record {
  service = record {
    sessions = [];
    open_seq = 2;
    pending = true;
    pending_owner = 5;
    slot = true;
    releasing = 0;
    bumps = 2;
  };
  opens = fast ∷ slow ∷ [];
  pairing = 0;
}

Reach-overtaken : Reach overtaken
unfolding new_service begin_open try_lock
Reach-overtaken =
    next
      (next
        (next
          (next (next here (begin 9)) (snapshot [] [] (record slow { phase = begun }) refl refl))
          (preempted [] [] (record slow { phase = preempting [] }) refl refl))
        (lock [] [] (record slow { phase = waiting }) _ refl refl refl))
      (begin 5)

adapter_exclusive_example :
    (holders overtaken ≤ 1) × (0 ≤ 1) × ((true ≡ true) ↔ (holders overtaken ≡ 1))
adapter_exclusive_example = adapter_exclusive overtaken Reach-overtaken

revoke-supersedes_example :
    All
      (λ t. is_open t.phase ≡ true → t.owner ≡ 5 → IsBarred (revoke overtaken.service 5).0 t)
      overtaken.opens
revoke-supersedes_example =
    revoke-supersedes overtaken 5 Reach-overtaken (omega arith) (λ e. absurd (omega arith))
