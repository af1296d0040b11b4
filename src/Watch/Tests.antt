-- ===== src/Watch/Tests.antt =====
-- The watcher on concrete events and schedules.
use airgapp_rpi.Base.{refl, true, false, none, some, [], ◌∷◌, arith}
use airgapp_rpi.Gate.{Decoder, ap_should_be_up, empty_gate}
use airgapp_rpi.Watch.{new_watch, report, install, handle, handle_all, attached, attach_and_pump}
use airgapp_rpi.Watch.Settle.{Actuated, Says, handle_all-Actuated, new_watch-InSync}
use airgapp_rpi.Watch.Attach.{IsFailOpen, attach_and_pump-IsFailOpen}
use airgapp_rpi.Watch.Race.{
  System, start, Reach, here, next, store_enforcer, clear_wanted, read, finish, quiet-Says,
}

abbrev silent_car : Decoder
silent_car = record { routable = λ frame. none; vcsec = λ payload. none }

handle_all-Actuated_example :
    Actuated
      (handle silent_car
        (handle_all silent_car new_watch (install (some 7) 1 ∷ []))
        (report true false 2))
      2
handle_all-Actuated_example =
    handle_all-Actuated silent_car (install (some 7) 1 ∷ []) (report true false 2) refl

attach_and_pump-IsFailOpen_example :
    IsFailOpen
      (attach_and_pump silent_car new_watch
        (attached (1 ∷ []) 1 (install (some 7) 2 ∷ report true false 3 ∷ []))
        4).0
attach_and_pump-IsFailOpen_example =
    attach_and_pump-IsFailOpen silent_car new_watch
      (attached (1 ∷ []) 1 (install (some 7) 2 ∷ report true false 3 ∷ [])) 4 new_watch-InSync

-- An enforcer is installed and told to keep the radio up.
abbrev quiet : System
unfolding new_watch
quiet = record {
  watch = record new_watch { enforcer = some 7; last_wanted = some true; calls = (7, true) ∷ [] };
  holder = none;
  pending = 0;
  resets = 0;
  read_gate = empty_gate;
  read_time = 5;
  settled = true;
}

Reach-quiet : Reach quiet
unfolding start new_watch ap_should_be_up
Reach-quiet =
    next
      (next (next (next here (store_enforcer (some 7))) (clear_wanted refl (omega arith)))
        (read 5 refl (omega arith)))
      (finish true (some 7) refl)

quiet-Says_example : Says (some 7) (ap_should_be_up quiet.watch.gate 5) quiet.watch.calls
unfolding quiet
quiet-Says_example = quiet-Says quiet Reach-quiet refl refl refl refl
