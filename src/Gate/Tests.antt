-- ===== src/Gate/Tests.antt =====
-- The gate on concrete frames and histories.
use airgapp_rpi.Base.{◌*◌, ◌≡◌, refl, true, false, not, ◌&&◌, none, some, [], ◌∷◌}
use airgapp_rpi.Gate.{
  vehicle_security, infotainment, locked, not_present, RoutableMessage, status_message, Decoder,
  signal_status, signal_activity, decode_lock_signal, decode_message, minute, ap_should_be_up,
}
use airgapp_rpi.Gate.Fold.{
  History, fold, fold-verdict, locked_and_empty, last_status, lease_over, last_activity,
}
use airgapp_rpi.Gate.Diagnostic.{IsStatusPush, decode-IsStatusPush}

abbrev push : RoutableMessage
push = record {
  from_domain = vehicle_security;
  from_address = [];
  to_domain = infotainment;
  request_uuid = [];
  signature_data = none;
  payload = 1 ∷ 2 ∷ [];
  session_info = [];
  message_status = none;
  unknown_fields = [];
}

-- A car that is locked and empty.
abbrev car : Decoder
car = record {
  routable = λ frame. some push;
  vcsec = λ payload.
      some (status_message (record { lock_state = locked; user_presence = not_present }));
}

abbrev history : History
history = (signal_status true false, 20) ∷ (signal_activity, 10) ∷ []

fold-verdict_example :
    ap_should_be_up (fold history) (5 * minute)
    ≡ not
        (locked_and_empty (last_status history) && lease_over (last_activity history) (5 * minute))
fold-verdict_example = fold-verdict history (5 * minute)

car_decodes : decode_lock_signal car (7 ∷ []) ≡ signal_status true false
unfolding decode_lock_signal decode_message
car_decodes = refl

decode-IsStatusPush_example : IsStatusPush car (7 ∷ []) true false
decode-IsStatusPush_example = decode-IsStatusPush car (7 ∷ []) true false car_decodes
