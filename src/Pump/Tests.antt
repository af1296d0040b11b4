-- ===== src/Pump/Tests.antt =====
-- A session with two waiters and a subscriber, and a frame for the second waiter.
use airgapp_rpi.Base.{◌≡◌, refl, false, List, [], ◌∷◌, ◌++◌, All}
use airgapp_rpi.Base.Text.{Text}
use airgapp_rpi.Wire.{
  extract_routable_to_routing_address, extract_routable_request_uuid, scan_proto_field, scan_from,
  skip_field, take_field, read_varint, read_varint_from,
}
use airgapp_rpi.Pump.{
  Waiter, Pump, new_pump, is_match, bytes_equal, take_match, route_by, routed, route_frame,
  register_waiter, subscribe, Op, register, subscribe_op, frame_in, step, run,
}
use airgapp_rpi.Pump.Routing.{IsFirst}
use airgapp_rpi.Pump.Fates.{Inv, to_address, request_uuid, run-Inv}
use airgapp_rpi.Pump.Answers.{Delivers, run-Delivers, run-route_frame}

-- A message whose request uuid is the byte 2.
abbrev reply : Text
reply = 146 ∷ 3 ∷ 1 ∷ 2 ∷ []

abbrev one : Waiter
one = record { id = 0; want_addr = 1 ∷ []; want_uuid = [] }

abbrev two : Waiter
two = record { id = 1; want_addr = []; want_uuid = 2 ∷ [] }

abbrev requests : List Op
requests = register (1 ∷ []) [] ∷ register [] (2 ∷ []) ∷ subscribe_op ∷ []

abbrev waiting : Pump
waiting = record {
  waiters = one ∷ two ∷ [];
  next_waiter = 2;
  subs = (0, []) ∷ [];
  sub_seq = 1;
  closed = false;
  answers = [];
  ended = [];
  ended_subs = [];
}

abbrev answered : Pump
answered = record waiting { waiters = one ∷ []; answers = (two, reply) ∷ [] }

runs-waiting : run new_pump requests ≡ routed waiting
unfolding run step new_pump register_waiter subscribe
runs-waiting = refl

routes : route_frame waiting reply ≡ routed answered
unfolding route_frame route_by take_match is_match bytes_equal extract_routable_to_routing_address
    extract_routable_request_uuid scan_proto_field scan_from skip_field take_field read_varint
    read_varint_from
routes = refl

runs-answered :
    run new_pump (register (1 ∷ []) [] ∷ register [] (2 ∷ []) ∷ subscribe_op ∷ frame_in reply ∷ [])
    ≡ routed answered
unfolding run step new_pump register_waiter subscribe route_frame route_by take_match is_match
    bytes_equal extract_routable_to_routing_address extract_routable_request_uuid scan_proto_field
    scan_from skip_field take_field read_varint read_varint_from
runs-answered = refl

run-Inv_example : Inv answered
run-Inv_example =
    run-Inv answered
      (register (1 ∷ []) [] ∷ register [] (2 ∷ []) ∷ subscribe_op ∷ frame_in reply ∷ [])
      runs-answered

run-Delivers_example : Delivers answered
run-Delivers_example =
    run-Delivers answered
      (register (1 ∷ []) [] ∷ register [] (2 ∷ []) ∷ subscribe_op ∷ frame_in reply ∷ [])
      runs-answered

second-IsFirst : IsFirst (to_address reply) (request_uuid reply) waiting.waiters two (one ∷ []) []
unfolding is_match bytes_equal extract_routable_to_routing_address extract_routable_request_uuid
    scan_proto_field scan_from skip_field take_field read_varint read_varint_from
second-IsFirst = record { split = refl; passed = (refl, tt); hit = refl }

run-route_frame_example :
    answered
    ≡ record waiting { waiters = (one ∷ []) ++ []; answers = (two, reply) ∷ waiting.answers }
run-route_frame_example =
    run-route_frame waiting answered requests reply two (one ∷ []) [] runs-waiting routes
      second-IsFirst

no_match : All (λ v. is_match [] (3 ∷ []) v ≡ false) waiting.waiters
unfolding is_match bytes_equal
no_match = (refl, (refl, tt))
