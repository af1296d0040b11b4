-- ===== src/Pump.antt =====
-- internal/services/tesla_session.go, one session's pump: the waiters of `Exchange`, the
-- subscribers, and the demultiplexer. Each operation holds `s.mu` from its start to its end, so it
-- is one step; `routeFrame` sends to the waiter that it has taken off the list after unlocking, on
-- a channel that nobody else can reach by then.
--
-- A waiter is a pointer in Go: `id` tells two waiters apart. What was sent on the `deliver`
-- channels is kept in `answers`, and the channels that were closed in `ended` and `ended_subs`;
-- the Go struct has no such fields. A subscriber's channel is the list of the frames in it.
pub mod Routing
pub mod Fates
mod Count
pub mod Answers
mod Tests
use airgapp_rpi.Base.{
  ℕ, ◌+◌, Bool, true, false, not, ◌&&◌, ◌||◌, Option, none, some, List, [], ◌∷◌, ◌++◌, map, ltb,
  ◌==◌, if◌then◌else◌, length, any, keep,
}
use airgapp_rpi.Base.Text.{Text}
use airgapp_rpi.Wire.{
  Scan, missing, found, panics, stuck, extract_routable_to_routing_address,
  extract_routable_request_uuid,
}

pub record Waiter : Type 0 where
  pub id : ℕ
  pub want_addr : Text
  pub want_uuid : Text

pub record Pump : Type 0 where
  pub waiters : List Waiter
  pub next_waiter : ℕ
  pub subs : List (ℕ × List Text)
  pub sub_seq : ℕ
  pub closed : Bool
  pub answers : List (Waiter × Text)
  pub ended : List ℕ
  pub ended_subs : List ℕ

-- `newInternalSession`
unfoldable pub new_pump : Pump
new_pump = record {
  waiters = [];
  next_waiter = 0;
  subs = [];
  sub_seq = 0;
  closed = false;
  answers = [];
  ended = [];
  ended_subs = [];
}

abbrev same_bytes : Text → Text → Bool
same_bytes [] b = true
same_bytes (x ∷ a) [] = true
same_bytes (x ∷ a) (y ∷ b) = (x == y) && same_bytes a b

-- `bytesEqual`: the lengths first, then byte by byte.
unfoldable pub bytes_equal : Text → Text → Bool
bytes_equal a b = if not (length a == length b) then false else same_bytes a b

-- The three tests of `routeFrame`.
abbrev pub has_no_correlator : Waiter → Bool
has_no_correlator w = (length w.want_addr == 0) && (length w.want_uuid == 0)

abbrev pub addr_matches : Text → Waiter → Bool
addr_matches got_addr w = not (length w.want_addr == 0) && bytes_equal got_addr w.want_addr

abbrev pub uuid_matches : Text → Waiter → Bool
uuid_matches got_uuid w = not (length w.want_uuid == 0) && bytes_equal got_uuid w.want_uuid

unfoldable pub is_match : Text → Text → Waiter → Bool
unfolding bytes_equal
is_match got_addr got_uuid w =
    addr_matches got_addr w || uuid_matches got_uuid w || has_no_correlator w

-- The first waiter that matches, and the list without it.
unfoldable pub take_match : Text → Text → List Waiter → Option (Waiter × List Waiter)
take_match got_addr got_uuid [] = none
take_match got_addr got_uuid (w ∷ ws) = elim (is_match got_addr got_uuid w) [
  | true ↦ some (w, ws)
  | false ↦ elim (take_match got_addr got_uuid ws) [
    | none ↦ none
    | some (m, rest) ↦ some (m, w ∷ rest)
  ]
]

abbrev pub sub_capacity : ℕ
sub_capacity = 8

-- `select { case ch <- frame: default: }` on a channel of eight.
abbrev pub offer : Text → ℕ × List Text → ℕ × List Text
offer frame (id, queue) =
    if ltb (length queue) sub_capacity then (id, queue ++ frame ∷ []) else (id, queue)

abbrev pub is_answered : ℕ → List (Waiter × Text) → Bool
is_answered id [] = false
is_answered id ((w, f) ∷ sent) = w.id == id || is_answered id sent

-- The send on `w.deliver`, of capacity one: a second frame would be dropped.
abbrev deliver : Waiter → Text → List (Waiter × Text) → List (Waiter × Text)
deliver w frame answers = if is_answered w.id answers then answers else (w, frame) ∷ answers

abbrev route_to : Text → Pump → Option (Waiter × List Waiter) → Pump
route_to frame s none = record s { subs = map (offer frame) s.subs }
route_to frame s (some (w, rest)) = record s { waiters = rest; answers = deliver w frame s.answers }

-- `routeFrame` behind its two extractions.
unfoldable pub route_by : Text → Text → Text → Pump → Pump
unfolding take_match
route_by got_addr got_uuid frame s = route_to frame s (take_match got_addr got_uuid s.waiters)

-- A frame on which an extraction panics takes the process down; one on which it never ends stops
-- the pump for good.
pub data Routed : Type 0 where
  routed : Pump → Routed
  crashed hung : Routed

-- The bytes that an extractor returns, `nil` being the empty slice.
abbrev pub with_bytes : Scan → (Text → Routed) → Routed
with_bytes missing k = k []
with_bytes (found t) k = k t
with_bytes panics k = crashed
with_bytes stuck k = hung

unfoldable pub route_frame : Pump → Text → Routed
unfolding route_by
route_frame s frame = with_bytes (extract_routable_to_routing_address frame) (λ got_addr.
    with_bytes (extract_routable_request_uuid frame)
      (λ got_uuid. routed (route_by got_addr got_uuid frame s)))

-- `registerWaiter`: `none` is the error of a closed session.
unfoldable pub register_waiter : Pump → Text → Text → Option (ℕ × Pump)
register_waiter s want_addr want_uuid =
    if s.closed
    then none
    else some (
      s.next_waiter,
      record s {
        waiters =
            s.waiters
            ++ record { id = s.next_waiter; want_addr = want_addr; want_uuid = want_uuid } ∷ [];
        next_waiter = s.next_waiter + 1;
      },
    )

abbrev remove_waiter : ℕ → List Waiter → List Waiter
remove_waiter id [] = []
remove_waiter id (w ∷ ws) = let rest = remove_waiter id ws in if w.id == id then ws else w ∷ rest

unfoldable pub unregister_waiter : Pump → ℕ → Pump
unregister_waiter s id = record s { waiters = remove_waiter id s.waiters }

-- `subscribe` on a closed session returns a channel that is closed already.
unfoldable pub subscribe : Pump → ℕ × Pump
subscribe s =
    if s.closed
    then (s.sub_seq, record s { sub_seq = s.sub_seq + 1; ended_subs = s.sub_seq ∷ s.ended_subs })
    else (s.sub_seq, record s { sub_seq = s.sub_seq + 1; subs = s.subs ++ (s.sub_seq, []) ∷ [] })

abbrev pub has_sub : ℕ → List (ℕ × List Text) → Bool
has_sub id subs = any (λ c. c.0 == id) subs

unfoldable pub unsubscribe : Pump → ℕ → Pump
unsubscribe s id =
    if has_sub id s.subs
    then record s { subs = keep (λ c. not (c.0 == id)) s.subs; ended_subs = id ∷ s.ended_subs }
    else s

-- A subscriber reads one frame.
abbrev read_one : ℕ → ℕ × List Text → ℕ × List Text
read_one id (j, []) = (j, [])
read_one id (j, f ∷ queue) = if j == id then (j, queue) else (j, f ∷ queue)

unfoldable pub receive : Pump → ℕ → Pump
receive s id = record s { subs = map (read_one id) s.subs }

unfoldable pub shutdown_pump : Pump → Pump
shutdown_pump s = record s {
  closed = true;
  ended = map (λ w. w.id) s.waiters ++ s.ended;
  waiters = [];
  ended_subs = map (λ c. c.0) s.subs ++ s.ended_subs;
  subs = [];
}

-- What happens to a session, in any order.
pub data Op : Type 0 where
  frame_in : Text → Op
  register : Text → Text → Op
  unregister : ℕ → Op
  subscribe_op : Op
  unsubscribe_op : ℕ → Op
  receive_op : ℕ → Op
  shutdown : Op

abbrev after_register : Pump → Option (ℕ × Pump) → Pump
after_register s none = s
after_register s (some (id, s')) = s'

unfoldable pub step : Pump → Op → Routed
step s (frame_in frame) = route_frame s frame
step s (register a u) = routed (after_register s (register_waiter s a u))
step s (unregister id) = routed (unregister_waiter s id)
step s subscribe_op = routed (subscribe s).1
step s (unsubscribe_op id) = routed (unsubscribe s id)
step s (receive_op id) = routed (receive s id)
step s shutdown = routed (shutdown_pump s)

abbrev then_run : Routed → (Pump → Routed) → Routed
then_run (routed s) k = k s
then_run crashed k = crashed
then_run hung k = hung

unfoldable pub run : Pump → List Op → Routed
run s [] = routed s
run s (o ∷ os) = then_run (step s o) (λ s'. run s' os)
