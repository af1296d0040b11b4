-- ===== src/Gate.antt =====
-- internal/services/lockgate.go: the pure half of the lock-gated WiFi. A frame of the car becomes
-- a signal, signals fold into `GateState`, and `ap_should_be_up` says whether the access point may
-- stay up. Times are nanoseconds, and the zero `time.Time` is 0.
--
-- The protobuf package is not part of the repository. `Decoder` holds its two `proto.Unmarshal`
-- calls; the records are what the getters of a decoded message return. The enumerations are those
-- of client/proto/universal_message.proto and client/proto/vcsec.proto, and `other` is a number
-- that the schema does not name.
pub mod Fold
pub mod Diagnostic
mod Tests
use airgapp_rpi.Base.{
  ℕ, ◌+◌, ◌*◌, Bool, true, false, not, ◌&&◌, Option, none, some, List, [], ◌∷◌, ltb, length, take,
  if◌then◌else◌,
}
use airgapp_rpi.Base.Text.{Text}

pub data Domain : Type 0 where
  broadcast vehicle_security infotainment : Domain
  other_domain : ℕ → Domain

pub data LockState : Type 0 where
  unlocked locked internal_locked selective_unlocked : LockState
  other_lock : ℕ → LockState

pub data UserPresence : Type 0 where
  unknown not_present present : UserPresence
  other_presence : ℕ → UserPresence

pub data SignatureData : Type 0 where
  aes_gcm_response other_signature : SignatureData

-- What `DecodeLockSignal` and `DescribeFrame` read of a `universal.RoutableMessage`.
pub record RoutableMessage : Type 0 where
  pub from_domain : Domain
  pub from_address : Text
  pub to_domain : Domain
  pub request_uuid : Text
  pub signature_data : Option SignatureData
  pub payload : Text
  pub session_info : Text
  pub message_status : Option ℕ
  pub unknown_fields : Text

pub record VehicleStatus : Type 0 where
  pub lock_state : LockState
  pub user_presence : UserPresence

-- The `sub_message` of a `vcsec.FromVCSECMessage`: none, a status, or another one.
pub data SubMessage : Type 0 where
  no_message : SubMessage
  status_message : VehicleStatus → SubMessage
  other_message : ℕ → SubMessage

-- `proto.Unmarshal` into the two message types, `none` for an error.
pub record Decoder : Type 0 where
  pub routable : Text → Option RoutableMessage
  pub vcsec : Text → Option SubMessage

-- `LockSignal`: its `Kind`, with the two flags where they have a meaning.
pub data LockSignal : Type 0 where
  signal_none : LockSignal
  signal_status : Bool → Bool → LockSignal
  signal_activity : LockSignal

abbrev pub is_vehicle_security : Domain → Bool
is_vehicle_security vehicle_security = true
is_vehicle_security _ = false

abbrev pub is_locked : LockState → Bool
is_locked locked = true
is_locked _ = false

abbrev pub is_not_present : UserPresence → Bool
is_not_present not_present = true
is_not_present _ = false

-- `GetSignatureData().GetAES_GCM_ResponseData() != nil`
abbrev pub is_sealed : Option SignatureData → Bool
is_sealed (some aes_gcm_response) = true
is_sealed _ = false

-- What a decoded payload says: a status push, or other traffic of the car.
abbrev pub signal_of : Option SubMessage → LockSignal
signal_of none = signal_none
signal_of (some (status_message vs)) =
    signal_status (is_locked vs.lock_state) (not (is_not_present vs.user_presence))
signal_of (some _) = signal_activity

abbrev pub is_empty : Text → Bool
is_empty [] = true
is_empty (_ ∷ _) = false

module _ (d : Decoder) where
  -- The guards after the first `Unmarshal`, in the order of the code.
  pub decode_message : RoutableMessage → LockSignal
  decode_message rm =
      if not (is_vehicle_security rm.from_domain)
      then signal_none
      else if not (is_empty rm.request_uuid)
      then signal_none
      else if is_sealed rm.signature_data
      then signal_none
      else if is_empty rm.payload
      then signal_none
      else signal_of (d.vcsec rm.payload)

  abbrev decode_routable : Option RoutableMessage → LockSignal
  unfolding decode_message
  decode_routable none = signal_none
  decode_routable (some rm) = decode_message rm

  unfoldable pub decode_lock_signal : Text → LockSignal
  unfolding decode_message
  decode_lock_signal frame = decode_routable (d.routable frame)

abbrev pub second : ℕ
second = 1_000_000_000

abbrev pub minute : ℕ
minute = 60 * second

-- `ActivityLease`
abbrev pub activity_lease : ℕ
activity_lease = 3 * minute

pub record GateState : Type 0 where
  pub have_status : Bool
  pub locked : Bool
  pub present : Bool
  pub activity_until : ℕ

-- `GateState{}`
abbrev pub empty_gate : GateState
empty_gate = record { have_status = false; locked = false; present = false; activity_until = 0 }

unfoldable pub apply : GateState → LockSignal → ℕ → GateState
apply g signal_none now = g
apply g (signal_status l p) now = record g { have_status = true; locked = l; present = p }
apply g signal_activity now = record g { activity_until = now + activity_lease }

unfoldable pub ap_should_be_up : GateState → ℕ → Bool
ap_should_be_up g now =
    if not g.have_status
    then true
    else if ltb now g.activity_until
    then true
    else not (g.locked && not g.present)

-- The strings that `DescribeFrame` joins, each with what its format prints.
pub data Part : Type 0 where
  empty_frame : Part
  not_routable : ℕ → Text → Part
  frame_length : ℕ → Part
  from_domain_is to_domain_is : Domain → Part
  from_routing_address request_uuid_set sealed signature_present : Part
  payload_length : ℕ → Part
  payload_not_vcsec vcsec_no_submessage : Part
  vcsec_submessage : SubMessage → Part
  session_info_length message_status_is : ℕ → Part
  no_modelled_payload : Part
  unknown_fields_are : ℕ → Text → Part
  raw_frame : Text → Part

-- `if cond { parts = append(parts, p) }`, in front of the parts that follow.
abbrev part_if : Bool → Part → List Part → List Part
part_if true p rest = p ∷ rest
part_if false p rest = rest

abbrev signature_parts : Option SignatureData → List Part → List Part
signature_parts none rest = rest
signature_parts (some aes_gcm_response) rest = sealed ∷ rest
signature_parts (some other_signature) rest = signature_present ∷ rest

abbrev payload_parts : Option SubMessage → List Part
payload_parts none = payload_not_vcsec ∷ []
payload_parts (some no_message) = vcsec_no_submessage ∷ []
payload_parts (some sub) = vcsec_submessage sub ∷ []

abbrev status_parts : Text → RoutableMessage → Option ℕ → List Part
status_parts frame rm (some st) = message_status_is st ∷ []
status_parts frame rm none =
    no_modelled_payload
    ∷ (if is_empty rm.unknown_fields
        then raw_frame frame
        else unknown_fields_are (length rm.unknown_fields) rm.unknown_fields)
    ∷ []

module _ (d : Decoder) where
  -- The `switch` at the end of `DescribeFrame`.
  abbrev tail_parts : Text → RoutableMessage → List Part
  tail_parts frame rm =
      if not (is_empty rm.payload)
      then payload_length (length rm.payload) ∷ payload_parts (d.vcsec rm.payload)
      else if not (is_empty rm.session_info)
      then session_info_length (length rm.session_info) ∷ []
      else status_parts frame rm rm.message_status

  abbrev message_parts : Text → RoutableMessage → List Part
  message_parts frame rm =
      frame_length (length frame)
      ∷ from_domain_is rm.from_domain
      ∷ part_if (not (is_empty rm.from_address)) from_routing_address (
          to_domain_is rm.to_domain
          ∷ part_if (not (is_empty rm.request_uuid)) request_uuid_set
              (signature_parts rm.signature_data (tail_parts frame rm)))

  abbrev routable_parts : Text → Option RoutableMessage → List Part
  routable_parts frame none = not_routable (length frame) (take 16 frame) ∷ []
  routable_parts frame (some rm) = message_parts frame rm

  unfoldable pub describe_frame : Text → List Part
  describe_frame [] = empty_frame ∷ []
  describe_frame (b ∷ bs) = routable_parts (b ∷ bs) (d.routable (b ∷ bs))
