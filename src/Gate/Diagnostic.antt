-- ===== src/Gate/Diagnostic.antt =====
-- The decoder's guards, and that the diagnostic names the guard that refused a frame.
use airgapp_rpi.Base.{
  ℕ, ◌≡◌, refl, ◌≢◌, Bool, true, false, not, Option, none, some, [], ◌∷◌, arith, any, Option-cases,
  inl, inr,
}
use airgapp_rpi.Base.Text.{Text}
use airgapp_rpi.Gate.{
  vehicle_security, aes_gcm_response, RoutableMessage, VehicleStatus, SubMessage, no_message,
  status_message, other_message, Decoder, LockSignal, signal_none, signal_status,
  is_vehicle_security, is_locked, is_not_present, decode_message, decode_lock_signal, Part,
  empty_frame, not_routable, from_domain_is, request_uuid_set, sealed, payload_not_vcsec,
  session_info_length, message_status_is, no_modelled_payload, describe_frame, payload_parts,
  status_parts, message_parts, signal_of,
}

-- What a frame is that counts as a status push: a message of the vehicle security domain without a
-- request UUID and without an AES-GCM response signature, whose payload decodes to a status.
pub record IsStatusPush (d : Decoder) (frame : Text) (l p : Bool) : Type 0 where
  pub rm : RoutableMessage
  pub vs : VehicleStatus
  pub decodes : d.routable frame ≡ some rm
  pub from_car : rm.from_domain ≡ vehicle_security
  pub no_request : rm.request_uuid ≡ []
  pub plain : rm.signature_data ≢ some aes_gcm_response
  pub carries : d.vcsec rm.payload ≡ some (status_message vs)
  pub lock : l ≡ is_locked vs.lock_state
  pub presence : p ≡ not (is_not_present vs.user_presence)

-- The parts of a description that name a reason to ignore the frame.
abbrev is_reason : Part → Bool
is_reason empty_frame = true
is_reason (not_routable n head) = true
is_reason (from_domain_is dom) = not (is_vehicle_security dom)
is_reason request_uuid_set = true
is_reason sealed = true
is_reason payload_not_vcsec = true
is_reason (session_info_length n) = true
is_reason (message_status_is n) = true
is_reason no_modelled_payload = true
is_reason _ = false

abbrev is_none : LockSignal → Bool
is_none signal_none = true
is_none _ = false

any-payload_parts :
    (o : Option SubMessage) → any is_reason (payload_parts o) ≡ is_none (signal_of o)
any-payload_parts none = refl
any-payload_parts (some no_message) = refl
any-payload_parts (some (status_message vs)) = refl
any-payload_parts (some (other_message k)) = refl

any-status_parts :
    (frame : Text) (rm : RoutableMessage) (st : Option ℕ)
    → any is_reason (status_parts frame rm st) ≡ true
any-status_parts frame rm none = refl
any-status_parts frame rm (some st) = refl

signal_of-status :
    (o : Option SubMessage) (l p : Bool)
    → signal_of o ≡ signal_status l p
    → (vs : VehicleStatus) × (o ≡ some (status_message vs))
      × (l ≡ is_locked vs.lock_state)
      × (p ≡ not (is_not_present vs.user_presence))
signal_of-status none l p h = cc
signal_of-status (some no_message) l p h = cc
signal_of-status (some (status_message vs)) l p h = (vs, refl, ground arith, ground arith)
signal_of-status (some (other_message k)) l p h = cc

module _ (d : Decoder) where
  describe-message :
      (frame : Text) (rm : RoutableMessage)
      → any is_reason (message_parts d frame rm) ≡ is_none (decode_message d rm)
  unfolding decode_message
  describe-message frame rm =
      ground
        (arith, any-payload_parts (d.vcsec rm.payload), any-status_parts frame rm rm.message_status)

  -- For every frame that is not empty, the description holds a reason exactly when the decoder
  -- answers that the frame carries no signal.
  describe-decode :
      (b : ℕ) (bs : Text)
      → any is_reason (describe_frame d (b ∷ bs)) ≡ is_none (decode_lock_signal d (b ∷ bs))
  unfolding describe_frame decode_lock_signal
  describe-decode b bs = elim (Option-cases (d.routable (b ∷ bs))) [
    | inl e ↦ rw e
    | inr (rm, e) ↦ rw e (describe-message (b ∷ bs) rm)
  ]

  decode_message-guards :
      (rm : RoutableMessage) (l p : Bool)
      → decode_message d rm ≡ signal_status l p
      → (rm.from_domain ≡ vehicle_security)
        × (rm.request_uuid ≡ [])
        × (rm.signature_data ≢ some aes_gcm_response)
        × (signal_of (d.vcsec rm.payload) ≡ signal_status l p)
  unfolding decode_message
  decode_message-guards rm l p h = (ground arith, ground arith, λ e. ground arith, ground arith)

  -- A frame is read as a status only if it is a message of the vehicle security domain whose request
  -- UUID is empty, whose signature is not that of an AES-GCM response, and whose payload decodes to a
  -- status; and the flags are those of that status: locked only for the state LOCKED, present for
  -- everything but NOT_PRESENT. An answer to a request that leaves the UUID empty passes as well.
  pub decode-IsStatusPush :
      (frame : Text) (l p : Bool)
      → decode_lock_signal d frame ≡ signal_status l p
      → IsStatusPush d frame l p
  unfolding decode_lock_signal
  decode-IsStatusPush frame l p h = elim (Option-cases (d.routable frame)) [
    | inl e ↦ absurd (cc (rw e at h))
    | inr (rm, e) ↦
        let (domain, uuid, open_data, sig) = decode_message-guards rm l p (rw e at h) in
        let (vs, body, lock, presence) = signal_of-status (d.vcsec rm.payload) l p sig in
        record {
          rm = rm;
          vs = vs;
          decodes = e;
          from_car = domain;
          no_request = uuid;
          plain = open_data;
          carries = body;
          lock = lock;
          presence = presence;
        }
  ]
