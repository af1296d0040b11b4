-- ===== src/Wire/Tests.antt =====
-- The wire format on concrete bytes.
use airgapp_rpi.Base.{◌^◌, ◌<◌, ◌≡◌, List, [], ◌∷◌, arith, length}
use airgapp_rpi.Wire.{scan_proto_field, scan_from, stuck, panics}
use airgapp_rpi.Wire.Varint.{encode_varint, groups}
use airgapp_rpi.Wire.Message.{
  Field, varint, bytes, encode_message, first_bytes, scan-encode_message,
}
use airgapp_rpi.Wire.Hostile.{claim, back_length, scan-hangs, scan-panics}

abbrev fields : List Field
fields = varint 1 300 ∷ bytes 51 (1 ∷ 2 ∷ 3 ∷ []) ∷ []

fields-small : length (encode_message fields) < 2 ^ 63
unfolding encode_varint groups
fields-small = omega arith

scan-encode_message_example : scan_proto_field (encode_message fields) 51 2 ≡ first_bytes 51 fields
scan-encode_message_example =
    scan-encode_message 51 fields ((omega arith, omega arith), ((omega arith, omega arith), tt))
      fields-small

claim-small : length (claim 7 (back_length 7) []) < 2 ^ 63
unfolding encode_varint groups
claim-small = omega arith

scan-hangs_example : scan_from 1000 (claim 7 (back_length 7) []) 0 6 2 ≡ stuck
scan-hangs_example = scan-hangs 1000 7 6 [] (omega arith) (λ e. absurd (omega arith)) claim-small

wanted-small : length (claim 51 (2 ^ 63) (1 ∷ [])) < 2 ^ 63
unfolding encode_varint groups
wanted-small = omega arith

scan-panics_example : scan_proto_field (claim 51 (2 ^ 63) (1 ∷ [])) 51 2 ≡ panics
scan-panics_example =
    scan-panics 51 (2 ^ 63) (1 ∷ []) (omega arith) (omega arith) (omega arith) wanted-small
