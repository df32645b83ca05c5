-- ===== src/Protocol/Control/Tests.antt =====
-- Security records on the wire.
use rnetlib.Prelude.{ℕ, ◌≡◌, ◌↔◌, refl, arith, some, List, [], ◌∷◌, ok}
use rnetlib.Prelude.Bytes.{from_be, from_le, all_bytes_sound}
use rnetlib.Protocol.Control.Kinds.{
  SecurityMode, mode_of, RecordKind, record_kind_of, ProtectedKind, protected_kind_of, ControlKind,
  control_kind_of,
}
use rnetlib.Protocol.Control.{
  Record, ProtectedMessage, Control, encode_record, decode_record, encode_protected,
  decode_protected, encode_control, decode_control, validate_payload_len, mode_byte,
}
use rnetlib.Protocol.Control.RoundTrip.{IsWellFormed}
use rnetlib.Protocol.Control.Canonical.{decode_record_iff, decode_protected_iff, decode_control_iff}

abbrev a_record : Record
a_record = record { kind = RecordKind.plain_data; epoch = 3; payload = 7 ∷ [] }

abbrev record_wire : List ℕ
record_wire =
    0x52 ∷ 0x4e ∷ 0x53 ∷ 0x32 ∷ 0 ∷ 1 ∷ 5 ∷ 0 ∷ 0 ∷ 0 ∷ 0 ∷ 0 ∷ 0 ∷ 0 ∷ 0 ∷ 3 ∷ 0 ∷ 0 ∷ 0 ∷ 1 ∷ 7
    ∷ []

record_encoded : encode_record a_record 8 ≡ ok record_wire
unfolding encode_record validate_payload_len
record_encoded = refl

record_decoded : decode_record record_wire 8 ≡ ok a_record
unfolding decode_record validate_payload_len record_kind_of from_be from_le
record_decoded = refl

decode_record_iff_example :
    (decode_record record_wire 8 ≡ ok a_record) ↔ (encode_record a_record 8 ≡ ok record_wire)
decode_record_iff_example =
    decode_record_iff record_wire 8 a_record (all_bytes_sound record_wire refl) (omega arith)

abbrev a_message : ProtectedMessage
a_message = record { kind = ProtectedKind.auth_ack; payload = 1 ∷ 2 ∷ [] }

abbrev message_wire : List ℕ
message_wire = 4 ∷ 0 ∷ 0 ∷ 0 ∷ 2 ∷ 1 ∷ 2 ∷ []

message_encoded : encode_protected a_message 8 ≡ ok message_wire
unfolding encode_protected validate_payload_len
message_encoded = refl

message_decoded : decode_protected message_wire 8 ≡ ok a_message
unfolding decode_protected validate_payload_len protected_kind_of from_be from_le
message_decoded = refl

decode_protected_iff_example :
    (decode_protected message_wire 8 ≡ ok a_message)
    ↔ (encode_protected a_message 8 ≡ ok message_wire)
decode_protected_iff_example =
    decode_protected_iff message_wire 8 a_message (all_bytes_sound message_wire refl)

abbrev proposal : Control
proposal = record {
  kind = ControlKind.switch_propose;
  epoch = 2;
  mode = some SecurityMode.plaintext;
}

abbrev proposal_wire : List ℕ
proposal_wire = 1 ∷ 1 ∷ 0 ∷ 0 ∷ 0 ∷ 0 ∷ 0 ∷ 0 ∷ 0 ∷ 2 ∷ []

proposal_decoded : decode_control proposal_wire ≡ ok proposal
unfolding decode_control control_kind_of mode_byte mode_of from_be from_le
proposal_decoded = refl

proposal-IsWellFormed : IsWellFormed proposal
proposal-IsWellFormed = (omega arith, omega arith, (λ missing. cc))

decode_control_iff_example :
    (decode_control proposal_wire ≡ ok proposal)
    ↔ (IsWellFormed proposal × (encode_control proposal ≡ proposal_wire))
decode_control_iff_example =
    decode_control_iff proposal_wire proposal (all_bytes_sound proposal_wire refl)
