-- ===== src/Protocol/Control.antt =====
-- crates/rnet-protocol/src/control.rs: security records, protected messages and transition controls.
pub mod Kinds
pub mod RoundTrip
pub mod Canonical
mod Tests
use rnetlib.Prelude.{
  ℕ, ◌+◌, Bool, not, ◌||◌, Option, none, some, List, [], ◌∷◌, ◌++◌, Result, ok, err, protocol_error,
  message_too_large, ◌>>=◌, ◌>>◌, reject, ok_or, ltb, ◌==◌, if◌then◌else◌, length, take, drop,
  u32_max, checked_add, get_elem?,
}
use rnetlib.Prelude.Bytes.{to_be, from_be, slice}
use Kinds.{
  SecurityMode, mode_code, mode_of, RecordKind, record_kind_code, record_kind_of, ProtectedKind,
  protected_kind_code, protected_kind_of, ControlKind, control_kind_code, control_kind_of,
}

abbrev pub magic : ℕ
magic = 0x524e_5332

abbrev pub version : ℕ
version = 1

abbrev pub header_len : ℕ
header_len = 20

abbrev pub control_len : ℕ
control_len = 10

abbrev pub protected_header_len : ℕ
protected_header_len = 5

pub record Record : Type 0 where
  pub kind : RecordKind
  pub epoch : ℕ
  pub payload : List ℕ

pub record ProtectedMessage : Type 0 where
  pub kind : ProtectedKind
  pub payload : List ℕ

pub record Control : Type 0 where
  pub kind : ControlKind
  pub epoch : ℕ
  pub mode : Option SecurityMode

-- The byte `input[i]`, after the length was checked.
abbrev pub byte_at : ℕ → List ℕ → ℕ
byte_at i input = from_be (slice i (i + 1) input)

pub validate_payload_len : ℕ → ℕ → Result (Unit {0})
validate_payload_len payload_len max_payload_len =
    reject (ltb max_payload_len payload_len || ltb u32_max payload_len) message_too_large

-- `u32::try_from(len)`
abbrev pub to_u32 : ℕ → Result ℕ
to_u32 n = if ltb u32_max n then err message_too_large else ok n

pub encode_protected : ProtectedMessage → ℕ → Result (List ℕ)
unfolding validate_payload_len
encode_protected message max_payload_len = do
  validate_payload_len (length message.payload) max_payload_len
  payload_len ← to_u32 (length message.payload)
  ok (protected_kind_code message.kind ∷ to_be 4 payload_len ++ message.payload)

pub decode_protected : List ℕ → ℕ → Result ProtectedMessage
unfolding validate_payload_len
decode_protected input max_payload_len = do
  reject (ltb (length input) protected_header_len) protocol_error
  kind ← protected_kind_of (byte_at 0 input)
  let payload_len = from_be (slice 1 5 input)
  validate_payload_len payload_len max_payload_len
  expected ← ok_or (checked_add protected_header_len payload_len) message_too_large
  reject (not (length input == expected)) protocol_error
  ok (record { kind = kind; payload = drop protected_header_len input })

pub encode_record : Record → ℕ → Result (List ℕ)
unfolding validate_payload_len
encode_record r max_payload_len = do
  validate_payload_len (length r.payload) max_payload_len
  payload_len ← to_u32 (length r.payload)
  ok (
      to_be 4 magic
      ++ to_be 2 version
      ++ (record_kind_code r.kind ∷ 0 ∷ [])
      ++ to_be 8 r.epoch
      ++ to_be 4 payload_len
      ++ r.payload)

pub decode_record : List ℕ → ℕ → Result Record
unfolding validate_payload_len
decode_record input max_payload_len = do
  reject (ltb (length input) header_len) protocol_error
  reject
      (not (from_be (slice 0 4 input) == magic)
        || (not (from_be (slice 4 6 input) == version) || not (byte_at 7 input == 0)))
      protocol_error
  kind ← record_kind_of (byte_at 6 input)
  let epoch = from_be (slice 8 16 input)
  let payload_len = from_be (slice 16 20 input)
  validate_payload_len payload_len max_payload_len
  expected ← ok_or (checked_add header_len payload_len) message_too_large
  reject (not (length input == expected)) protocol_error
  ok (record { kind = kind; epoch = epoch; payload = drop header_len input })

abbrev pub optional_mode_code : Option SecurityMode → ℕ
optional_mode_code none = 0
optional_mode_code (some mode) = mode_code mode

pub encode_control : Control → List ℕ
encode_control control =
    control_kind_code control.kind ∷ optional_mode_code control.mode ∷ to_be 8 control.epoch

-- The mode byte of a control: a mode for a proposal to switch, zero for every other barrier.
pub mode_byte : ControlKind → ℕ → Result (Option SecurityMode)
mode_byte ControlKind.switch_propose byte = do mode ← mode_of byte; ok (some mode)
mode_byte _ byte = if byte == 0 then ok none else err protocol_error

pub decode_control : List ℕ → Result Control
unfolding mode_byte
decode_control input = do
  reject (not (length input == control_len)) protocol_error
  kind ← control_kind_of (byte_at 0 input)
  let epoch = from_be (slice 2 10 input)
  reject (epoch == 0) protocol_error
  mode ← mode_byte kind (byte_at 1 input)
  ok (record { kind = kind; epoch = epoch; mode = mode })
