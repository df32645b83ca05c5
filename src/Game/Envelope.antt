-- ===== src/Game/Envelope.antt =====
-- crates/rnet-game/src/envelope.rs: the game envelope inside a frame body.
pub mod RoundTrip
pub mod Canonical
mod Tests
use Prim.Native.Nat.{bit_and, bit_or}
use rnetlib.Prelude.{
  ℕ, ◌+◌, ◌-◌, ◌*◌, Bool, not, ◌&&◌, ◌||◌, Option, none, some, List, [], ◌∷◌, ◌++◌, Result, ok, err,
  protocol_error, message_too_large, ◌>>=◌, ◌>>◌, reject, ok_or, ltb, ◌==◌, if◌then◌else◌, length,
  take, drop, checked_add, is_some,
}
use rnetlib.Prelude.Bytes.{to_be, from_be, slice}

abbrev pub header_len : ℕ
header_len = 12

abbrev pub application : ℕ
application = 0

abbrev pub heartbeat : ℕ
heartbeat = 1

abbrev pub clock_sync : ℕ
clock_sync = 2

abbrev pub resume : ℕ
resume = 3

abbrev pub protocol : ℕ
protocol = 4

abbrev pub has_sequence : ℕ
has_sequence = 1

abbrev pub has_tick : ℕ
has_tick = 2

abbrev pub has_datagram_sequence : ℕ
has_datagram_sequence = 4

abbrev pub supported_flags : ℕ
supported_flags = 7

pub data ControlKind : Type 0 where
  heartbeat_control clock_sync_control resume_control protocol_control : ControlKind

pub record Application : Type 0 where
  pub sequence : Option ℕ
  pub tick : Option ℕ
  pub datagram_sequence : Option ℕ
  pub payload : List ℕ

pub data DecodedEnvelope : Type 0 where
  app : Application → DecodedEnvelope
  control : ControlKind → List ℕ → DecodedEnvelope

abbrev pub or_zero : Option ℕ → ℕ
or_zero none = 0
or_zero (some n) = n

-- The optional extension of the header.
abbrev extension : Option ℕ → List ℕ
extension none = []
extension (some n) = to_be 4 n

abbrev pub wire_kind : ControlKind → ℕ
wire_kind ControlKind.heartbeat_control = heartbeat
wire_kind ControlKind.clock_sync_control = clock_sync
wire_kind ControlKind.resume_control = resume
wire_kind ControlKind.protocol_control = protocol

unfoldable pub encode : ℕ → ℕ → ℕ → ℕ → Option ℕ → List ℕ → ℕ → Result (List ℕ)
encode kind flags sequence tick datagram_sequence payload maximum_len = do
  let total_header_len = header_len + (if is_some datagram_sequence then 4 else 0)
  encoded_len ← ok_or (checked_add total_header_len (length payload)) message_too_large
  reject (ltb maximum_len encoded_len) message_too_large
  ok (
      kind ∷ flags ∷ to_be 2 total_header_len
      ++ to_be 4 sequence
      ++ to_be 4 tick
      ++ extension datagram_sequence
      ++ payload)

-- `flags |= flag` when the value is there.
abbrev pub set_flag : ℕ → Option ℕ → ℕ → ℕ
set_flag flags value flag = if is_some value then bit_or flags flag else flags

pub encode_application : List ℕ → Option ℕ → Option ℕ → ℕ → Result (List ℕ)
unfolding encode
encode_application payload sequence tick maximum_len =
    let flags = set_flag (set_flag 0 sequence has_sequence) tick has_tick in
    encode application flags (or_zero sequence) (or_zero tick) none payload maximum_len

pub encode_udp_application : List ℕ → Option ℕ → Option ℕ → ℕ → ℕ → Result (List ℕ)
unfolding encode
encode_udp_application payload sequence tick datagram_sequence maximum_len =
    let flags = set_flag (set_flag has_datagram_sequence sequence has_sequence) tick has_tick in
    encode application flags (or_zero sequence) (or_zero tick) (some datagram_sequence) payload
      maximum_len

unfoldable pub encode_control : ControlKind → List ℕ → ℕ → Result (List ℕ)
unfolding encode
encode_control kind payload maximum_len = encode (wire_kind kind) 0 0 0 none payload maximum_len

abbrev pub has_flag : ℕ → ℕ → Bool
has_flag flags flag = not (bit_and flags flag == 0)

abbrev pub then_some : Bool → ℕ → Option ℕ
then_some test value = if test then some value else none

-- The end of `decode` for a business message.
pub decode_application : ℕ → ℕ → ℕ → Option ℕ → List ℕ → Result DecodedEnvelope
decode_application flags sequence tick datagram_sequence payload =
    if not (has_flag flags has_sequence) && not (sequence == 0)
    then err protocol_error
    else if not (has_flag flags has_tick) && not (tick == 0)
    then err protocol_error
    else ok (
        app (record {
          sequence = then_some (has_flag flags has_sequence) sequence;
          tick = then_some (has_flag flags has_tick) tick;
          datagram_sequence = datagram_sequence;
          payload = payload;
        }))

pub control_kind_of : ℕ → Result ControlKind
control_kind_of kind =
    if kind == heartbeat
    then ok ControlKind.heartbeat_control
    else if kind == clock_sync
    then ok ControlKind.clock_sync_control
    else if kind == resume
    then ok ControlKind.resume_control
    else if kind == protocol
    then ok ControlKind.protocol_control
    else err protocol_error

-- The end of `decode` for a control of the library.
pub decode_control : ℕ → ℕ → ℕ → ℕ → List ℕ → Result DecodedEnvelope
unfolding control_kind_of
decode_control kind flags sequence tick payload = do
  reject (not (flags == 0) || (not (sequence == 0) || not (tick == 0))) protocol_error
  control_kind ← control_kind_of kind
  ok (control control_kind payload)

-- The extension with the sequence of the datagram, which only a business message may carry.
pub read_extension : ℕ → ℕ → List ℕ → Result (Option ℕ)
read_extension kind flags input =
    if has_flag flags has_datagram_sequence
    then (if kind == application
        then ok (some (from_be (slice 12 16 input)))
        else err protocol_error)
    else ok none

-- The end of `decode`, once the header is accepted.
pub decode_body : ℕ → ℕ → ℕ → ℕ → Option ℕ → List ℕ → Result DecodedEnvelope
unfolding decode_application decode_control
decode_body kind flags sequence tick datagram_sequence payload =
    if kind == application
    then decode_application flags sequence tick datagram_sequence payload
    else decode_control kind flags sequence tick payload

pub decode : List ℕ → ℕ → Result DecodedEnvelope
decode input maximum_len = do
  reject (ltb maximum_len (length input)) message_too_large
  reject (ltb (length input) header_len) protocol_error
  let kind = from_be (slice 0 1 input)
  let flags = from_be (slice 1 2 input)
  reject (not (bit_and flags (0xff - supported_flags) == 0)) protocol_error
  let wire_header_len = from_be (slice 2 4 input)
  let expected_header_len =
      if has_flag flags has_datagram_sequence then header_len + 4 else header_len
  reject (not (wire_header_len == expected_header_len) || ltb (length input) wire_header_len)
      protocol_error
  let sequence = from_be (slice 4 8 input)
  let tick = from_be (slice 8 12 input)
  datagram_sequence ← read_extension kind flags input
  let payload = drop wire_header_len input
  decode_body kind flags sequence tick datagram_sequence payload
