-- ===== src/Protocol/Control/RoundTrip.antt =====
-- The encoders of crates/rnet-protocol/src/control.rs against their decoders.
use rnetlib.Prelude.{
  ℕ, ◌+◌, ◌≤◌, ◌<◌, ◌^◌, ◌≡◌, ◌≢◌, refl, sym, ap, List, [], ◌∷◌, ◌++◌, ok, arith, length, drop,
  u32_max, length-drop, drop_all, Result-cases, inl, inr, Option, none, some,
}
use rnetlib.Prelude.Bytes.{
  to_be, from_be, slice, from_be-to_be, from_be_single, IsBytes, rebuild-field, rebuild-byte,
  from_be-slice-lt,
}
use rnetlib.Protocol.Control.Kinds.{
  SecurityMode, mode_code, mode_of, record_kind_code, record_kind_of, protected_kind_code,
  protected_kind_of, ControlKind, control_kind_code, control_kind_of, mode_of-code,
  record_kind_of-code, protected_kind_of-code, control_kind_of-code, code-mode_of,
  code-record_kind_of, code-protected_kind_of, code-control_kind_of,
}
use rnetlib.Protocol.Control.{
  Record, ProtectedMessage, Control, magic, version, byte_at, validate_payload_len,
  encode_protected, decode_protected, encode_record, decode_record, optional_mode_code,
  encode_control, mode_byte, decode_control,
}

record_bytes : Record → List ℕ
record_bytes r =
    to_be 4 magic
    ++ to_be 2 version
    ++ (record_kind_code r.kind ∷ 0 ∷ [])
    ++ to_be 8 r.epoch
    ++ to_be 4 (length r.payload)
    ++ r.payload

encode_record-parts :
    (r : Record) (m : ℕ) {wire : List ℕ}
    → encode_record r m ≡ ok wire
    → (wire ≡ record_bytes r) × (length r.payload ≤ m) × (length r.payload ≤ u32_max)
unfolding encode_record validate_payload_len record_bytes
encode_record-parts r m e = ground arith

-- A record that `encode_record` accepts is decoded to itself.
pub decode-encode_record :
    (r : Record) (max_payload_len : ℕ) {wire : List ℕ}
    → r.epoch < 2 ^ 64
    → encode_record r max_payload_len ≡ ok wire
    → decode_record wire max_payload_len ≡ ok r
unfolding decode_record validate_payload_len record_bytes
decode-encode_record r m {wire} small e =
    let (shape, fits, short) = encode_record-parts r m e in
    rw
      (
        shape,
        from_be-to_be 4 magic (omega arith),
        from_be-to_be 2 version (omega arith),
        from_be-to_be 8 r.epoch small,
        from_be-to_be 4 (length r.payload) (omega arith),
        from_be_single (record_kind_code r.kind),
        from_be_single 0,
        record_kind_of-code r.kind,
      )
      (ground arith)

-- What `decode_record` read, when it accepts a record.
decode_record-parts :
    (wire : List ℕ) (m : ℕ) {r : Record}
    → decode_record wire m ≡ ok r
    → (20 ≤ length wire)
      × (from_be (slice 0 4 wire) ≡ magic)
      × (from_be (slice 4 6 wire) ≡ version)
      × (record_kind_of (byte_at 6 wire) ≡ ok r.kind)
      × (byte_at 7 wire ≡ 0)
      × (from_be (slice 8 16 wire) ≡ r.epoch)
      × (from_be (slice 16 20 wire) ≤ m)
      × (from_be (slice 16 20 wire) ≤ u32_max)
      × (length wire ≡ 20 + from_be (slice 16 20 wire))
      × (drop 20 wire ≡ r.payload)
unfolding decode_record validate_payload_len
decode_record-parts wire m e = ground arith

-- A record that `decode_record` accepts is encoded to the bytes that it was read from.
pub encode-decode_record :
    (wire : List ℕ) (max_payload_len : ℕ) {r : Record}
    → IsBytes wire
    → decode_record wire max_payload_len ≡ ok r
    → encode_record r max_payload_len ≡ ok wire
unfolding encode_record validate_payload_len record_bytes
encode-decode_record wire m {r} b e =
    let (long, e₁, e₂, kind, e₄, e₅, fits, short, exact, rest) = decode_record-parts wire m e in
    let e₃ = sym (code-record_kind_of (byte_at 6 wire) kind) in
    let e₆ : from_be (slice 16 20 wire) ≡ length r.payload =
      omega (arith, ap length rest, length-drop 20 wire) in
    let whole : wire ≡ record_bytes r =
      rebuild-field 0 4 magic wire _ b (omega arith) (omega arith) e₁ (
        rebuild-field 4 6 version wire _ b (omega arith) (omega arith) e₂ (
          rebuild-byte 6 _ wire _ (omega arith) e₃ (
            rebuild-byte 7 0 wire _ (omega arith) e₄ (
              rebuild-field 8 16 r.epoch wire _ b (omega arith) (omega arith) e₅
                (rebuild-field 16 20 (length r.payload) wire _ b long (omega arith) e₆ rest))))) in
    rw whole (ground arith)

encode_protected-parts :
    (message : ProtectedMessage) (m : ℕ) {wire : List ℕ}
    → encode_protected message m ≡ ok wire
    → (wire
        ≡ protected_kind_code message.kind ∷ to_be 4 (length message.payload) ++ message.payload)
      × (length message.payload ≤ m)
      × (length message.payload ≤ u32_max)
unfolding encode_protected validate_payload_len
encode_protected-parts message m e = ground arith

-- A protected message that `encode_protected` accepts is decoded to itself.
pub decode-encode_protected :
    (message : ProtectedMessage) (max_payload_len : ℕ) {wire : List ℕ}
    → encode_protected message max_payload_len ≡ ok wire
    → decode_protected wire max_payload_len ≡ ok message
unfolding decode_protected validate_payload_len
decode-encode_protected message m {wire} e =
    let (shape, fits, short) = encode_protected-parts message m e in
    rw
      (
        shape,
        from_be-to_be 4 (length message.payload) (omega arith),
        from_be_single (protected_kind_code message.kind),
        protected_kind_of-code message.kind,
      )
      (ground arith)

decode_protected-parts :
    (wire : List ℕ) (m : ℕ) {message : ProtectedMessage}
    → decode_protected wire m ≡ ok message
    → (5 ≤ length wire)
      × (byte_at 0 wire ≡ protected_kind_code message.kind)
      × (from_be (slice 1 5 wire) ≡ length message.payload)
      × (length message.payload ≤ m)
      × (length message.payload ≤ u32_max)
      × (drop 5 wire ≡ message.payload)
unfolding decode_protected validate_payload_len
decode_protected-parts wire m e = elim (Result-cases (protected_kind_of (byte_at 0 wire))) [
  | inl (kind, found) ↦
      ground (arith, code-protected_kind_of (byte_at 0 wire) found, length-drop 5 wire)
  | inr (code, failed) ↦ ground arith
]

-- A message that `decode_protected` accepts is encoded to the bytes that it was read from.
pub encode-decode_protected :
    (wire : List ℕ) (max_payload_len : ℕ) {message : ProtectedMessage}
    → IsBytes wire
    → decode_protected wire max_payload_len ≡ ok message
    → encode_protected message max_payload_len ≡ ok wire
unfolding encode_protected validate_payload_len
encode-decode_protected wire m {message} b e =
    let (long, e₁, e₂, fits, short, rest) = decode_protected-parts wire m e in
    let whole : wire
        ≡ protected_kind_code message.kind ∷ to_be 4 (length message.payload) ++ message.payload =
      rebuild-byte 0 _ wire _ (omega arith) e₁
        (rebuild-field 1 5 (length message.payload) wire _ b long (omega arith) e₂ rest) in
    rw whole (ground arith)

-- A proposal to switch names a mode, and no other barrier does.
abbrev pub HasItsMode : ControlKind → Option SecurityMode → Type 0
HasItsMode ControlKind.switch_propose mode = mode ≢ none
HasItsMode _ mode = mode ≡ none

abbrev pub IsWellFormed : Control → Type 0
IsWellFormed control =
    (control.epoch ≢ 0) × (control.epoch < 2 ^ 64) × HasItsMode control.kind control.mode

mode_byte-code :
    (kind : ControlKind) (mode : Option SecurityMode)
    → HasItsMode kind mode
    → mode_byte kind (optional_mode_code mode) ≡ ok mode
unfolding mode_byte
mode_byte-code ControlKind.switch_propose none h = absurd (h refl)
mode_byte-code ControlKind.switch_propose (some mode) h = rw (mode_of-code mode)
mode_byte-code _ none h = refl
mode_byte-code _ (some mode) h = cc

code-mode_byte :
    (kind : ControlKind) (byte : ℕ) {mode : Option SecurityMode}
    → mode_byte kind byte ≡ ok mode
    → HasItsMode kind mode × (optional_mode_code mode ≡ byte)
unfolding mode_byte
code-mode_byte ControlKind.switch_propose byte e = elim (Result-cases (mode_of byte)) [
  | inl (mode, found) ↦ ground (arith, code-mode_of byte found)
  | inr (code, failed) ↦ ground arith
]
code-mode_byte _ byte e = ground arith

-- A well-formed control is decoded to itself.
pub decode-encode_control :
    (control : Control)
    → IsWellFormed control
    → decode_control (encode_control control) ≡ ok control
unfolding decode_control encode_control
decode-encode_control control (nonzero, small, its_mode) =
    rw
      (
        from_be_single (control_kind_code control.kind),
        from_be_single (optional_mode_code control.mode),
        control_kind_of-code control.kind,
        from_be-to_be 8 control.epoch small,
        mode_byte-code control.kind control.mode its_mode,
      )
      (ground arith)

decode_control-parts :
    (wire : List ℕ) {control : Control}
    → decode_control wire ≡ ok control
    → (length wire ≡ 10)
      × (control_kind_of (byte_at 0 wire) ≡ ok control.kind)
      × (from_be (slice 2 10 wire) ≡ control.epoch)
      × (control.epoch ≢ 0)
      × (mode_byte control.kind (byte_at 1 wire) ≡ ok control.mode)
unfolding decode_control
decode_control-parts wire e = ground arith

-- The bytes that `decode_control` accepts are those of a well-formed control, and it returns this one.
pub encode-decode_control :
    (wire : List ℕ) {control : Control}
    → IsBytes wire
    → decode_control wire ≡ ok control
    → IsWellFormed control × (encode_control control ≡ wire)
unfolding encode_control
encode-decode_control wire {control} b e =
    let (exact, kind, epoch, nonzero, mode) = decode_control-parts wire e in
    let (its_mode, mode_code) = code-mode_byte control.kind (byte_at 1 wire) mode in
    let small : control.epoch < 2 ^ 64 =
      omega (arith, epoch, from_be-slice-lt 2 10 wire b (omega arith)) in
    let whole =
      rebuild-byte 0 (control_kind_code control.kind) wire _ (omega arith)
        (sym (code-control_kind_of (byte_at 0 wire) kind))
        (rebuild-byte 1 (optional_mode_code control.mode) wire _ (omega arith) (sym mode_code) (
          rebuild-field 2 10 control.epoch wire [] b (omega arith) (omega arith) epoch
            (drop_all 10 wire (omega arith)))) in
    ((nonzero, small, its_mode), sym whole)
