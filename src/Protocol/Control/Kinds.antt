-- ===== src/Protocol/Control/Kinds.antt =====
-- crates/rnet-protocol/src/control.rs: the enumerations of the wire and their codes.
use rnetlib.Prelude.{ℕ, ◌≡◌, refl, ok, err, Result, protocol_error, ◌==◌, if◌then◌else◌, arith}

pub data SecurityMode : Type 0 where
  plaintext encrypted : SecurityMode

abbrev pub mode_code : SecurityMode → ℕ
mode_code SecurityMode.plaintext = 1
mode_code SecurityMode.encrypted = 2

-- `TryFrom<u8>`, and so below.
unfoldable pub mode_of : ℕ → Result SecurityMode
mode_of value =
    if value == 1
    then ok SecurityMode.plaintext
    else if value == 2
    then ok SecurityMode.encrypted
    else err protocol_error

pub data RecordKind : Type 0 where
  client_hello server_hello handshake protected plain_data cookie_challenge : RecordKind

abbrev pub record_kind_code : RecordKind → ℕ
record_kind_code RecordKind.client_hello = 1
record_kind_code RecordKind.server_hello = 2
record_kind_code RecordKind.handshake = 3
record_kind_code RecordKind.protected = 4
record_kind_code RecordKind.plain_data = 5
record_kind_code RecordKind.cookie_challenge = 6

unfoldable pub record_kind_of : ℕ → Result RecordKind
record_kind_of value =
    if value == 1
    then ok RecordKind.client_hello
    else if value == 2
    then ok RecordKind.server_hello
    else if value == 3
    then ok RecordKind.handshake
    else if value == 4
    then ok RecordKind.protected
    else if value == 5
    then ok RecordKind.plain_data
    else if value == 6
    then ok RecordKind.cookie_challenge
    else err protocol_error

pub data ProtectedKind : Type 0 where
  auth_decision app_data control auth_ack game_control : ProtectedKind

abbrev pub protected_kind_code : ProtectedKind → ℕ
protected_kind_code ProtectedKind.auth_decision = 1
protected_kind_code ProtectedKind.app_data = 2
protected_kind_code ProtectedKind.control = 3
protected_kind_code ProtectedKind.auth_ack = 4
protected_kind_code ProtectedKind.game_control = 5

unfoldable pub protected_kind_of : ℕ → Result ProtectedKind
protected_kind_of value =
    if value == 1
    then ok ProtectedKind.auth_decision
    else if value == 2
    then ok ProtectedKind.app_data
    else if value == 3
    then ok ProtectedKind.control
    else if value == 4
    then ok ProtectedKind.auth_ack
    else if value == 5
    then ok ProtectedKind.game_control
    else err protocol_error

pub data ControlKind : Type 0 where
  switch_propose switch_ready switch_commit switch_ack : ControlKind
  rekey_propose rekey_ready rekey_commit rekey_ack : ControlKind

abbrev pub control_kind_code : ControlKind → ℕ
control_kind_code ControlKind.switch_propose = 1
control_kind_code ControlKind.switch_ready = 2
control_kind_code ControlKind.switch_commit = 3
control_kind_code ControlKind.switch_ack = 4
control_kind_code ControlKind.rekey_propose = 5
control_kind_code ControlKind.rekey_ready = 6
control_kind_code ControlKind.rekey_commit = 7
control_kind_code ControlKind.rekey_ack = 8

unfoldable pub control_kind_of : ℕ → Result ControlKind
control_kind_of value =
    if value == 1
    then ok ControlKind.switch_propose
    else if value == 2
    then ok ControlKind.switch_ready
    else if value == 3
    then ok ControlKind.switch_commit
    else if value == 4
    then ok ControlKind.switch_ack
    else if value == 5
    then ok ControlKind.rekey_propose
    else if value == 6
    then ok ControlKind.rekey_ready
    else if value == 7
    then ok ControlKind.rekey_commit
    else if value == 8
    then ok ControlKind.rekey_ack
    else err protocol_error

pub mode_of-code : (mode : SecurityMode) → mode_of (mode_code mode) ≡ ok mode
unfolding mode_of
mode_of-code SecurityMode.plaintext = refl
mode_of-code _ = refl

pub record_kind_of-code : (kind : RecordKind) → record_kind_of (record_kind_code kind) ≡ ok kind
unfolding record_kind_of
record_kind_of-code RecordKind.client_hello = refl
record_kind_of-code _ = refl

pub protected_kind_of-code :
    (kind : ProtectedKind) → protected_kind_of (protected_kind_code kind) ≡ ok kind
unfolding protected_kind_of
protected_kind_of-code ProtectedKind.auth_decision = refl
protected_kind_of-code _ = refl

pub control_kind_of-code : (kind : ControlKind) → control_kind_of (control_kind_code kind) ≡ ok kind
unfolding control_kind_of
control_kind_of-code ControlKind.switch_propose = refl
control_kind_of-code _ = refl

pub code-mode_of :
    (value : ℕ) {mode : SecurityMode} → mode_of value ≡ ok mode → mode_code mode ≡ value
unfolding mode_of
code-mode_of value e = ground arith

pub code-record_kind_of :
    (value : ℕ) {kind : RecordKind} → record_kind_of value ≡ ok kind → record_kind_code kind ≡ value
unfolding record_kind_of
code-record_kind_of value e = ground arith

pub code-protected_kind_of :
    (value : ℕ) {kind : ProtectedKind}
    → protected_kind_of value ≡ ok kind
    → protected_kind_code kind ≡ value
unfolding protected_kind_of
code-protected_kind_of value e = ground arith

pub code-control_kind_of :
    (value : ℕ) {kind : ControlKind}
    → control_kind_of value ≡ ok kind
    → control_kind_code kind ≡ value
unfolding control_kind_of
code-control_kind_of value e = ground arith
