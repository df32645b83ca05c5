-- ===== src/Prelude/Results.antt =====
-- crates/rnet-core/src/error.rs: the status codes, and the result type of fallible code.
-- The diagnostic text of an error is dropped: no code under review branches on it.
use mathlib.Core.Path.{◌≡◌, refl}
use mathlib.Core.Bool.{Bool, true, false}
use mathlib.Core.Option.{Option, none, some}
use mathlib.Core.Logic.{◌⊎◌, inl, inr}

pub data ErrorCode : Type 0 where
  ok_code invalid_argument invalid_handle invalid_state would_block timeout not_supported :
      ErrorCode
  io_error protocol_error message_too_large internal_panic handshake_required : ErrorCode
  handshake_failed auth_rejected peer_key_mismatch replay_detected crypto_error : ErrorCode
  rate_limited cancelled : ErrorCode

pub data Result {ℓ} (A : Type ℓ) : Type ℓ where
  ok : A → Result A
  err : ErrorCode → Result A

-- Fails with the code when the test holds: an early `return Err(..)`.
abbrev pub reject : Bool → ErrorCode → Result (Unit {0})
reject false code = ok tt
reject true code = err code

infixl 5 ◌>>=◌
abbrev pub ◌>>=◌ {ℓ κ} : {A : Type ℓ} {B : Type κ} → Result A → (A → Result B) → Result B
err code >>= next = err code
ok value >>= next = next value

infixl 5 ◌>>◌
abbrev pub ◌>>◌ {ℓ} : {B : Type ℓ} → Result (Unit {0}) → Result B → Result B
first >> second = first >>= λ done. second

abbrev pub ok_or {ℓ} : {A : Type ℓ} → Option A → ErrorCode → Result A
ok_or none e = err e
ok_or (some a) e = ok a

pub Result-cases {ℓ} :
    {A : Type ℓ} (r : Result A) → ((a : A) × (r ≡ ok a)) ⊎ ((e : ErrorCode) × (r ≡ err e))
Result-cases (ok a) = inl (a, refl)
Result-cases (err e) = inr (e, refl)

-- What a chain that succeeded went through.
pub chain_ok {ℓ κ} :
    {A : Type ℓ} {B : Type κ} (next : A → Result B) (first : Result A) {end : B}
    → (first >>= next) ≡ ok end
    → (value : A) × (next value ≡ ok end) × (first ≡ ok value)
chain_ok next (err code) reached = cc
chain_ok next (ok value) reached = (value, reached, refl)
