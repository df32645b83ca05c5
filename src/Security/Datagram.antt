-- ===== src/Security/Datagram.antt =====
-- crates/rnet-security/src/lib.rs: datagrams with explicit nonces. The cipher of the snow crate is a
-- parameter: what `write_message` and `read_message` of a stateless transport return, `none` for an error.
pub mod Receiver
pub mod Replays
pub mod Sender
pub mod Losses
mod Tests
use rnetlib.Prelude.{
  ℕ, ◌+◌, Bool, true, false, Option, none, some, List, [], ◌∷◌, ◌++◌, ltb, if◌then◌else◌, length,
  take, drop, checked_add,
}
use rnetlib.Prelude.Bytes.{to_be, from_be}
use rnetlib.Security.Replay.{
  Result, ok, err, SecurityError, ReplayWindow, fresh_window, contains, insert,
}

pub record Cipher : Type 1 where
  pub State : Type 0
  pub write_message : State → ℕ → List ℕ → Option (List ℕ)
  pub read_message : State → ℕ → List ℕ → Option (List ℕ)
  pub rekey_outgoing : State → State
  pub rekey_incoming : State → State

module _ (c : Cipher) where
  pub record DatagramTransport : Type 0 where
    pub state : c.State
    pub send_nonce : ℕ
    pub replay : ReplayWindow

  -- The state of both `finish_datagram`.
  abbrev pub fresh_transport : c.State → DatagramTransport
  fresh_transport state = record { state = state; send_nonce = 0; replay = fresh_window }

-- What the cipher writes stands behind the nonce.
abbrev pub sealed : ℕ → Option (List ℕ) → Result (List ℕ)
sealed nonce none = err SecurityError.crypto
sealed nonce (some ciphertext) = ok (to_be 8 nonce ++ ciphertext)

unfoldable pub nonce_of : List ℕ → ℕ
nonce_of bytes = from_be (take 8 bytes)

module _ {c : Cipher} where
  abbrev pub rekey_outgoing : DatagramTransport c → DatagramTransport c
  rekey_outgoing t = record t { state = c.rekey_outgoing t.state; send_nonce = 0 }

  abbrev pub rekey_incoming : DatagramTransport c → DatagramTransport c
  rekey_incoming t = record t { state = c.rekey_incoming t.state; replay = fresh_window }

  pub encrypt : DatagramTransport c → List ℕ → Result (List ℕ) × DatagramTransport c
  encrypt t plaintext = elim (checked_add t.send_nonce 1) [
    | none ↦ (err SecurityError.invalid_state, t)
    | some next ↦ (
      sealed t.send_nonce (c.write_message t.state t.send_nonce plaintext),
      record t { send_nonce = next },
    )
  ]

  -- What `insert` returns decides: the `?` after the authentication.
  abbrev pub remembered :
      DatagramTransport c
      → List ℕ
      → Result (Unit {0}) × ReplayWindow
      → Result (List ℕ) × DatagramTransport c
  remembered t plaintext (ok done, replay) = (ok plaintext, record t { replay = replay })
  remembered t plaintext (err code, replay) = (err code, record t { replay = replay })

  abbrev pub opened :
      DatagramTransport c → ℕ → Option (List ℕ) → Result (List ℕ) × DatagramTransport c
  opened t nonce none = (err SecurityError.crypto, t)
  opened t nonce (some plaintext) = remembered t plaintext (insert t.replay nonce)

  pub decrypt : DatagramTransport c → List ℕ → Result (List ℕ) × DatagramTransport c
  decrypt t bytes =
      let nonce = nonce_of bytes in
      if ltb (length bytes) 24
      then (err SecurityError.crypto, t)
      else if contains t.replay nonce
      then (err SecurityError.replay_detected, t)
      else opened t nonce (c.read_message t.state nonce (drop 8 bytes))
