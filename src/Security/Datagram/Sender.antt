-- ===== src/Security/Datagram/Sender.antt =====
-- The sending side of the datagrams of crates/rnet-security/src/lib.rs: the nonces of one key rise.
use rnetlib.Prelude.{
  ℕ, suc, ◌+◌, ◌≤◌, ◌<◌, ◌≡◌, refl, arith, Option, none, some, List, [], ◌∷◌, ◌++◌, ltb, take, drop,
  Bool-cases, inl, inr, ◌⊎◌, u64_max, u64_mod,
}
use rnetlib.Prelude.Bytes.{to_be, from_be-to_be}
use rnetlib.Security.Replay.{Result, ok, err, SecurityError}
use rnetlib.Security.Datagram.{Cipher, DatagramTransport, sealed, nonce_of, encrypt}

-- A plaintext with the record that was made of it.
abbrev pub Sent : Type 0
Sent = List ℕ × List ℕ

abbrev pub emit : List ℕ → Result (List ℕ) → List Sent → List Sent
emit plaintext (ok bytes) later = (plaintext, bytes) ∷ later
emit plaintext (err code) later = later

module _ {c : Cipher} where
  -- The records that come of a run of encryptions, and the results of all.
  unfoldable pub send : DatagramTransport c → List (List ℕ) → List Sent × DatagramTransport c
  send t [] = ([], t)
  send t (plaintext ∷ later) =
      let (result, t') = encrypt t plaintext in
      let (sent, last) = send t' later in (emit plaintext result sent, last)

-- The nonces of the records rise from a first one, and stay below the last of a word.
abbrev pub Rising : ℕ → List Sent → Type 0
Rising first [] = Unit
Rising first (s ∷ sent) =
    (first ≤ nonce_of s.1) × (nonce_of s.1 < u64_max) × Rising (suc (nonce_of s.1)) sent

pub Rising-weaken :
    (low first : ℕ) (sent : List Sent) → low ≤ first → Rising first sent → Rising low sent
Rising-weaken low first [] h r = tt
Rising-weaken low first (s ∷ sent) h r = (omega (arith, r.0), r.1, r.2)

pub nonce_of-record : (n : ℕ) (x : List ℕ) → n < u64_mod → nonce_of (to_be 8 n ++ x) ≡ n
unfolding nonce_of
nonce_of-record n x small = rw written (from_be-to_be 8 n small)
  where
    written : take 8 (to_be 8 n ++ x) ≡ to_be 8 n
    written = refl

past-record : (n : ℕ) (x : List ℕ) → drop 8 (to_be 8 n ++ x) ≡ x
past-record n x = refl

sealed-Rising :
    (n : ℕ) (plaintext : List ℕ) (o : Option (List ℕ)) (sent : List Sent)
    → n < u64_max
    → Rising (n + 1) sent
    → Rising n (emit plaintext (sealed n o) sent)
sealed-Rising n plaintext none sent below r = Rising-weaken n (n + 1) sent (omega arith) r
sealed-Rising n plaintext (some x) sent below r =
    let at_n = nonce_of-record n x (omega arith) in
    let e : n + 1 ≡ suc n = omega arith in rw at_n (omega arith, below, rw e at r)

module _ {c : Cipher} where
  pub encrypt-cases :
      (t : DatagramTransport c) (plaintext : List ℕ)
      → ((encrypt t plaintext ≡ (err SecurityError.invalid_state, t)) × (u64_max ≤ t.send_nonce))
        ⊎ ((encrypt t plaintext ≡ (
          sealed t.send_nonce (c.write_message t.state t.send_nonce plaintext),
          record t { send_nonce = t.send_nonce + 1 },
        ))
            × (t.send_nonce < u64_max))
  unfolding encrypt
  encrypt-cases t plaintext = elim (Bool-cases (ltb (t.send_nonce + 1) u64_mod)) [
    | inl more ↦ inr (rw (more, encrypt) refl, ground arith)
    | inr last ↦ inl (rw (last, encrypt) refl, ground arith)
  ]

  pub send-Rising :
      (t : DatagramTransport c) (plaintexts : List (List ℕ))
      → Rising t.send_nonce (send t plaintexts).0
  unfolding send
  send-Rising t [] = tt
  send-Rising t (plaintext ∷ later) = elim (encrypt-cases t plaintext) [
    | inl (stopped, above) ↦ rw stopped (send-Rising t later)
    | inr (went, below) ↦ rw went (
        sealed-Rising t.send_nonce plaintext (c.write_message t.state t.send_nonce plaintext)
          (send (record t { send_nonce = t.send_nonce + 1 }) later).0 below
          (send-Rising (record t { send_nonce = t.send_nonce + 1 }) later))
  ]
