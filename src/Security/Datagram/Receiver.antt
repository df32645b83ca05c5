-- ===== src/Security/Datagram/Receiver.antt =====
-- The receiving side of the datagrams of crates/rnet-security/src/lib.rs against a receiver that keeps
-- every nonce it has accepted.
use mathlib.Core.Path.{subst, ap₂}
use rnetlib.Prelude.{
  ℕ, ◌≡◌, refl, false, Option, none, some, List, [], ◌∷◌, ltb, if◌then◌else◌, length, drop,
  Bool-cases, inl, inr,
}
use rnetlib.Security.Replay.{Result, ok, err, SecurityError, contains}
use rnetlib.Security.Replay.Refine.{
  refuses, TracksWindow, fresh_window-Tracks, contains_lem, insert_lem,
}
use rnetlib.Security.Datagram.{
  Cipher, DatagramTransport, fresh_transport, opened, nonce_of, decrypt,
}

-- The unbounded receiver: its state is the list of the accepted nonces, and `open_at` is the cipher.
abbrev accept : List ℕ → ℕ → Option (List ℕ) → Result (List ℕ) × List ℕ
accept accepted nonce none = (err SecurityError.crypto, accepted)
accept accepted nonce (some plaintext) = (ok plaintext, nonce ∷ accepted)

unfoldable pub judge : (ℕ → List ℕ → Option (List ℕ)) → List ℕ → List ℕ → Result (List ℕ) × List ℕ
judge open_at accepted bytes =
    if ltb (length bytes) 24
    then (err SecurityError.crypto, accepted)
    else if refuses accepted (nonce_of bytes)
    then (err SecurityError.replay_detected, accepted)
    else accept accepted (nonce_of bytes) (open_at (nonce_of bytes) (drop 8 bytes))

unfoldable pub judge_all :
    (ℕ → List ℕ → Option (List ℕ)) → List ℕ → List (List ℕ) → List (Result (List ℕ)) × List ℕ
judge_all open_at accepted [] = ([], accepted)
judge_all open_at accepted (bytes ∷ later) =
    let (result, accepted') = judge open_at accepted bytes in
    let (results, last) = judge_all open_at accepted' later in (result ∷ results, last)

module _ {c : Cipher} where
  -- The records of a run in the order of their arrival, with the result of each.
  unfoldable pub receive :
      DatagramTransport c → List (List ℕ) → List (Result (List ℕ)) × DatagramTransport c
  receive t [] = ([], t)
  receive t (bytes ∷ later) =
      let (result, t') = decrypt t bytes in
      let (results, last) = receive t' later in (result ∷ results, last)

  pub record Follows (state : c.State) (t : DatagramTransport c) (accepted : List ℕ) : Type 0 where
    pub keyed : t.state ≡ state
    pub tracked : TracksWindow t.replay accepted

  pub fresh_transport-Follows : (state : c.State) → Follows state (fresh_transport c state) []
  fresh_transport-Follows state = record { keyed = refl; tracked = fresh_window-Tracks }

  opened_lem :
      (t : DatagramTransport c) (accepted : List ℕ) (nonce : ℕ) (o : Option (List ℕ))
      → TracksWindow t.replay accepted
      → refuses accepted nonce ≡ false
      → ((opened t nonce o).0 ≡ (accept accepted nonce o).0)
        × Follows t.state (opened t nonce o).1 (accept accepted nonce o).1
  opened_lem t accepted nonce none tracked fresh =
      (refl, record { keyed = refl; tracked = tracked })
  opened_lem t accepted nonce (some plaintext) tracked fresh =
      let (w', inserted, tracked') = insert_lem t.replay accepted nonce tracked fresh in
      rw inserted (refl, record { keyed = refl; tracked = tracked' })

  decrypt_same :
      (t : DatagramTransport c) (accepted : List ℕ) (bytes : List ℕ)
      → TracksWindow t.replay accepted
      → ((decrypt t bytes).0 ≡ (judge (c.read_message t.state) accepted bytes).0)
        × Follows t.state (decrypt t bytes).1 (judge (c.read_message t.state) accepted bytes).1
  unfolding decrypt judge
  decrypt_same t accepted bytes tracked =
      let same : contains t.replay (nonce_of bytes) ≡ refuses accepted (nonce_of bytes) =
        contains_lem t.replay accepted (nonce_of bytes) tracked in
      let unchanged : Follows t.state t accepted = record { keyed = refl; tracked = tracked } in
      rw same (elim (Bool-cases (ltb (length bytes) 24)) [
        | inl short ↦ rw short (refl, unchanged)
        | inr whole ↦ rw whole (elim (Bool-cases (refuses accepted (nonce_of bytes))) [
          | inl replayed ↦ rw replayed (refl, unchanged)
          | inr fresh ↦ rw fresh (
              opened_lem t accepted (nonce_of bytes)
                (c.read_message t.state (nonce_of bytes) (drop 8 bytes)) tracked fresh)
        ])
      ])

  pub decrypt_lem :
      (state : c.State) (t : DatagramTransport c) (accepted : List ℕ) (bytes : List ℕ)
      → Follows state t accepted
      → ((decrypt t bytes).0 ≡ (judge (c.read_message state) accepted bytes).0)
        × Follows state (decrypt t bytes).1 (judge (c.read_message state) accepted bytes).1
  decrypt_lem state t accepted bytes f =
      subst
        (λ s.
          ((decrypt t bytes).0 ≡ (judge (c.read_message s) accepted bytes).0)
          × Follows s (decrypt t bytes).1 (judge (c.read_message s) accepted bytes).1)
        f.keyed (decrypt_same t accepted bytes f.tracked)

  pub receive_from :
      (state : c.State) (t : DatagramTransport c) (accepted : List ℕ) (records : List (List ℕ))
      → Follows state t accepted
      → ((receive t records).0 ≡ (judge_all (c.read_message state) accepted records).0)
        × Follows state (receive t records).1 (judge_all (c.read_message state) accepted records).1
  unfolding receive judge_all
  receive_from state t accepted [] f = (refl, f)
  receive_from state t accepted (bytes ∷ later) f =
      let (same, f') = decrypt_lem state t accepted bytes f in
      let (same', f'') =
        receive_from state (decrypt t bytes).1 (judge (c.read_message state) accepted bytes).1 later
          f' in
      (ap₂ ◌∷◌ same same', f'')

module _ (c : Cipher) where
  -- From a fresh transport, every run of records gives record by record the result of the receiver that
  -- keeps each nonce it has accepted: it fails with `crypto` for a record under 24 bytes and for one that the
  -- cipher refuses, fails with `replay_detected` for an accepted nonce and for one that is 64 or more below
  -- the highest accepted, and else returns what the cipher opens and keeps the nonce. A record that fails
  -- leaves the accepted nonces as they are.
  pub receive_lem :
      (state : c.State) (records : List (List ℕ))
      → (receive (fresh_transport c state) records).0
        ≡ (judge_all (c.read_message state) [] records).0
  receive_lem state records =
      (receive_from state (fresh_transport c state) [] records (fresh_transport-Follows state)).0
