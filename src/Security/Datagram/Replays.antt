-- ===== src/Security/Datagram/Replays.antt =====
-- What the receiving side of crates/rnet-security/src/lib.rs makes of a record that comes again.
use rnetlib.Prelude.{ℕ, ◌≡◌, sym, ap, ◌∙◌, arith, true, false, Option, List, [], ◌∷◌, ltb, length}
use rnetlib.Security.Replay.{ok, err, SecurityError}
use rnetlib.Security.Replay.Marks.{elem, elem_self}
use rnetlib.Security.Datagram.{Cipher, fresh_transport, nonce_of, decrypt}
use rnetlib.Security.Datagram.Receiver.{
  judge, judge_all, receive, Follows, fresh_transport-Follows, decrypt_lem, receive_from,
}

elem_cons : (n m : ℕ) (accepted : List ℕ) → elem n accepted ≡ true → elem n (m ∷ accepted) ≡ true
unfolding elem
elem_cons n m accepted h = ground arith

module _ (open_at : ℕ → List ℕ → Option (List ℕ)) where
  -- What was accepted once stays accepted.
  judge-keeps :
      (accepted : List ℕ) (bytes : List ℕ) (n : ℕ)
      → elem n accepted ≡ true
      → elem n (judge open_at accepted bytes).1 ≡ true
  unfolding judge
  judge-keeps accepted bytes n h = ground (arith, elem_cons n (nonce_of bytes) accepted)

  judge_all-keeps :
      (accepted : List ℕ) (records : List (List ℕ)) (n : ℕ)
      → elem n accepted ≡ true
      → elem n (judge_all open_at accepted records).1 ≡ true
  unfolding judge_all
  judge_all-keeps accepted [] n h = h
  judge_all-keeps accepted (bytes ∷ later) n h =
      judge_all-keeps (judge open_at accepted bytes).1 later n (judge-keeps accepted bytes n h)

  judge-accepts :
      (accepted : List ℕ) (bytes plaintext : List ℕ)
      → (judge open_at accepted bytes).0 ≡ ok plaintext
      → (ltb (length bytes) 24 ≡ false)
        × (elem (nonce_of bytes) (judge open_at accepted bytes).1 ≡ true)
  unfolding judge
  judge-accepts accepted bytes plaintext h = ground (arith, elem_self (nonce_of bytes) accepted)

  judge-replayed :
      (accepted : List ℕ) (bytes : List ℕ)
      → ltb (length bytes) 24 ≡ false
      → elem (nonce_of bytes) accepted ≡ true
      → judge open_at accepted bytes ≡ (err SecurityError.replay_detected, accepted)
  unfolding judge
  judge-replayed accepted bytes whole h = ground arith

module _ (c : Cipher) where
  -- A record that was opened in a run from a fresh transport is refused with `replay_detected` when it comes
  -- again, whatever records came before it, and whatever records come in between.
  pub decrypt_twice :
      (state : c.State) (before : List (List ℕ)) (bytes plaintext : List ℕ)
      (between : List (List ℕ))
      → (decrypt (receive (fresh_transport c state) before).1 bytes).0 ≡ ok plaintext
      → (decrypt
          (receive (decrypt (receive (fresh_transport c state) before).1 bytes).1 between).1
          bytes).0
        ≡ err SecurityError.replay_detected
  decrypt_twice state before bytes plaintext between opened =
      let open_at = c.read_message state in
      let earlier : List ℕ = (judge_all open_at [] before).1 in
      let t = (receive (fresh_transport c state) before).1 in
      let f : Follows state t earlier =
        (receive_from state (fresh_transport c state) [] before
          (fresh_transport-Follows state)).1 in
      let (same, f') = decrypt_lem state t earlier bytes f in
      let (whole, kept) = judge-accepts open_at earlier bytes plaintext (sym same ∙ opened) in
      let accepted = (judge open_at earlier bytes).1 in
      let (_, f'') = receive_from state (decrypt t bytes).1 accepted between f' in
      let (same', _) =
        decrypt_lem state (receive (decrypt t bytes).1 between).1
          (judge_all open_at accepted between).1 bytes f'' in
      same'
      ∙ ap (λ r. r.0)
          (judge-replayed open_at (judge_all open_at accepted between).1 bytes whole
            (judge_all-keeps open_at accepted between (nonce_of bytes) kept))
