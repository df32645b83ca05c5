-- ===== src/Security/Datagram/Tests.antt =====
-- Datagrams under a cipher that puts a tag of 16 zeros before the plaintext.
use rnetlib.Prelude.{
  ℕ, ◌≡◌, refl, true, false, some, List, [], ◌∷◌, ◌++◌, length, drop, map, arith, ◌≤◌,
}
use rnetlib.Security.Replay.{ok, err, SecurityError, insert, contains}
use rnetlib.Security.Datagram.{Cipher, fresh_transport, decrypt, nonce_of}
use rnetlib.Security.Datagram.Receiver.{judge_all, receive, receive_lem}
use rnetlib.Security.Datagram.Replays.{decrypt_twice}
use rnetlib.Security.Datagram.Sender.{send, Rising}
use rnetlib.Security.Datagram.Losses.{survivors, send-receive}

abbrev tag : List ℕ
tag = 0 ∷ 0 ∷ 0 ∷ 0 ∷ 0 ∷ 0 ∷ 0 ∷ 0 ∷ 0 ∷ 0 ∷ 0 ∷ 0 ∷ 0 ∷ 0 ∷ 0 ∷ 0 ∷ []

abbrev tagging : Cipher
tagging = record {
  State = Unit {0};
  write_message = λ state nonce plaintext. some (tag ++ plaintext);
  read_message = λ state nonce ciphertext. some (drop 16 ciphertext);
  rekey_outgoing = λ state. state;
  rekey_incoming = λ state. state;
}

-- The record of the plaintext 7 under the nonce 5.
abbrev datagram : List ℕ
datagram = 0 ∷ 0 ∷ 0 ∷ 0 ∷ 0 ∷ 0 ∷ 0 ∷ 5 ∷ (tag ++ 7 ∷ [])

opened_first : (decrypt (receive (fresh_transport tagging tt) []).1 datagram).0 ≡ ok (7 ∷ [])
unfolding receive decrypt contains insert nonce_of
opened_first = refl

receive_lem_example :
    (receive (fresh_transport tagging tt) (datagram ∷ datagram ∷ tag ∷ [])).0
    ≡ (judge_all (tagging.read_message tt) [] (datagram ∷ datagram ∷ tag ∷ [])).0
receive_lem_example = receive_lem tagging tt (datagram ∷ datagram ∷ tag ∷ [])

decrypt_twice_example :
    (decrypt
      (receive (decrypt (receive (fresh_transport tagging tt) []).1 datagram).1 (tag ∷ [])).1
      datagram).0
    ≡ err SecurityError.replay_detected
decrypt_twice_example = decrypt_twice tagging tt [] datagram (7 ∷ []) (tag ∷ []) opened_first

tagging_opens :
    (n : ℕ) (plaintext x : List ℕ)
    → tagging.write_message tt n plaintext ≡ some x
    → (tagging.read_message tt n x ≡ some plaintext) × (16 ≤ length x)
tagging_opens n plaintext x written =
    let e : tag ++ plaintext ≡ x = cc in rw (← e) (refl, omega arith)

-- Three records are sent, and the second is lost.
send-receive_example :
    ((receive (fresh_transport tagging tt) (
        map
          (λ s. s.1)
          (survivors
            (true ∷ false ∷ true ∷ [])
            (send (fresh_transport tagging tt) ((1 ∷ []) ∷ (2 ∷ []) ∷ [] ∷ [])).0))).0
      ≡ map
          (λ s. ok s.0)
          (survivors
            (true ∷ false ∷ true ∷ [])
            (send (fresh_transport tagging tt) ((1 ∷ []) ∷ (2 ∷ []) ∷ [] ∷ [])).0))
    × Rising 0 (send (fresh_transport tagging tt) ((1 ∷ []) ∷ (2 ∷ []) ∷ [] ∷ [])).0
send-receive_example =
    send-receive tagging tt tt tagging_opens ((1 ∷ []) ∷ (2 ∷ []) ∷ [] ∷ [])
      (true ∷ false ∷ true ∷ [])
