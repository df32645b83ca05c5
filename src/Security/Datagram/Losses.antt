-- ===== src/Security/Datagram/Losses.antt =====
-- The datagrams of crates/rnet-security/src/lib.rs from one side to the other, over a network that loses
-- some and keeps the order of the rest.
use rnetlib.Prelude.{
  ℕ, suc, ◌+◌, ◌≤◌, ◌<◌, ◌≡◌, refl, sym, ap, ◌∙◌, arith, Bool, true, false, Option, none, some,
  List, [], ◌∷◌, ltb, if◌then◌else◌, length, drop, map, All, inl, inr, u64_max,
}
use rnetlib.Security.Replay.{ok}
use rnetlib.Security.Replay.Marks.{elem_other}
use rnetlib.Security.Replay.Refine.{refuses, nothing_refused}
use rnetlib.Security.Datagram.Sender.{
  Sent, emit, send, Rising, Rising-weaken, nonce_of-record, encrypt-cases, send-Rising,
}
use rnetlib.Security.Datagram.{Cipher, DatagramTransport, fresh_transport, sealed, nonce_of}
use rnetlib.Security.Datagram.Receiver.{judge, judge_all, receive, receive_lem}

-- What a network that loses records and keeps their order lets through.
pub survivors : List Bool → List Sent → List Sent
survivors [] sent = []
survivors (kept ∷ fates) [] = []
survivors (kept ∷ fates) (s ∷ sent) =
    let rest = survivors fates sent in if kept then s ∷ rest else rest

survivors-All :
    (P : Sent → Type 0) (fates : List Bool) (sent : List Sent)
    → All P sent
    → All P (survivors fates sent)
unfolding survivors
survivors-All P [] sent h = tt
survivors-All P (kept ∷ fates) [] h = tt
survivors-All P (true ∷ fates) (s ∷ sent) h = (h.0, survivors-All P fates sent h.1)
survivors-All P (false ∷ fates) (s ∷ sent) h = survivors-All P fates sent h.1

survivors-Rising :
    (first : ℕ) (fates : List Bool) (sent : List Sent)
    → Rising first sent
    → Rising first (survivors fates sent)
unfolding survivors
survivors-Rising first [] sent r = tt
survivors-Rising first (kept ∷ fates) [] r = tt
survivors-Rising first (true ∷ fates) (s ∷ sent) r =
    (r.0, r.1, survivors-Rising (suc (nonce_of s.1)) fates sent r.2)
survivors-Rising first (false ∷ fates) (s ∷ sent) r =
    Rising-weaken first (suc (nonce_of s.1)) (survivors fates sent) (omega (arith, r.0))
      (survivors-Rising (suc (nonce_of s.1)) fates sent r.2)

-- Every nonce from a first one on would be accepted.
abbrev Open : ℕ → List ℕ → Type 0
Open first accepted = (n : ℕ) → first ≤ n → refuses accepted n ≡ false

Open-accept :
    (first m : ℕ) (accepted : List ℕ)
    → Open first accepted
    → first ≤ m
    → Open (suc m) (m ∷ accepted)
Open-accept first m accepted o h n above =
    rw (elem_other n m accepted (λ e. omega arith)) (ground (arith, o n (omega arith)))

module _ (open_at : ℕ → List ℕ → Option (List ℕ)) where
  -- A record that a receiver with the matching key can open.
  abbrev Genuine : Sent → Type 0
  Genuine s = (open_at (nonce_of s.1) (drop 8 s.1) ≡ some s.0) × (24 ≤ length s.1)

  judge-Genuine :
      (accepted : List ℕ) (s : Sent)
      → Genuine s
      → refuses accepted (nonce_of s.1) ≡ false
      → judge open_at accepted s.1 ≡ (ok s.0, nonce_of s.1 ∷ accepted)
  unfolding judge
  judge-Genuine accepted s g fresh =
      let whole : ltb (length s.1) 24 ≡ false = ground (arith, g.1) in rw (whole, fresh, g.0) refl

  judge_all-Genuine :
      (first : ℕ) (accepted : List ℕ) (sent : List Sent)
      → Open first accepted
      → Rising first sent
      → All Genuine sent
      → (judge_all open_at accepted (map (λ s. s.1) sent)).0 ≡ map (λ s. ok s.0) sent
  unfolding judge_all
  judge_all-Genuine first accepted [] o r g = refl
  judge_all-Genuine first accepted (s ∷ sent) o r g =
      rw (judge-Genuine accepted s g.0 (o (nonce_of s.1) r.0)) (
        ap (λ results. ok s.0 ∷ results)
          (judge_all-Genuine (suc (nonce_of s.1)) (nonce_of s.1 ∷ accepted) sent
            (Open-accept first (nonce_of s.1) accepted o r.0) r.2 g.1))

sealed-Genuine :
    (open_at : ℕ → List ℕ → Option (List ℕ)) (n : ℕ) (plaintext : List ℕ) (o : Option (List ℕ))
    (sent : List Sent)
    → n < u64_max
    → ((x : List ℕ) → o ≡ some x → (open_at n x ≡ some plaintext) × (16 ≤ length x))
    → All (Genuine open_at) sent
    → All (Genuine open_at) (emit plaintext (sealed n o) sent)
sealed-Genuine open_at n plaintext none sent below opens g = g
sealed-Genuine open_at n plaintext (some x) sent below opens g =
    let (opened, tagged) = opens x refl in
    ((rw (nonce_of-record n x (omega arith)) opened, omega (arith, tagged)), g)

module _ (c : Cipher) (state peer : c.State)
    (opens : (n : ℕ) (plaintext x : List ℕ)
      → c.write_message state n plaintext ≡ some x
      → (c.read_message peer n x ≡ some plaintext) × (16 ≤ length x)) where
  send-Genuine :
      (t : DatagramTransport c) (plaintexts : List (List ℕ))
      → t.state ≡ state
      → All (Genuine (c.read_message peer)) (send t plaintexts).0
  unfolding send
  send-Genuine t [] e = tt
  send-Genuine t (plaintext ∷ later) e = elim (encrypt-cases t plaintext) [
    | inl (stopped, above) ↦ rw stopped (send-Genuine t later e)
    | inr (went, below) ↦ rw went (
        sealed-Genuine (c.read_message peer) t.send_nonce plaintext
          (c.write_message t.state t.send_nonce plaintext)
          (send (record t { send_nonce = t.send_nonce + 1 }) later).0 below
          (λ x written.
            opens t.send_nonce plaintext x
              (ap (λ s. c.write_message s t.send_nonce plaintext) (sym e) ∙ written))
          (send-Genuine (record t { send_nonce = t.send_nonce + 1 }) later e))
  ]

  -- If the peer's cipher opens what this side's writes, at the same nonce, and each ciphertext has its tag of
  -- 16 bytes: of the records that a run of encryptions on a fresh transport emits, those that a network lets
  -- through in order are all opened by a fresh peer, each to its plaintext; and their nonces rise.
  pub send-receive :
      (plaintexts : List (List ℕ)) (fates : List Bool)
      → ((receive
            (fresh_transport c peer)
            (map (λ s. s.1) (survivors fates (send (fresh_transport c state) plaintexts).0))).0
          ≡ map (λ s. ok s.0) (survivors fates (send (fresh_transport c state) plaintexts).0))
        × Rising 0 (send (fresh_transport c state) plaintexts).0
  send-receive plaintexts fates =
      let sent = (send (fresh_transport c state) plaintexts).0 in
      let rising : Rising 0 sent = send-Rising (fresh_transport c state) plaintexts in
      (
        receive_lem c peer (map (λ s. s.1) (survivors fates sent))
            ∙ judge_all-Genuine (c.read_message peer) 0 [] (survivors fates sent)
                (λ n h. nothing_refused n) (survivors-Rising 0 fates sent rising)
                (survivors-All (Genuine (c.read_message peer)) fates sent
                  (send-Genuine (fresh_transport c state) plaintexts refl)),
        rising,
      )
