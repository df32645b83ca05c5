-- ===== src/Game/ClockSync/Tracker.antt =====
-- Which replies the tracker of crates/rnet-game/src/clock_sync.rs accepts, and how often it answers probes.
use rnetlib.Prelude.{
  ℕ, ◌+◌, ◌≤◌, ◌≡◌, refl, ap, arith, true, false, Option, none, some, Bool-cases, Option-cases, inl,
  inr, ◌⊎◌,
}
use rnetlib.Game.ClockSync.{
  ClockSyncSample, ClockSyncTracker, Pending, calculate_sample, matches, count_after, accept_reply,
}

-- The reply answers the outstanding probe within the timeout.
pub record Answers (p : Pending) (nonce t1_us received_at timeout : ℕ) : Type 0 where
  pub same_nonce : nonce ≡ p.nonce
  pub same_stamp : t1_us ≡ p.t1_us
  pub after : p.sent_at ≤ received_at
  pub in_time : received_at ≤ p.sent_at + timeout

-- A reply that was accepted.
pub record Accepted (nonce t1_us t2_us t3_us t4_us received_at timeout : ℕ)
    (t t' : ClockSyncTracker) (s : ClockSyncSample) : Type 0 where
  pub is_client : t.client ≡ true
  pub outstanding : (p : Pending) × (t.pending ≡ some p) × Answers p nonce t1_us received_at timeout
  pub measured :
      (fresh : ClockSyncSample) × (calculate_sample t1_us t2_us t3_us t4_us ≡ some fresh)
      × (s.server_minus_client_us ≡ fresh.server_minus_client_us)
      × (s.rtt ≡ fresh.rtt)
  pub counted : s.samples ≡ count_after t.sample
  pub kept : t'.sample ≡ some s
  pub once : (n a b c d r w : ℕ) → accept_reply n a b c d r w t' ≡ (none, t')

matches-Answers :
    (o : Option Pending) (nonce t1_us received_at timeout : ℕ)
    → matches o nonce t1_us received_at timeout ≡ true
    → (p : Pending) × (o ≡ some p) × Answers p nonce t1_us received_at timeout
matches-Answers none nonce t1_us received_at timeout h = absurd (cc)
matches-Answers (some p) nonce t1_us received_at timeout h = (
  p,
  refl,
  record {
    same_nonce = ground arith;
    same_stamp = ground arith;
    after = ground arith;
    in_time = ground arith;
  },
)

nothing_outstanding :
    (t : ClockSyncTracker)
    → t.pending ≡ none
    → (n a b c d r w : ℕ) → accept_reply n a b c d r w t ≡ (none, t)
unfolding accept_reply
nothing_outstanding t e n a b c d r w =
    let unmatched : matches t.pending n a r w ≡ false = ap (λ o. matches o n a r w) e in
    elim (Bool-cases t.client) [
      | inl client ↦ rw (client, accept_reply) (rw unmatched refl)
      | inr server ↦ rw (server, accept_reply) refl
    ]

-- A reply is accepted only on a client, with the nonce and the timestamp of the outstanding probe, not
-- before this was sent nor later than the timeout after, and with a sample that its timestamps give;
-- this sample is then kept with the next count, and no further reply is accepted until a probe is sent.
-- Any other reply changes nothing.
pub accept_reply_lem :
    (nonce t1_us t2_us t3_us t4_us received_at timeout : ℕ) (t : ClockSyncTracker)
    → (accept_reply nonce t1_us t2_us t3_us t4_us received_at timeout t ≡ (none, t))
      ⊎ ((s : ClockSyncSample) × (t' : ClockSyncTracker) × (accept_reply nonce t1_us t2_us t3_us
              t4_us received_at timeout t
            ≡ (some s, t'))
          × Accepted nonce t1_us t2_us t3_us t4_us received_at timeout t t' s)
unfolding accept_reply
accept_reply_lem nonce t1 t2 t3 t4 received_at timeout t = elim (Bool-cases t.client) [
  | inr server ↦ inl (rw (server, accept_reply) refl)
  | inl client ↦ elim (Bool-cases (matches t.pending nonce t1 received_at timeout)) [
    | inr other ↦ inl (rw (client, accept_reply) (rw other refl))
    | inl matching ↦ elim (Option-cases (calculate_sample t1 t2 t3 t4)) [
      | inl unusable ↦ inl (rw (client, accept_reply) (rw (matching, unusable) refl))
      | inr (fresh, e) ↦ inr (
        record fresh { samples = count_after t.sample },
        record t {
          sample = some (record fresh { samples = count_after t.sample });
          last_sent = some received_at;
          pending = none;
        },
        rw (client, accept_reply) (rw (matching, e) refl),
        record {
          is_client = client;
          outstanding = matches-Answers t.pending nonce t1 received_at timeout matching;
          measured = (fresh, e, refl, refl);
          counted = refl;
          kept = refl;
          once = nothing_outstanding _ refl;
        },
      )
    ]
  ]
]
