-- ===== src/Game/Heartbeat/Samples.antt =====
-- The samples of crates/rnet-game/src/heartbeat.rs: which acknowledgements count, and their bounds.
use mathlib.Core.Path.{subst}
use rnetlib.Prelude.{
  ℕ, ◌-◌, ◌/◌, ◌≤◌, ◌<◌, ◌≡◌, refl, sym, ap, ◌∙◌, arith, max, not, Option, none, some, List, [],
  ◌∷◌, ok, Bool-cases, Option-cases, inl, inr, ◌⊎◌,
}
use rnetlib.Game.Quality.{QualityGrade, QualityBasis}
use rnetlib.Game.Quality.Grades.{QualitySample}
use rnetlib.Game.Heartbeat.{
  HeartbeatTracker, new, should_probe, admit_probe, mark_sent, next_sample, matched_rtt, too_close,
  millisecond, accept_ack, quality_changed,
}

-- The figures of a sample stay below the timeout.
abbrev pub InBounds : ℕ → Option QualitySample → Type 0
InBounds timeout none = Unit
InBounds timeout (some s) =
    (s.last_rtt < timeout) × (s.smoothed_rtt < timeout) × (s.jitter < timeout)

matched_rtt-parts :
    (pending : Option (ℕ × ℕ)) (timeout challenge received_at processed_at : ℕ) {rtt : ℕ}
    → matched_rtt pending timeout challenge received_at processed_at ≡ some rtt
    → (sent_at : ℕ) × (pending ≡ some (challenge, sent_at))
      × (sent_at ≤ received_at)
      × (received_at ≤ processed_at)
      × (rtt ≡ received_at - sent_at)
      × (rtt < timeout)
matched_rtt-parts none timeout c r p e = cc
matched_rtt-parts (some (expected, sent_at)) timeout c r p {rtt} e =
    (sent_at, ground arith, ground arith, ground arith, ground arith, ground arith)

next_sample-InBounds :
    (timeout rtt : ℕ) (s : Option QualitySample)
    → rtt < timeout
    → InBounds timeout s
    → InBounds timeout (some (next_sample s rtt))
unfolding next_sample
next_sample-InBounds timeout rtt none h b = (h, h, omega arith)
next_sample-InBounds timeout rtt (some s) h (l, m, j) = (h, omega arith, omega arith)

accepted :
    (c r p : ℕ) (t : HeartbeatTracker) {rtt : ℕ}
    → matched_rtt t.pending t.timeout c r p ≡ some rtt
    → accept_ack c r p t ≡ (
      some (next_sample t.sample rtt),
      record t { pending = none; last_ack = p; sample = some (next_sample t.sample rtt) },
    )
unfolding accept_ack
accepted c r p t e = rw (e, accept_ack) refl

-- An acknowledgement is accepted exactly if its challenge is the pending one, it was received no earlier than the
-- probe was sent and processed no earlier than it was received, and its latency is below the timeout. It ends
-- the probe, so that no second one is accepted. Every other acknowledgement is refused and changes nothing.
pub accept_ack_lem :
    (challenge received_at processed_at : ℕ) (t : HeartbeatTracker)
    → let (answer, t') = accept_ack challenge received_at processed_at t in
      ((answer ≡ none)
        × (t' ≡ t)
        × ((sent_at : ℕ)
            → t.pending ≡ some (challenge, sent_at)
            → sent_at ≤ received_at
            → received_at ≤ processed_at
            → t.timeout ≤ received_at - sent_at))
      ⊎ ((sent_at : ℕ) × (t.pending ≡ some (challenge, sent_at))
          × (sent_at ≤ received_at)
          × (received_at ≤ processed_at)
          × (received_at - sent_at < t.timeout)
          × (answer ≡ t'.sample)
          × (t'.sample ≡ some (next_sample t.sample (received_at - sent_at)))
          × (t'.last_ack ≡ processed_at)
          × ((c r p : ℕ) → accept_ack c r p t' ≡ (none, t')))
unfolding accept_ack
accept_ack_lem c r p t = elim (Option-cases (matched_rtt t.pending t.timeout c r p)) [
  | inl missing ↦ inl (
      rw (missing, accept_ack)
        (refl, refl, λ sent_at h a b. missed t.pending sent_at h a b missing))
  | inr (rtt, e) ↦
      let (sent_at, pending, a, b, value, small) = matched_rtt-parts t.pending t.timeout c r p e in
      rw (e, accept_ack)
        (inr (
          sent_at,
          pending,
          a,
          b,
          omega arith,
          refl,
          ap (λ d. some (next_sample t.sample d)) value,
          refl,
          λ c' r' p'. ap (λ a. (none, a.1)) (accepted c r p t e),
        ))
]
  where
    missed :
        (pending : Option (ℕ × ℕ)) (sent_at : ℕ)
        → pending ≡ some (c, sent_at)
        → sent_at ≤ r
        → r ≤ p
        → matched_rtt pending t.timeout c r p ≡ none
        → t.timeout ≤ r - sent_at
    missed pending sent_at h a b m = ground arith

-- What is done with a tracker.
pub data Op : Type 0 where
  sent : (challenge now : ℕ) → Op
  acked : (challenge received_at processed_at : ℕ) → Op
  probed : (received_at : ℕ) → Op
  graded : QualityGrade → QualityBasis → Op

pub apply : Op → HeartbeatTracker → HeartbeatTracker
apply (Op.sent challenge now) t = (mark_sent challenge now t).1
apply (Op.acked challenge received_at processed_at) t =
    (accept_ack challenge received_at processed_at t).1
apply (Op.probed received_at) t = (admit_probe received_at t).1
apply (Op.graded grade basis) t = (quality_changed grade basis t).1

pub apply_all : List Op → HeartbeatTracker → HeartbeatTracker
apply_all [] t = t
apply_all (op ∷ ops) t = apply_all ops (apply op t)

-- Bounded samples, under the timeout of `t`.
abbrev Keeps : HeartbeatTracker → HeartbeatTracker → Type 0
Keeps t t' = (t'.timeout ≡ t.timeout) × InBounds t'.timeout t'.sample

accept_ack-Keeps :
    (c r p : ℕ) (t : HeartbeatTracker)
    → InBounds t.timeout t.sample
    → Keeps t (accept_ack c r p t).1
unfolding accept_ack
accept_ack-Keeps c r p t b = elim (Option-cases (matched_rtt t.pending t.timeout c r p)) [
  | inl missing ↦ rw (missing, accept_ack) (refl, b)
  | inr (rtt, e) ↦
      let (sent_at, pending, a, o, value, small) = matched_rtt-parts t.pending t.timeout c r p e in
      rw (e, accept_ack) (refl, next_sample-InBounds t.timeout rtt t.sample small b)
]

apply-Keeps : (op : Op) (t : HeartbeatTracker) → InBounds t.timeout t.sample → Keeps t (apply op t)
unfolding apply mark_sent admit_probe quality_changed
apply-Keeps (Op.sent c now) t b = elim (Bool-cases (not (should_probe now t))) [
  | inl early ↦ rw (early, mark_sent, apply) (refl, b)
  | inr due ↦ rw (due, mark_sent, apply) (refl, b)
]
apply-Keeps (Op.acked c r p) t b = accept_ack-Keeps c r p t b
apply-Keeps (Op.probed r) t b =
    elim (Bool-cases (too_close t.last_inbound_probe r (max (t.interval / 4) millisecond))) [
      | inl close ↦ rw (close, admit_probe, apply) (refl, b)
      | inr far ↦ rw (far, admit_probe, apply) (refl, b)
    ]
apply-Keeps (Op.graded g q) t b = (refl, b)

apply_all-Keeps :
    (ops : List Op) (t : HeartbeatTracker) → InBounds t.timeout t.sample → Keeps t (apply_all ops t)
unfolding apply_all
apply_all-Keeps [] t b = (refl, b)
apply_all-Keeps (op ∷ ops) t b =
    let (same, b') = apply-Keeps op t b in
    let (same', b'') = apply_all-Keeps ops (apply op t) b' in (same' ∙ same, b'')

new-parts :
    (interval timeout now : ℕ) {t : HeartbeatTracker}
    → new interval timeout now ≡ ok t
    → (t.timeout ≡ timeout) × (t.sample ≡ none)
unfolding new
new-parts interval timeout now e = ground arith

-- Whatever is done with a new tracker, its last latency, its smoothed latency and its jitter stay below
-- the timeout it was made with.
pub apply_all-InBounds :
    (interval timeout now : ℕ) (ops : List Op) (t : HeartbeatTracker)
    → new interval timeout now ≡ ok t
    → InBounds timeout (apply_all ops t).sample
apply_all-InBounds interval timeout now ops t e =
    let (time, empty) = new-parts interval timeout now e in
    let (same, b) = apply_all-Keeps ops t (subst (InBounds t.timeout) (sym empty) tt) in
    subst (λ limit. InBounds limit (apply_all ops t).sample) (same ∙ time) b
