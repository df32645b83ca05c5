-- ===== src/Game/Quality/Grades.antt =====
-- `classify` of crates/rnet-game/src/quality.rs: the grade is the worst of the signals that count.
use rnetlib.Prelude.{
  ℕ, ◌≤◌, ◌<◌, ◌≡◌, ◌↔◌, arith, Bool, true, false, Option, none, some, leb, ltb, if◌then◌else◌,
}
use rnetlib.Game.Quality.{
  QualityGrade, QualityBasis, rank, worse, UdpLossSnapshot, Ceilings, QualityPolicy, is_ordered,
  is_valid,
}

pub record QualitySample : Type 0 where
  pub last_rtt : ℕ
  pub smoothed_rtt : ℕ
  pub jitter : ℕ
  pub samples : ℕ

-- The part of `KcpRetransmissionSnapshot` that a grade reads.
pub record KcpRetransmissionSnapshot : Type 0 where
  pub recent_segments : ℕ
  pub recent_retransmission_per_mille : ℕ

pub grade_for : ℕ → Ceilings → QualityGrade
grade_for value c =
    if leb value c.excellent
    then QualityGrade.excellent
    else if leb value c.good
    then QualityGrade.good
    else if leb value c.fair
    then QualityGrade.fair
    else QualityGrade.poor

-- `Option::filter`
abbrev pub filter {ℓ} : {A : Type ℓ} → (A → Bool) → Option A → Option A
filter test none = none
filter test (some a) = if test a then some a else none

abbrev pub usable_loss : Option UdpLossSnapshot → QualityPolicy → Option UdpLossSnapshot
usable_loss udp_loss p = filter (λ loss. leb p.minimum_udp_packets loss.recent_expected) udp_loss

abbrev pub usable_kcp :
    Option KcpRetransmissionSnapshot → QualityPolicy → Option KcpRetransmissionSnapshot
usable_kcp kcp p = filter (λ stats. leb p.minimum_kcp_segments stats.recent_segments) kcp

abbrev pub worse_of : QualityGrade → Option ℕ → Ceilings → QualityGrade
worse_of grade none c = grade
worse_of grade (some value) c = worse grade (grade_for value c)

abbrev pub loss_value : Option UdpLossSnapshot → Option ℕ
loss_value none = none
loss_value (some loss) = some loss.recent_loss_per_mille

abbrev pub kcp_value : Option KcpRetransmissionSnapshot → Option ℕ
kcp_value none = none
kcp_value (some stats) = some stats.recent_retransmission_per_mille

abbrev pub basis_of : Option UdpLossSnapshot → Option KcpRetransmissionSnapshot → QualityBasis
basis_of (some loss) kcp = QualityBasis.udp_sequence_gap
basis_of none (some stats) = QualityBasis.kcp_retransmission
basis_of none none = QualityBasis.latency_only

pub classify :
    QualitySample
    → Option UdpLossSnapshot
    → Option KcpRetransmissionSnapshot
    → QualityPolicy
    → QualityGrade × QualityBasis
classify sample udp_loss kcp p =
    let loss = usable_loss udp_loss p in
    let stats = usable_kcp kcp p in
    let latency = worse (grade_for sample.smoothed_rtt p.rtt) (grade_for sample.jitter p.jitter) in
    let grade =
      worse_of (worse_of latency (loss_value loss) p.udp_loss_per_mille) (kcp_value stats)
        p.kcp_retransmission_per_mille in
    (
      if ltb sample.samples p.minimum_rtt_samples then QualityGrade.unknown else grade,
      basis_of loss stats,
    )

-- The ceiling of a grade; `poor` and `unknown` have none.
abbrev pub Under : QualityGrade → Ceilings → ℕ → Type 0
Under QualityGrade.excellent c value = value ≤ c.excellent
Under QualityGrade.good c value = value ≤ c.good
Under QualityGrade.fair c value = value ≤ c.fair
Under _ c value = Unit

-- A signal that was measured often enough is under the ceiling of the grade.
abbrev pub UnderIf : QualityGrade → Ceilings → Option ℕ → Type 0
UnderIf g c none = Unit
UnderIf g c (some value) = Under g c value

grade_for-Under :
    (g : QualityGrade) (value : ℕ) (c : Ceilings)
    → is_ordered c ≡ true
    → (1 ≤ rank g)
    → (rank (grade_for value c) ≤ rank g) ↔ Under g c value
unfolding grade_for
grade_for-Under QualityGrade.unknown value c o h = absurd (omega arith)
grade_for-Under QualityGrade.excellent value c o h = ground arith
grade_for-Under QualityGrade.good value c o h = ground arith
grade_for-Under QualityGrade.fair value c o h = ground arith
grade_for-Under QualityGrade.poor value c o h = ground arith

worse-rank :
    (g h k : QualityGrade) → (rank (worse g h) ≤ rank k) ↔ ((rank g ≤ rank k) × (rank h ≤ rank k))
worse-rank g h k = ground arith

worse_of-rank :
    (g h : QualityGrade) (o : Option ℕ) (c : Ceilings)
    → is_ordered c ≡ true
    → 1 ≤ rank g
    → (rank (worse_of h o c) ≤ rank g) ↔ ((rank h ≤ rank g) × UnderIf g c o)
worse_of-rank g h none c ordered known = ((λ a. (a, tt)), (λ b. b.0))
worse_of-rank g h (some value) c ordered known =
    let w = worse-rank h (grade_for value c) g in
    let u = grade_for-Under g value c ordered known in
    ((λ a. ((w.0 a).0, u.0 (w.0 a).1)), (λ b. w.1 (b.0, u.1 b.1)))

known_for : (value : ℕ) (c : Ceilings) → 1 ≤ rank (grade_for value c)
unfolding grade_for
known_for value c = ground arith

known_worse : (g h : QualityGrade) → 1 ≤ rank g → 1 ≤ rank (worse g h)
known_worse g h k = ground arith

known_worse_of :
    (g : QualityGrade) (o : Option ℕ) (c : Ceilings) → 1 ≤ rank g → 1 ≤ rank (worse_of g o c)
known_worse_of g none c k = k
known_worse_of g (some value) c k = known_worse g (grade_for value c) k

known_if_enough :
    (samples minimum : ℕ) (g : QualityGrade)
    → minimum ≤ samples
    → 1 ≤ rank g
    → 1 ≤ rank (if ltb samples minimum then QualityGrade.unknown else g)
known_if_enough samples minimum g enough known = ground arith

is_valid-parts :
    (p : QualityPolicy)
    → is_valid p ≡ true
    → (is_ordered p.rtt ≡ true)
      × (is_ordered p.jitter ≡ true)
      × (is_ordered p.udp_loss_per_mille ≡ true)
      × (is_ordered p.kcp_retransmission_per_mille ≡ true)
unfolding is_valid
is_valid-parts p v = ground arith

-- Under a valid policy a grade is unknown exactly while the latency samples are too few. After that it
-- is at most `g` exactly if the smoothed latency, the jitter and each measured-enough loss figure are
-- under the ceiling of `g`.
pub classify_lem :
    (sample : QualitySample) (loss : Option UdpLossSnapshot)
    (kcp : Option KcpRetransmissionSnapshot) (p : QualityPolicy)
    → is_valid p ≡ true
    → (sample.samples < p.minimum_rtt_samples
        → (classify sample loss kcp p).0 ≡ QualityGrade.unknown)
      × (p.minimum_rtt_samples ≤ sample.samples → 1 ≤ rank (classify sample loss kcp p).0)
      × ((g : QualityGrade)
          → 1 ≤ rank g
          → p.minimum_rtt_samples ≤ sample.samples
          → (rank (classify sample loss kcp p).0 ≤ rank g) ↔ (
              Under g p.rtt sample.smoothed_rtt
              × Under g p.jitter sample.jitter
              × UnderIf g p.udp_loss_per_mille (loss_value (usable_loss loss p))
              × UnderIf g p.kcp_retransmission_per_mille (kcp_value (usable_kcp kcp p))))
unfolding classify
classify_lem sample loss kcp p v =
    let (rtt, jitter, udp, retransmission) = is_valid-parts p v in
    (
      (λ few. ground arith),
      (λ enough. known_if_enough sample.samples p.minimum_rtt_samples _ enough (
          known_worse_of _ (kcp_value (usable_kcp kcp p)) p.kcp_retransmission_per_mille (
            known_worse_of _ (loss_value (usable_loss loss p)) p.udp_loss_per_mille
              (known_worse _ _ (known_for sample.smoothed_rtt p.rtt))))),
      (λ g known enough.
          let enough' : ltb sample.samples p.minimum_rtt_samples ≡ false = ground arith in
          let w =
            worse-rank (grade_for sample.smoothed_rtt p.rtt) (grade_for sample.jitter p.jitter) g in
          let a = grade_for-Under g sample.smoothed_rtt p.rtt rtt known in
          let b = grade_for-Under g sample.jitter p.jitter jitter known in
          let c =
            worse_of-rank g _ (loss_value (usable_loss loss p)) p.udp_loss_per_mille udp known in
          let d =
            worse_of-rank g _ (kcp_value (usable_kcp kcp p)) p.kcp_retransmission_per_mille
              retransmission known in
          rw enough' (
            (λ all.
                let (x, k) = d.0 all in
                let (y, l) = c.0 x in let (r, j) = w.0 y in (a.0 r, b.0 j, l, k)),
            (λ (r, j, l, k). d.1 (c.1 (w.1 (a.1 r, b.1 j), l), k)),
          )),
    )
