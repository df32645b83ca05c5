-- ===== src/Game/Quality/Tests.antt =====
-- Grades, notifications and loss figures on small histories.
use rnetlib.Prelude.{◌≤◌, ◌<◌, ◌≡◌, ◌≢◌, ◌↔◌, refl, true, some, none, List, [], ◌∷◌}
use rnetlib.Game.Quality.{
  QualityGrade, QualityBasis, rank, UdpLossTracker, new_tracker, observe, default_policy, is_valid,
}
use rnetlib.Game.Quality.Grades.{
  QualitySample, classify, Under, UnderIf, loss_value, kcp_value, usable_loss, usable_kcp,
  classify_lem,
}
use rnetlib.Game.Quality.Gate as Gate
use rnetlib.Game.Quality.Gate.{gate_after, head, last_notified, observe-notifies}
use rnetlib.Game.Quality.Repeats.{observe_all}

abbrev sample : QualitySample
sample = record { last_rtt = 9; smoothed_rtt = 90_000_000; jitter = 1_000_000; samples = 3 }

default_policy-is_valid : is_valid default_policy ≡ true
unfolding is_valid default_policy
default_policy-is_valid = refl

classify_lem_example :
    (sample.samples < default_policy.minimum_rtt_samples
      → (classify sample none none default_policy).0 ≡ QualityGrade.unknown)
    × (default_policy.minimum_rtt_samples ≤ sample.samples
        → 1 ≤ rank (classify sample none none default_policy).0)
    × ((g : QualityGrade)
        → 1 ≤ rank g
        → default_policy.minimum_rtt_samples ≤ sample.samples
        → (rank (classify sample none none default_policy).0 ≤ rank g) ↔ (
            Under g default_policy.rtt sample.smoothed_rtt
            × Under g default_policy.jitter sample.jitter
            × UnderIf g default_policy.udp_loss_per_mille
                (loss_value (usable_loss none default_policy))
            × UnderIf g default_policy.kcp_retransmission_per_mille
                (kcp_value (usable_kcp none default_policy))))
classify_lem_example = classify_lem sample none none default_policy default_policy-is_valid

abbrev history : List (QualityGrade × QualityBasis)
history = (QualityGrade.good, QualityBasis.latency_only) ∷ []

observe-notifies_example :
    ((Gate.observe QualityGrade.good QualityBasis.latency_only (gate_after history)).0 ≡ true) ↔ (
      (QualityGrade.good ≢ QualityGrade.unknown)
      × (head history ≡ some (QualityGrade.good, QualityBasis.latency_only))
      × (last_notified history ≢ some (QualityGrade.good, QualityBasis.latency_only)))
observe-notifies_example = observe-notifies history QualityGrade.good QualityBasis.latency_only

second_notifies :
    (Gate.observe QualityGrade.good QualityBasis.latency_only (gate_after history)).0 ≡ true
unfolding gate_after Gate.observe
second_notifies = refl

abbrev after_two : UdpLossTracker
after_two = (observe 7 (observe_all (6 ∷ []) new_tracker)).1

abbrev before_seven : UdpLossTracker
before_seven = observe_all (6 ∷ []) new_tracker

abbrev gapped : UdpLossTracker
gapped = record (observe 7 new_tracker).1 { span = 64 }
