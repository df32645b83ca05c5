-- ===== src/Core/Lifecycle/Tests.antt =====
-- A start that loses a race.
use rnetlib.Prelude.{◌≤◌, ◌≡◌, refl, List, [], ◌∷◌, ◌++◌, ok, err, invalid_state}
use rnetlib.Core.Lifecycle.{Lifecycle, transition, start}
use rnetlib.Core.Lifecycle.Race.{Attempt, after, starts, after-created}

abbrev race : List Attempt
race = Attempt.starting ∷ Attempt.starting ∷ Attempt.beginning Lifecycle.running ∷ []

lost : ((start 0).0 ≡ ok tt) × (start (start 0).1 ≡ (err invalid_state, 1))
unfolding start transition
lost = (refl, refl)

after-created_example :
    (after race 0 ≤ after (race ++ Attempt.stopping Lifecycle.draining ∷ []) 0)
    × (after (race ++ Attempt.stopping Lifecycle.draining ∷ []) 0 ≤ 3)
    × (starts (race ++ Attempt.stopping Lifecycle.draining ∷ []) 0 ≤ 1)
after-created_example = after-created race (Attempt.stopping Lifecycle.draining ∷ [])
