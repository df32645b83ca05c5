-- ===== src/Game/Quality/Once.antt =====
-- Each sequence number counts once, over `UdpLossTracker` of crates/rnet-game/src/quality.rs.
use rnetlib.Prelude.{ℕ, ◌^◌, ◌≤◌, ◌≡◌, false, ◌||◌, Bool, List, [], ◌∷◌, some, ◌==◌, sat_add, ◌⊎◌}
use rnetlib.Game.Quality.{UdpObservation, UdpLossTracker, wrapping_sub}
use rnetlib.Game.Quality.Origin.{Origin}

-- Whether the number is in the list.
abbrev pub is_in : ℕ → List ℕ → Bool
is_in n [] = false
is_in n (x ∷ xs) = n == x || is_in n xs

-- An observation that counts a message.
abbrev pub Counts : UdpObservation × UdpLossTracker → UdpLossTracker → Type 0
Counts (o, t') t = t'.received ≡ sat_add t.received 1

-- The number is out of the window, behind the highest one.
abbrev pub TooLate : ℕ → UdpLossTracker → Type 0
TooLate sequence t =
    (highest : ℕ) × (t.highest ≡ some highest)
    × (wrapping_sub highest sequence ≤ 2 ^ 31)
    × ((64 ≤ wrapping_sub highest sequence) ⊎ (t.span ≤ wrapping_sub highest sequence))
