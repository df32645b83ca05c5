-- ===== src/Game/ClockSync/Accuracy.antt =====
-- The controls of crates/rnet-game/src/clock_sync.rs on the wire, and how near an estimate is to the true
-- difference of the clocks.
use rnetlib.Prelude.{
  ℕ, ◌+◌, ◌-◌, ◌*◌, ◌^◌, ◌≤◌, ◌<◌, ◌≡◌, refl, ap, arith, false, some, ltb, le→leb, inl, inr, ◌⊎◌,
}
use rnetlib.Prelude.Int.{
  ℤ, pos_part, neg_part, sub_ℕ, ◌+ℤ◌, half, sub_ℕ_parts, +ℤ_parts, half_parts, one_part,
}
use rnetlib.Game.ClockSync.{ClockSyncSample, to_i64, offset, calculate_sample}

-- Twice the estimate is the sum of the two differences, but for a rounding of one.
offset_lem :
    (t1 t2 t3 t4 : ℕ)
    → let o = offset t1 t2 t3 t4 in
      (2 * pos_part o + (t1 + t4) ≤ 2 * neg_part o + (t2 + t3) + 1)
      × (2 * neg_part o + (t2 + t3) ≤ 2 * pos_part o + (t1 + t4) + 1)
      × ((pos_part o ≡ 0) ⊎ (neg_part o ≡ 0))
unfolding offset
offset_lem t1 t2 t3 t4 =
    let there = sub_ℕ t2 t1 in
    let back = sub_ℕ t3 t4 in
    let sum = there +ℤ back in
    let a = sub_ℕ_parts t2 t1 in
    let b = sub_ℕ_parts t3 t4 in
    let (c, one_zero) = +ℤ_parts there back in
    let (h, k) = half_parts sum in
    elim one_zero [
      | inl z ↦
          (omega (arith, a, b, c, h, k, z), omega (arith, a, b, c, h, k, z), one_part (half sum))
      | inr z ↦
          (omega (arith, a, b, c, h, k, z), omega (arith, a, b, c, h, k, z), one_part (half sum))
    ]

fits_i64 : (z : ℤ) → pos_part z ≤ 2 ^ 63 - 1 → neg_part z ≤ 2 ^ 63 → to_i64 z ≡ some z
fits_i64 z h k = rw (le→leb (pos_part z) (2 ^ 63 - 1) h, le→leb (neg_part z) (2 ^ 63) k) refl

calculated :
    (t1 t2 t3 t4 : ℕ)
    → t2 ≤ t3
    → t1 ≤ t4
    → t3 - t2 ≤ t4 - t1
    → to_i64 (offset t1 t2 t3 t4) ≡ some (offset t1 t2 t3 t4)
    → calculate_sample t1 t2 t3 t4
      ≡ some (record {
        server_minus_client_us = offset t1 t2 t3 t4;
        rtt = (t4 - t1 - (t3 - t2)) * 1000;
        samples = 1;
      })
unfolding calculate_sample
calculated t1 t2 t3 t4 server client rtt fits =
    rw (ge→ltb t3 t2 server, ge→ltb t4 t1 client, ge→ltb (t4 - t1) (t3 - t2) rtt, fits) refl
  where
    ge→ltb : (a b : ℕ) → b ≤ a → ltb a b ≡ false
    ge→ltb a b h = ground arith

-- Let the server clock be ahead of the client clock by the true difference, the request travel for `d1`
-- and the reply for `d2` microseconds, and all timestamps be below `2 ^ 63`. Then there is a sample: its
-- round trip is `d1 + d2`, and twice its error is at most the round trip and one for the rounding.
pub calculate_sample_lem :
    (t1 t2 t3 t4 d1 d2 : ℕ) (true_difference : ℤ)
    → t2 + neg_part true_difference ≡ t1 + d1 + pos_part true_difference
    → t2 ≤ t3
    → t4 + pos_part true_difference ≡ t3 + d2 + neg_part true_difference
    → t1 < 2 ^ 63
    → t3 < 2 ^ 63
    → t4 < 2 ^ 63
    → (s : ClockSyncSample) × (calculate_sample t1 t2 t3 t4 ≡ some s)
      × (s.rtt ≡ (d1 + d2) * 1000)
      × (2 * (pos_part s.server_minus_client_us + neg_part true_difference)
          ≤ 2 * (neg_part s.server_minus_client_us + pos_part true_difference) + (d1 + d2) + 1)
      × (2 * (neg_part s.server_minus_client_us + pos_part true_difference)
          ≤ 2 * (pos_part s.server_minus_client_us + neg_part true_difference) + (d1 + d2) + 1)
calculate_sample_lem t1 t2 t3 t4 d1 d2 θ arrived served returned small₁ small₃ small₄ =
    let o = offset t1 t2 t3 t4 in
    let (above, below, one_zero) = offset_lem t1 t2 t3 t4 in
    let trip : t4 - t1 - (t3 - t2) ≡ d1 + d2 = omega arith in
    let fits : to_i64 o ≡ some o = elim one_zero [
      | inl z ↦ fits_i64 o (omega (arith, z)) (omega (arith, z, below))
      | inr z ↦ fits_i64 o (omega (arith, z, above)) (omega (arith, z))
    ] in
    (
      record { server_minus_client_us = o; rtt = (t4 - t1 - (t3 - t2)) * 1000; samples = 1 },
      calculated t1 t2 t3 t4 served (omega arith) (omega arith) fits,
      ap (λ (n : ℕ). n * 1000) trip,
      omega (arith, above, below),
      omega (arith, above, below),
    )
