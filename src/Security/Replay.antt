-- ===== src/Security/Replay.antt =====
-- crates/rnet-security/src/lib.rs: the replay window of the datagram transport.
pub mod Marks
pub mod Refine
use rnetlib.Prelude.{
  ℕ, ◌+◌, ◌-◌, ◌*◌, ◌%◌, ◌^◌, Bool, true, false, not, ◌||◌, Option, none, some, ◌==◌, ltb, leb,
  if◌then◌else◌, u64_mod,
}
use Prim.Native.Nat.{bit_or, bit_and}

pub data SecurityError : Type 0 where
  peer_key_mismatch invalid_state crypto replay_detected : SecurityError

pub data Result {ℓ} (A : Type ℓ) : Type ℓ where
  ok : A → Result A
  err : SecurityError → Result A

pub record ReplayWindow : Type 0 where
  pub highest : Option ℕ
  pub bitmap : ℕ

abbrev pub fresh_window : ReplayWindow
fresh_window = record { highest = none; bitmap = 0 }

-- `distance >= 64 || bitmap & (1 << distance) != 0`
abbrev pub is_marked : ℕ → ℕ → Bool
is_marked bitmap distance = leb 64 distance || not (bit_and bitmap (2 ^ distance) == 0)

unfoldable pub contains : ReplayWindow → ℕ → Bool
contains w nonce = elim w.highest [
  | none ↦ false
  | some highest ↦ if ltb highest nonce then false else is_marked w.bitmap (highest - nonce)
]

-- The bitmap after a nonce that is `distance` above the highest: `<<` keeps 64 bits.
abbrev pub advance : ℕ → ℕ → ℕ
advance bitmap distance = if leb 64 distance then 1 else bit_or (bitmap * 2 ^ distance % u64_mod) 1

unfoldable pub insert : ReplayWindow → ℕ → Result (Unit {0}) × ReplayWindow
insert w nonce = elim w.highest [
  | none ↦ (ok tt, record { highest = some nonce; bitmap = 1 })
  | some highest ↦
      if ltb highest nonce
      then (ok tt, record { highest = some nonce; bitmap = advance w.bitmap (nonce - highest) })
      else if is_marked w.bitmap (highest - nonce)
      then (err SecurityError.replay_detected, w)
      else (ok tt, record w { bitmap = bit_or w.bitmap (2 ^ (highest - nonce)) })
]
