-- ===== src/Core/Lifecycle.antt =====
-- crates/rnet-core/src/lifecycle.rs: the lifecycle byte, its transitions, and threads that race on it.
pub mod Race
mod Tests
use rnetlib.Prelude.{
  ℕ, zero, suc, Bool, true, false, not, Result, ok, err, invalid_state, ◌==◌, if◌then◌else◌,
}

pub data Lifecycle : Type 0 where
  created running draining stopped : Lifecycle

abbrev pub code : Lifecycle → ℕ
code Lifecycle.created = 0
code Lifecycle.running = 1
code Lifecycle.draining = 2
code Lifecycle.stopped = 3

-- `load`, of the byte in the atomic.
pub lifecycle_of : ℕ → Lifecycle
lifecycle_of value =
    if value == 0
    then Lifecycle.created
    else if value == 1
    then Lifecycle.running
    else if value == 2
    then Lifecycle.draining
    else Lifecycle.stopped

-- `compare_exchange` on the byte.
pub transition : Lifecycle → Lifecycle → ℕ → Result (Unit {0}) × ℕ
transition from to byte = if byte == code from then (ok tt, code to) else (err invalid_state, byte)

pub start : ℕ → Result (Unit {0}) × ℕ
unfolding transition
start byte = transition Lifecycle.created Lifecycle.running byte

-- After the load returned `seen`; other threads may have changed the byte since.
pub begin_draining : Lifecycle → ℕ → Result (Unit {0}) × ℕ
unfolding transition
begin_draining Lifecycle.running byte = transition Lifecycle.running Lifecycle.draining byte
begin_draining Lifecycle.draining byte = (ok tt, byte)
begin_draining _ byte = (err invalid_state, byte)

pub mark_stopped : Lifecycle → ℕ → Result (Unit {0}) × ℕ
unfolding transition
mark_stopped Lifecycle.draining byte = transition Lifecycle.draining Lifecycle.stopped byte
mark_stopped Lifecycle.stopped byte = (ok tt, byte)
mark_stopped _ byte = (err invalid_state, byte)
