-- ===== src/Game/Admission.antt =====
-- crates/rnet-game/src/admission.rs: which sessions may send, against close and stop.
pub mod Race
pub mod Shut
pub mod Emptied
pub mod Closing
pub mod Tests
use rnetlib.Prelude.{ℕ, Bool, true, false, not, ◌&&◌, ◌||◌, Option, none, some, ◌==◌, if◌then◌else◌}

-- The set of ready sessions, as its test.
pub record SendAdmission : Type 0 where
  pub ready : ℕ → Bool
  pub stopping : Bool

abbrev pub new : SendAdmission
new = record { ready = λ session. false; stopping = false }

abbrev pub begin_stop : SendAdmission → SendAdmission
begin_stop a = record a { stopping = true }

abbrev pub publish : ℕ → SendAdmission → SendAdmission
publish session a = record a { ready = λ s. s == session || a.ready s }

abbrev pub contains : ℕ → SendAdmission → Bool
contains session a = a.ready session

-- The test of `with_ready`, under its read lock, before the operation.
unfoldable pub with_ready {ℓ} : {A : Type ℓ} → ℕ → A → SendAdmission → Option A
with_ready session operation a =
    if not (contains session a) || a.stopping then none else some operation

abbrev pub remove : ℕ → SendAdmission → SendAdmission
remove session a = record a { ready = λ s. not (s == session) && a.ready s }

abbrev pub clear : SendAdmission → SendAdmission
clear a = record a { ready = λ s. false }
