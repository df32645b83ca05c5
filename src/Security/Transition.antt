-- ===== src/Security/Transition.antt =====
-- crates/rnet-security/src/transition.rs: the barriers of a mode switch and of a rekey.
pub mod Link
use rnetlib.Prelude.{
  ℕ, Bool, true, false, not, Option, none, some, Result, ok, err, invalid_state, ◌>>=◌, ◌>>◌,
  reject, ok_or, ◌==◌, if◌then◌else◌, checked_add, is_some,
}
use rnetlib.Protocol.Control.{Control}
use rnetlib.Protocol.Control.Kinds.{SecurityMode, ControlKind}

pub data Role : Type 0 where
  server client : Role

pub data Effect : Type 0 where
  no_effect rekey advance_epoch : Effect
  set_mode : SecurityMode → Effect

pub record Transition : Type 0 where
  pub before_response : Effect
  pub response : Option Control
  pub after_response : Effect

pub data Pending : Type 0 where
  server_switch_ready server_switch_ack client_switch_commit :
      (epoch : ℕ) (mode : SecurityMode) → Pending
  server_rekey_ready server_rekey_ack client_rekey_commit : (epoch : ℕ) → Pending

pub record SecurityController : Type 0 where
  pub role : Role
  pub mode : SecurityMode
  pub epoch : ℕ
  pub pending : Option Pending

abbrev pub new : Role → SecurityMode → ℕ → SecurityController
new role mode epoch = record { role = role; mode = mode; epoch = epoch; pending = none }

-- `Control::switch` and `Control::barrier`.
abbrev pub switch : ControlKind → ℕ → SecurityMode → Control
switch kind epoch mode = record { kind = kind; epoch = epoch; mode = some mode }

abbrev pub barrier : ControlKind → ℕ → Control
barrier kind epoch = record { kind = kind; epoch = epoch; mode = none }

abbrev pub transition_response : Control → Transition
transition_response control = record {
  before_response = Effect.no_effect;
  response = some control;
  after_response = Effect.no_effect;
}

abbrev pub is_server : Role → Bool
is_server Role.server = true
is_server Role.client = false

abbrev pub same_mode : SecurityMode → SecurityMode → Bool
same_mode SecurityMode.plaintext SecurityMode.plaintext = true
same_mode SecurityMode.encrypted SecurityMode.encrypted = true
same_mode _ _ = false

abbrev pub is_transitioning : SecurityController → Bool
is_transitioning c = is_some c.pending

pub ensure_server_idle : SecurityController → Result (Unit {0})
ensure_server_idle c =
    reject (not (is_server c.role)) invalid_state
    >> reject (is_some c.pending) invalid_state
    >> reject (c.epoch == 0) invalid_state

pub next_epoch : SecurityController → Result ℕ
next_epoch c = ok_or (checked_add c.epoch 1) invalid_state

pub validate_next_epoch : SecurityController → ℕ → Result (Unit {0})
unfolding next_epoch
validate_next_epoch c epoch = do next ← next_epoch c; reject (not (epoch == next)) invalid_state

-- The result of a method that changes the controller only when it succeeds.
abbrev pub commit {ℓ} :
    {A : Type ℓ}
    → SecurityController
    → Result (A × SecurityController)
    → Result A × SecurityController
commit c (ok (a, c')) = (ok a, c')
commit c (err e) = (err e, c)

pub begin_switch : SecurityMode → SecurityController → Result Control × SecurityController
unfolding ensure_server_idle next_epoch
begin_switch mode c = commit c do
  _ ← ensure_server_idle c
  _ ← reject (same_mode mode c.mode) invalid_state
  epoch ← next_epoch c
  ok (
    switch ControlKind.switch_propose epoch mode,
    record c { pending = some (Pending.server_switch_ready epoch mode) },
  )

pub begin_rekey : SecurityController → Result Control × SecurityController
unfolding ensure_server_idle next_epoch
begin_rekey c = commit c do
  _ ← ensure_server_idle c
  epoch ← next_epoch c
  ok (
    barrier ControlKind.rekey_propose epoch,
    record c { pending = some (Pending.server_rekey_ready epoch) },
  )

-- The arms of the match in `handle` by role, pending barrier and kind. Any other case, and an arm whose
-- guard fails, is the last arm.
pub handle_at :
    Role
    → Option Pending
    → ControlKind
    → Control
    → SecurityController
    → Result (Transition × SecurityController)
unfolding validate_next_epoch
handle_at Role.client none ControlKind.switch_propose control c = do
  mode ← ok_or control.mode invalid_state
  _ ← validate_next_epoch c control.epoch
  ok (
    transition_response (barrier ControlKind.switch_ready control.epoch),
    record c { pending = some (Pending.client_switch_commit control.epoch mode) },
  )
handle_at Role.server (some (Pending.server_switch_ready epoch mode)) ControlKind.switch_ready
      control c =
    if control.epoch == epoch
    then ok (
      transition_response (barrier ControlKind.switch_commit epoch),
      record c { pending = some (Pending.server_switch_ack epoch mode) },
    )
    else err invalid_state
handle_at Role.client (some (Pending.client_switch_commit epoch mode)) ControlKind.switch_commit
      control c =
    if control.epoch == epoch
    then ok (
      record {
        before_response = Effect.set_mode mode;
        response = some (barrier ControlKind.switch_ack epoch);
        after_response = Effect.no_effect;
      },
      record c { mode = mode; epoch = epoch; pending = none },
    )
    else err invalid_state
handle_at Role.server (some (Pending.server_switch_ack epoch mode)) ControlKind.switch_ack control
      c =
    if control.epoch == epoch
    then ok (
      record {
        before_response = Effect.set_mode mode;
        response = none;
        after_response = Effect.no_effect;
      },
      record c { mode = mode; epoch = epoch; pending = none },
    )
    else err invalid_state
handle_at Role.client none ControlKind.rekey_propose control c = do
  _ ← validate_next_epoch c control.epoch
  ok (
    transition_response (barrier ControlKind.rekey_ready control.epoch),
    record c { pending = some (Pending.client_rekey_commit control.epoch) },
  )
handle_at Role.server (some (Pending.server_rekey_ready epoch)) ControlKind.rekey_ready control c =
    if control.epoch == epoch
    then ok (
      record {
        before_response = Effect.no_effect;
        response = some (barrier ControlKind.rekey_commit epoch);
        after_response = Effect.rekey;
      },
      record c { pending = some (Pending.server_rekey_ack epoch) },
    )
    else err invalid_state
handle_at Role.client (some (Pending.client_rekey_commit epoch)) ControlKind.rekey_commit control
      c =
    if control.epoch == epoch
    then ok (
      record {
        before_response = Effect.rekey;
        response = some (barrier ControlKind.rekey_ack epoch);
        after_response = Effect.no_effect;
      },
      record c { epoch = epoch; pending = none },
    )
    else err invalid_state
handle_at Role.server (some (Pending.server_rekey_ack epoch)) ControlKind.rekey_ack control c =
    if control.epoch == epoch
    then ok (
      record {
        before_response = Effect.advance_epoch;
        response = none;
        after_response = Effect.no_effect;
      },
      record c { epoch = epoch; pending = none },
    )
    else err invalid_state
handle_at _ _ _ control c = err invalid_state

pub handle : Control → SecurityController → Result Transition × SecurityController
unfolding handle_at
handle control c = commit c (handle_at c.role c.pending control.kind control c)
