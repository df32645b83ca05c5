-- ===== src/Security/Transition/Link/Tests.antt =====
-- A switch to plaintext and a rekey.
use rnetlib.Prelude.{All, ◌≡◌, ◌≢◌, refl, arith, false, List, [], ◌∷◌, ok, err, invalid_state, some}
use rnetlib.Protocol.Control.Kinds.{SecurityMode, ControlKind}
use rnetlib.Security.Transition.{
  Role, Pending, new, barrier, is_transitioning, begin_rekey, ensure_server_idle, next_epoch,
  handle, handle_at,
}
use rnetlib.Security.Transition.Link.{
  Message, Sealed, Link, Action, SecurityCommand, Outbound, step, run, established, take_command,
}
use rnetlib.Security.Transition.Link.Runs.{IsFair, Agrees, Settles, run-Agrees, run-Settles}

-- The server asks for plaintext, and the client sends before it learns of it.
abbrev actions : List Action
actions =
    Action.client_send (Outbound.outbound_control (1 ∷ []))
    ∷ Action.server_command (SecurityCommand.change_mode SecurityMode.plaintext)
    ∷ Action.client_receive
    ∷ Action.server_receive
    ∷ Action.server_receive
    ∷ []

nonzero : (established 16 SecurityMode.encrypted 1).server.controller.epoch ≢ 0
nonzero = omega arith

actions-IsFair : All (IsFair 16) actions
actions-IsFair = (omega arith, (tt, (tt, (tt, (tt, tt)))))

run-Agrees_example :
    (l : Link) × (run actions (established 16 SecurityMode.encrypted 1) ≡ ok l)
    × (is_transitioning l.server.controller ≡ false → Agrees l)
run-Agrees_example = run-Agrees 16 SecurityMode.encrypted 1 actions nonzero actions-IsFair

-- A rekey that the client has not seen yet.
abbrev rekeying : Link
rekeying = record {
  server = record {
    controller = record {
      role = Role.server;
      mode = SecurityMode.encrypted;
      epoch = 1;
      pending = some (Pending.server_rekey_ready 2);
    };
    incoming = 0;
    outgoing = 0;
    max_body_len = 16;
  };
  client = record {
    controller = new Role.client SecurityMode.encrypted 1;
    incoming = 0;
    outgoing = 0;
    max_body_len = 16;
  };
  to_client = Sealed.protected 1 0 (Message.control (barrier ControlKind.rekey_propose 2)) ∷ [];
  to_server = [];
}

rekey_started :
    run
      (Action.server_command SecurityCommand.start_rekey ∷ [])
      (established 16 SecurityMode.encrypted 1)
    ≡ ok rekeying
unfolding run step take_command begin_rekey ensure_server_idle next_epoch
rekey_started = refl

-- A commit that comes before the proposal is refused.
early_commit :
    (handle (barrier ControlKind.switch_commit 2) (new Role.client SecurityMode.encrypted 1)).0
    ≡ err invalid_state
unfolding handle handle_at
early_commit = refl

run-Settles_example : Settles rekeying
run-Settles_example =
    run-Settles 16 SecurityMode.encrypted 1 (Action.server_command SecurityCommand.start_rekey ∷ [])
      rekeying nonzero (tt, tt) rekey_started
