-- ===== src/Security/Transition/Link.antt =====
-- crates/rnet-transport/src/adaptive_tcp_session.rs: the session driver around the controller, and the
-- two ends of one connection. The bytes of a record are in Protocol/Control.antt; here a protected
-- record carries the number of rekeys of the key that sealed it, and opens only under the same number.
pub mod Phases
pub mod Agreement
pub mod Runs
mod Tests
use rnetlib.Prelude.{
  ℕ, suc, Bool, true, false, not, ◌&&◌, List, [], ◌∷◌, ◌++◌, Option, none, some, Result, ok, err,
  protocol_error, crypto_error, message_too_large, ltb, length, ◌>>=◌, ◌>>◌, reject, ◌==◌,
  if◌then◌else◌,
}
use rnetlib.Protocol.Frame.{decode_datagram}
use rnetlib.Protocol.Control.{Control}
use rnetlib.Protocol.Control.Kinds.{SecurityMode}
use rnetlib.Security.Transition.{
  Role, Effect, Transition, SecurityController, new, is_transitioning, same_mode, begin_switch,
  begin_rekey, handle,
}

-- The messages of a protected record that an established session takes.
pub data Message : Type 0 where
  app_data game_control : (payload : List ℕ) → Message
  control : Control → Message

pub data Sealed : Type 0 where
  plain_data : (epoch : ℕ) (payload : List ℕ) → Sealed
  protected : (epoch key : ℕ) → Message → Sealed

pub record Session : Type 0 where
  pub controller : SecurityController
  pub incoming : ℕ
  pub outgoing : ℕ
  pub max_body_len : ℕ

pub data SecurityCommand : Type 0 where
  change_mode : SecurityMode → SecurityCommand
  start_rekey : SecurityCommand

pub data Outbound : Type 0 where
  outbound_data outbound_control : (payload : List ℕ) → Outbound

abbrev pub is_encrypted : SecurityMode → Bool
is_encrypted SecurityMode.encrypted = true
is_encrypted SecurityMode.plaintext = false

abbrev pub apply_effect : Effect → Session → Session
apply_effect Effect.rekey s = record s { incoming = suc s.incoming; outgoing = suc s.outgoing }
apply_effect _ s = s

abbrev pub write_control : ℕ → Control → Session → Sealed
write_control epoch c s = protected epoch s.outgoing (control c)

-- The response of a transition, under the epoch of the record it answers.
abbrev pub write_response : ℕ → Option Control → Session → List Sealed
write_response epoch none s = []
write_response epoch (some response) s = write_control epoch response s ∷ []

abbrev pub respond :
    ℕ → Session → Result Transition × SecurityController → Result (List Sealed × Session)
respond epoch s (err e, c) = err e
respond epoch s (ok t, c) =
    let s' = apply_effect t.before_response (record s { controller = c }) in
    ok (write_response epoch t.response s', apply_effect t.after_response s')

-- `process_inbound`, on a session that is active: the records it writes, and the session after it.
pub process_inbound : Sealed → Session → Result (List Sealed × Session)
process_inbound (plain_data epoch payload) s = do
  _ ← reject (not (epoch == s.controller.epoch)) protocol_error
  _ ← reject (is_encrypted s.controller.mode) protocol_error
  _ ← decode_datagram payload s.max_body_len
  ok ([], s)
process_inbound (protected epoch key message) s = do
  _ ← reject (not (epoch == s.controller.epoch)) protocol_error
  _ ← reject (not (key == s.incoming)) crypto_error
  process message
  where
    process : Message → Result (List Sealed × Session)
    process (app_data payload) = do
      _ ← reject (not (is_encrypted s.controller.mode)) protocol_error
      _ ← decode_datagram payload s.max_body_len
      ok ([], s)
    process (game_control payload) = do
      _ ← reject (ltb s.max_body_len (length payload)) message_too_large
      ok ([], s)
    process (control c) = respond epoch s (handle c s.controller)

abbrev pub begin : SecurityCommand → SecurityController → Result Control × SecurityController
begin (change_mode mode) c = begin_switch mode c
begin start_rekey c = begin_rekey c

abbrev pub start : Session → Result Control × SecurityController → List Sealed × Session
start s (err e, c) = ([], record s { controller = c })
start s (ok request, c) = (write_control c.epoch request s ∷ [], record s { controller = c })

-- The `command` arm of the session loop, taken only outside a transition.
pub take_command : SecurityCommand → Session → List Sealed × Session
take_command command s =
    if is_transitioning s.controller then ([], s) else start s (begin command s.controller)

abbrev pub encode_outbound : Outbound → Session → Sealed
encode_outbound (outbound_control payload) s =
    protected s.controller.epoch s.outgoing (game_control payload)
encode_outbound (outbound_data payload) s =
    if is_encrypted s.controller.mode
    then protected s.controller.epoch s.outgoing (app_data payload)
    else plain_data s.controller.epoch payload

-- The `outbound` arm of the session loop, taken only outside a transition.
pub take_outbound : Outbound → Session → List Sealed
take_outbound outbound s =
    if is_transitioning s.controller then [] else encode_outbound outbound s ∷ []

-- The two ends and the records on their way, each direction in order.
pub record Link : Type 0 where
  pub server : Session
  pub client : Session
  pub to_client : List Sealed
  pub to_server : List Sealed

pub data Action : Type 0 where
  server_command : SecurityCommand → Action
  server_send client_send : Outbound → Action
  client_receive server_receive : Action

pub step : Action → Link → Result Link
unfolding take_command take_outbound
step (server_command command) l =
    let (out, s) = take_command command l.server in
    ok (record l { server = s; to_client = l.to_client ++ out })
step (server_send outbound) l =
    ok (record l { to_client = l.to_client ++ take_outbound outbound l.server })
step (client_send outbound) l =
    ok (record l { to_server = l.to_server ++ take_outbound outbound l.client })
step client_receive l = elim l.to_client [
  | [] ↦ ok l
  | arrived ∷ rest ↦ do
    (out, c) ← process_inbound arrived l.client
    ok (record l { client = c; to_client = rest; to_server = l.to_server ++ out })
]
step server_receive l = elim l.to_server [
  | [] ↦ ok l
  | arrived ∷ rest ↦ do
    (out, s) ← process_inbound arrived l.server
    ok (record l { server = s; to_server = rest; to_client = l.to_client ++ out })
]

-- The actions in order; an error ends the connection.
pub run : List Action → Link → Result Link
unfolding step
run [] l = ok l
run (action ∷ actions) l = step action l >>= run actions

abbrev pub established : ℕ → SecurityMode → ℕ → Link
established max_body_len mode epoch = record {
  server = record {
    controller = new Role.server mode epoch;
    incoming = 0;
    outgoing = 0;
    max_body_len = max_body_len;
  };
  client = record {
    controller = new Role.client mode epoch;
    incoming = 0;
    outgoing = 0;
    max_body_len = max_body_len;
  };
  to_client = [];
  to_server = [];
}
