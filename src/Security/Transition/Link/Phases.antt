-- ===== src/Security/Transition/Link/Phases.antt =====
-- The two ends of a connection of crates/rnet-security/src/transition.rs and
-- crates/rnet-transport/src/adaptive_tcp_session.rs agree on mode, epoch and keys.
use rnetlib.Prelude.{
  length, ◌≤◌, ℕ, suc, ◌+◌, ◌<◌, ◌^◌, ◌≡◌, arith, true, false, Option, none, some, List, [], ◌∷◌,
  ◌++◌, ok, All,
}
use rnetlib.Protocol.Frame.{Frame, decode_datagram}
use rnetlib.Protocol.Control.{Control}
use rnetlib.Protocol.Control.Kinds.{SecurityMode, ControlKind}
use rnetlib.Security.Transition.{
  Role, Pending, switch, barrier, next_epoch, validate_next_epoch, handle_at, handle,
}
use rnetlib.Security.Transition.Link.{
  Outbound, Message, Sealed, Session, is_encrypted, process_inbound, Link,
}

-- What the two ends agree on outside a transition.
pub record Terms : Type 0 where
  pub mode : SecurityMode
  pub epoch : ℕ
  pub key : ℕ
  pub max_body_len : ℕ

-- Bytes that the peer decodes as a frame.
abbrev pub IsFrame : ℕ → List ℕ → Type 0
IsFrame max_body_len payload = (f : Frame) × (decode_datagram payload max_body_len ≡ ok f)

-- What a session is given to send: encoded frames, and controls within the limit of a body.
abbrev pub IsSendable : ℕ → Outbound → Type 0
IsSendable max_body_len (Outbound.outbound_data payload) = IsFrame max_body_len payload
IsSendable max_body_len (Outbound.outbound_control payload) = length payload ≤ max_body_len

-- A record of business data or game control under these terms.
abbrev pub IsPlainOf : Terms → Sealed → Type 0
IsPlainOf t (Sealed.plain_data epoch payload) =
    (epoch ≡ t.epoch) × (is_encrypted t.mode ≡ false) × IsFrame t.max_body_len payload
IsPlainOf t (Sealed.protected epoch key (Message.app_data payload)) =
    (epoch ≡ t.epoch)
    × (key ≡ t.key)
    × (is_encrypted t.mode ≡ true)
    × IsFrame t.max_body_len payload
IsPlainOf t (Sealed.protected epoch key (Message.game_control payload)) =
    (epoch ≡ t.epoch) × (key ≡ t.key) × (length payload ≤ t.max_body_len)
IsPlainOf t (Sealed.protected epoch key (Message.control c)) = ⊥

-- A transition: a new mode, or new keys.
pub data Change : Type 0 where
  switched : SecurityMode → Change
  rekeyed : Change

abbrev pub after : Change → Terms → Terms
after (switched mode) t = record {
  mode = mode;
  epoch = t.epoch + 1;
  key = t.key;
  max_body_len = t.max_body_len;
}
after rekeyed t = record {
  mode = t.mode;
  epoch = t.epoch + 1;
  key = suc t.key;
  max_body_len = t.max_body_len;
}

abbrev pub awaiting_ready : Change → ℕ → Pending
awaiting_ready (switched mode) epoch = Pending.server_switch_ready epoch mode
awaiting_ready rekeyed epoch = Pending.server_rekey_ready epoch

abbrev pub awaiting_ack : Change → ℕ → Pending
awaiting_ack (switched mode) epoch = Pending.server_switch_ack epoch mode
awaiting_ack rekeyed epoch = Pending.server_rekey_ack epoch

abbrev pub awaiting_commit : Change → ℕ → Pending
awaiting_commit (switched mode) epoch = Pending.client_switch_commit epoch mode
awaiting_commit rekeyed epoch = Pending.client_rekey_commit epoch

abbrev pub propose : Change → ℕ → Control
propose (switched mode) epoch = switch ControlKind.switch_propose epoch mode
propose rekeyed epoch = barrier ControlKind.rekey_propose epoch

abbrev pub ready : Change → ℕ → Control
ready (switched mode) epoch = barrier ControlKind.switch_ready epoch
ready rekeyed epoch = barrier ControlKind.rekey_ready epoch

abbrev pub committed_by : Change → ℕ → Control
committed_by (switched mode) epoch = barrier ControlKind.switch_commit epoch
committed_by rekeyed epoch = barrier ControlKind.rekey_commit epoch

abbrev pub ack : Change → ℕ → Control
ack (switched mode) epoch = barrier ControlKind.switch_ack epoch
ack rekeyed epoch = barrier ControlKind.rekey_ack epoch

-- An end at these terms, with keys of the other end.
abbrev pub end_at : Role → Terms → Option Pending → ℕ → Session
end_at role t pending key = record {
  controller = record { role = role; mode = t.mode; epoch = t.epoch; pending = pending };
  incoming = key;
  outgoing = key;
  max_body_len = t.max_body_len;
}

abbrev pub sealed : Terms → ℕ → Control → Sealed
sealed t key c = Sealed.protected t.epoch key (Message.control c)

-- The links of a transition, from before it to its end.
abbrev pub quiet_link : Terms → List Sealed → List Sealed → Link
quiet_link t xs ys = record {
  server = end_at Role.server t none t.key;
  client = end_at Role.client t none t.key;
  to_client = xs;
  to_server = ys;
}

abbrev pub proposed_link : Terms → Change → List Sealed → List Sealed → Link
proposed_link t c xs ys = record {
  server = end_at Role.server t (some (awaiting_ready c (t.epoch + 1))) t.key;
  client = end_at Role.client t none t.key;
  to_client = xs ++ sealed t t.key (propose c (t.epoch + 1)) ∷ [];
  to_server = ys;
}

abbrev pub readied_link : Terms → Change → List Sealed → Link
readied_link t c ys = record {
  server = end_at Role.server t (some (awaiting_ready c (t.epoch + 1))) t.key;
  client = end_at Role.client t (some (awaiting_commit c (t.epoch + 1))) t.key;
  to_client = [];
  to_server = ys ++ sealed t t.key (ready c (t.epoch + 1)) ∷ [];
}

abbrev pub committed_link : Terms → Change → Link
committed_link t c = record {
  server = end_at Role.server t (some (awaiting_ack c (t.epoch + 1))) (after c t).key;
  client = end_at Role.client t (some (awaiting_commit c (t.epoch + 1))) t.key;
  to_client = sealed t t.key (committed_by c (t.epoch + 1)) ∷ [];
  to_server = [];
}

abbrev pub acked_link : Terms → Change → List Sealed → Link
acked_link t c ys = record {
  server = end_at Role.server t (some (awaiting_ack c (t.epoch + 1))) (after c t).key;
  client = end_at Role.client (after c t) none (after c t).key;
  to_client = [];
  to_server = sealed t (after c t).key (ack c (t.epoch + 1)) ∷ ys;
}

-- How far a transition has come. Only what the barriers of both ends let through is under way.
pub data Phase (t : Terms) : Link → Type 0 where
  quiet :
      (xs ys : List Sealed)
      → All (IsPlainOf t) xs
      → All (IsPlainOf t) ys
      → Phase t (quiet_link t xs ys)
  proposed :
      (c : Change) (xs ys : List Sealed)
      → t.epoch + 1 < 2 ^ 64
      → All (IsPlainOf t) xs
      → All (IsPlainOf t) ys
      → Phase t (proposed_link t c xs ys)
  readied :
      (c : Change) (ys : List Sealed)
      → t.epoch + 1 < 2 ^ 64
      → All (IsPlainOf t) ys
      → Phase t (readied_link t c ys)
  committed : (c : Change) → t.epoch + 1 < 2 ^ 64 → Phase t (committed_link t c)
  acked :
      (c : Change) (ys : List Sealed)
      → t.epoch + 1 < 2 ^ 64
      → All (IsPlainOf (after c t)) ys
      → Phase t (acked_link t c ys)

-- A record of business data passes, whatever the barriers are.
pub inbound_plain :
    (t : Terms) (role : Role) (pending : Option Pending) (r : Sealed)
    → IsPlainOf t r
    → process_inbound r (end_at role t pending t.key) ≡ ok ([], end_at role t pending t.key)
unfolding process_inbound
inbound_plain t role pending (Sealed.plain_data epoch payload) (e, plain, (f, decoded)) =
    ground (arith, e, plain, decoded)
inbound_plain t role pending (Sealed.protected epoch key (Message.app_data payload))
      (e, k, encrypted, (f, decoded)) =
    ground (arith, e, k, encrypted, decoded)
inbound_plain t role pending (Sealed.protected epoch key (Message.game_control payload)) p =
    ground arith
inbound_plain t role pending (Sealed.protected epoch key (Message.control c)) p = absurd p

pub inbound_propose :
    (t : Terms) (c : Change)
    → t.epoch + 1 < 2 ^ 64
    → process_inbound (sealed t t.key (propose c (t.epoch + 1))) (end_at Role.client t none t.key)
      ≡ ok (
        sealed t t.key (ready c (t.epoch + 1)) ∷ [],
        end_at Role.client t (some (awaiting_commit c (t.epoch + 1))) t.key,
      )
unfolding process_inbound handle handle_at validate_next_epoch next_epoch
inbound_propose t (switched mode) fits = ground arith
inbound_propose t rekeyed fits = ground arith

pub inbound_ready :
    (t : Terms) (c : Change)
    → process_inbound
        (sealed t t.key (ready c (t.epoch + 1)))
        (end_at Role.server t (some (awaiting_ready c (t.epoch + 1))) t.key)
      ≡ ok (
        sealed t t.key (committed_by c (t.epoch + 1)) ∷ [],
        end_at Role.server t (some (awaiting_ack c (t.epoch + 1))) (after c t).key,
      )
unfolding process_inbound handle handle_at
inbound_ready t (switched mode) = ground arith
inbound_ready t rekeyed = ground arith

pub inbound_commit :
    (t : Terms) (c : Change)
    → process_inbound
        (sealed t t.key (committed_by c (t.epoch + 1)))
        (end_at Role.client t (some (awaiting_commit c (t.epoch + 1))) t.key)
      ≡ ok (
        sealed t (after c t).key (ack c (t.epoch + 1)) ∷ [],
        end_at Role.client (after c t) none (after c t).key,
      )
unfolding process_inbound handle handle_at
inbound_commit t (switched mode) = ground arith
inbound_commit t rekeyed = ground arith

pub inbound_ack :
    (t : Terms) (c : Change)
    → process_inbound
        (sealed t (after c t).key (ack c (t.epoch + 1)))
        (end_at Role.server t (some (awaiting_ack c (t.epoch + 1))) (after c t).key)
      ≡ ok ([], end_at Role.server (after c t) none (after c t).key)
unfolding process_inbound handle handle_at
inbound_ack t (switched mode) = ground arith
inbound_ack t rekeyed = ground arith
