-- ===== src/Security/Transition/Link/Agreement.antt =====
-- Runs of a connection: no record that arrives is refused, and outside a transition both ends agree.
use mathlib.Core.Path.{subst}
use mathlib.Core.List.{append-nil}
use rnetlib.Prelude.{
  sym, ℕ, ◌+◌, ◌<◌, ◌^◌, ◌≡◌, ◌≢◌, refl, ap, arith, Option, none, some, [], ◌∷◌, ◌++◌, Result, ok,
  All-append, Bool-cases, inl, inr, ◌⊎◌, ltb, ltb→lt, u64_mod,
}
use rnetlib.Security.Transition.{
  Role, Pending, same_mode, ensure_server_idle, next_epoch, begin_switch, begin_rekey,
}
use rnetlib.Security.Transition.Link.{
  SecurityCommand, Outbound, is_encrypted, take_command, take_outbound, encode_outbound, Link,
  Action, step,
}
use rnetlib.Security.Transition.Link.Phases.{
  IsSendable, Terms, IsPlainOf, Change, switched, rekeyed, after, awaiting_ready, propose, end_at,
  sealed, Phase, quiet, proposed, readied, committed, acked, inbound_plain, inbound_propose,
  inbound_ready, inbound_commit, inbound_ack,
}

-- Some phase of some transition.
abbrev pub InPhase : ℕ → Link → Type 0
InPhase m l = (t : Terms) × (t.epoch ≢ 0) × (t.max_body_len ≡ m) × Phase t l

-- A step that succeeds and stays within the phases.
abbrev pub StepsOn : ℕ → Result Link → Type 0
StepsOn m r = (l : Link) × (r ≡ ok l) × InPhase m l

after_limit : (c : Change) (t : Terms) → (after c t).max_body_len ≡ t.max_body_len
after_limit (switched mode) t = refl
after_limit rekeyed t = refl

encode_outbound-IsPlainOf :
    (o : Outbound) (role : Role) (t : Terms) (pending : Option Pending)
    → IsSendable t.max_body_len o
    → IsPlainOf t (encode_outbound o (end_at role t pending t.key))
encode_outbound-IsPlainOf (Outbound.outbound_control payload) role t pending h = (refl, refl, h)
encode_outbound-IsPlainOf (Outbound.outbound_data payload) role t pending h =
    elim (Bool-cases (is_encrypted t.mode)) [
      | inl encrypted ↦ rw encrypted (refl, refl, encrypted, h)
      | inr plain ↦ rw plain (refl, plain, h)
    ]

-- What a command makes of an idle server: nothing, or the proposal of a change.
begin_quiet :
    (t : Terms) (command : SecurityCommand)
    → t.epoch ≢ 0
    → (take_command command (end_at Role.server t none t.key)
        ≡ ([], end_at Role.server t none t.key))
      ⊎ ((c : Change) × (t.epoch + 1 < 2 ^ 64)
          × (take_command command (end_at Role.server t none t.key) ≡ (
            sealed t t.key (propose c (t.epoch + 1)) ∷ [],
            end_at Role.server t (some (awaiting_ready c (t.epoch + 1))) t.key,
          )))
unfolding take_command begin_switch begin_rekey ensure_server_idle next_epoch
begin_quiet t (SecurityCommand.change_mode mode) e = elim (Bool-cases (same_mode mode t.mode)) [
  | inl same ↦ inl (rw same ground arith)
  | inr other ↦ elim (Bool-cases (ltb (t.epoch + 1) u64_mod)) [
    | inl fits ↦ inr (switched mode, ltb→lt _ _ fits, ground (arith, other))
    | inr full ↦ inl (ground (arith, other))
  ]
]
begin_quiet t SecurityCommand.start_rekey e = elim (Bool-cases (ltb (t.epoch + 1) u64_mod)) [
  | inl fits ↦ inr (rekeyed, ltb→lt _ _ fits, ground arith)
  | inr full ↦ inl (ground arith)
]

-- A link whose queues got nothing more.
pub same_to_client : (l : Link) → record l { to_client = l.to_client ++ [] } ≡ l
same_to_client l = ap (λ xs. record l { to_client = xs }) (append-nil l.to_client)

pub same_to_server : (l : Link) → record l { to_server = l.to_server ++ [] } ≡ l
same_to_server l = ap (λ ys. record l { to_server = ys }) (append-nil l.to_server)

pub step-command :
    (t : Terms) (l : Link) (command : SecurityCommand)
    → t.epoch ≢ 0
    → Phase t l
    → StepsOn t.max_body_len (step (Action.server_command command) l)
unfolding step
step-command t l command e (quiet xs ys px py) = elim (begin_quiet t command e) [
  | inl nothing ↦ (l, rw nothing (ap ok (same_to_client _)), (t, e, refl, quiet xs ys px py))
  | inr (c, fits, request) ↦ (_, rw request refl, (t, e, refl, proposed c xs ys fits px py))
]
step-command t l command e (proposed c xs ys fits px py) =
    (l, ap ok (same_to_client l), (t, e, refl, proposed c xs ys fits px py))
step-command t l command e (readied c ys fits py) = (l, refl, (t, e, refl, readied c ys fits py))
step-command t l command e (committed c fits) = (l, refl, (t, e, refl, committed c fits))
step-command t l command e (acked c ys fits py) = (l, refl, (t, e, refl, acked c ys fits py))

pub step-server_send :
    (t : Terms) (l : Link) (o : Outbound)
    → t.epoch ≢ 0
    → IsSendable t.max_body_len o
    → Phase t l
    → StepsOn t.max_body_len (step (Action.server_send o) l)
unfolding step take_outbound
step-server_send t l o e h (quiet xs ys px py) = (
  _,
  refl,
  (
    t,
    e,
    refl,
    quiet _ ys
        (All-append (IsPlainOf t) xs _ px (encode_outbound-IsPlainOf o Role.server t none h, tt))
        py,
  ),
)
step-server_send t l o e h (proposed c xs ys fits px py) =
    (l, ap ok (same_to_client l), (t, e, refl, proposed c xs ys fits px py))
step-server_send t l o e h (readied c ys fits py) = (l, refl, (t, e, refl, readied c ys fits py))
step-server_send t l o e h (committed c fits) = (l, refl, (t, e, refl, committed c fits))
step-server_send t l o e h (acked c ys fits py) = (l, refl, (t, e, refl, acked c ys fits py))

pub step-client_send :
    (t : Terms) (l : Link) (o : Outbound)
    → t.epoch ≢ 0
    → IsSendable t.max_body_len o
    → Phase t l
    → StepsOn t.max_body_len (step (Action.client_send o) l)
unfolding step take_outbound
step-client_send t l o e h (quiet xs ys px py) = (
  _,
  refl,
  (
    t,
    e,
    refl,
    quiet xs _ px
        (All-append (IsPlainOf t) ys _ py (encode_outbound-IsPlainOf o Role.client t none h, tt)),
  ),
)
step-client_send t l o e h (proposed c xs ys fits px py) = (
  _,
  refl,
  (
    t,
    e,
    refl,
    proposed c xs _ fits px
        (All-append (IsPlainOf t) ys _ py (encode_outbound-IsPlainOf o Role.client t none h, tt)),
  ),
)
step-client_send t l o e h (readied c ys fits py) =
    (l, ap ok (same_to_server l), (t, e, refl, readied c ys fits py))
step-client_send t l o e h (committed c fits) = (l, refl, (t, e, refl, committed c fits))
step-client_send t l o e h (acked c ys fits py) = (
  _,
  refl,
  (
    t,
    e,
    refl,
    acked c _ fits (
        All-append (IsPlainOf (after c t)) ys _ py (
          encode_outbound-IsPlainOf o Role.client (after c t) none
              (subst (λ m. IsSendable m o) (sym (after_limit c t)) h),
          tt,
        )),
  ),
)

pub step-client_receive :
    (t : Terms) (l : Link)
    → t.epoch ≢ 0
    → Phase t l
    → StepsOn t.max_body_len (step Action.client_receive l)
unfolding step
step-client_receive t l e (quiet [] ys px py) = (l, refl, (t, e, refl, quiet [] ys px py))
step-client_receive t l e (quiet (x ∷ xs) ys px py) = (
  _,
  rw (inbound_plain t Role.client none x px.0) (ap ok (same_to_server _)),
  (t, e, refl, quiet xs ys px.1 py),
)
step-client_receive t l e (proposed c [] ys fits px py) =
    (_, rw (inbound_propose t c fits) refl, (t, e, refl, readied c ys fits py))
step-client_receive t l e (proposed c (x ∷ xs) ys fits px py) = (
  _,
  rw (inbound_plain t Role.client none x px.0) (ap ok (same_to_server _)),
  (t, e, refl, proposed c xs ys fits px.1 py),
)
step-client_receive t l e (readied c ys fits py) = (l, refl, (t, e, refl, readied c ys fits py))
step-client_receive t l e (committed c fits) =
    (_, rw (inbound_commit t c) refl, (t, e, refl, acked c [] fits tt))
step-client_receive t l e (acked c ys fits py) = (l, refl, (t, e, refl, acked c ys fits py))

after_nonzero : (c : Change) (t : Terms) → (after c t).epoch ≢ 0
after_nonzero (switched mode) t = omega arith
after_nonzero rekeyed t = omega arith

pub step-server_receive :
    (t : Terms) (l : Link)
    → t.epoch ≢ 0
    → Phase t l
    → StepsOn t.max_body_len (step Action.server_receive l)
unfolding step
step-server_receive t l e (quiet xs [] px py) = (l, refl, (t, e, refl, quiet xs [] px py))
step-server_receive t l e (quiet xs (y ∷ ys) px py) = (
  _,
  rw (inbound_plain t Role.server none y py.0) (ap ok (same_to_client _)),
  (t, e, refl, quiet xs ys px py.1),
)
step-server_receive t l e (proposed c xs [] fits px py) =
    (l, refl, (t, e, refl, proposed c xs [] fits px py))
step-server_receive t l e (proposed c xs (y ∷ ys) fits px py) = (
  _,
  rw (inbound_plain t Role.server _ y py.0) (ap ok (same_to_client _)),
  (t, e, refl, proposed c xs ys fits px py.1),
)
step-server_receive t l e (readied c [] fits py) =
    (_, rw (inbound_ready t c) refl, (t, e, refl, committed c fits))
step-server_receive t l e (readied c (y ∷ ys) fits py) =
    (_, rw (inbound_plain t Role.server _ y py.0) refl, (t, e, refl, readied c ys fits py.1))
step-server_receive t l e (committed c fits) = (l, refl, (t, e, refl, committed c fits))
step-server_receive t l e (acked c ys fits py) = (
  _,
  rw (inbound_ack t c) refl,
  (after c t, after_nonzero c t, after_limit c t, quiet [] ys tt py),
)
