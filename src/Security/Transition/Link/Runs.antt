-- ===== src/Security/Transition/Link/Runs.antt =====
-- Whole runs of a connection: every transition that is begun is accepted by both ends and ends.
use mathlib.Core.Path.{subst}
use rnetlib.Prelude.{
  sym, ◌+◌, ◌<◌, ◌^◌, none, ℕ, ◌≡◌, ◌≢◌, refl, ap, ◌∙◌, false, List, [], ◌∷◌, ok, All,
}
use rnetlib.Protocol.Control.Kinds.{SecurityMode}
use rnetlib.Security.Transition.{Role, is_transitioning}
use rnetlib.Security.Transition.Link.{Sealed, Link, Action, step, run, established}
use rnetlib.Security.Transition.Link.Phases.{
  IsSendable, Terms, IsPlainOf, Change, after, Phase, quiet, proposed, readied, committed, acked,
  quiet_link, proposed_link, readied_link, committed_link, acked_link, inbound_plain,
  inbound_propose, inbound_ready, inbound_commit, inbound_ack,
}
use rnetlib.Security.Transition.Link.Agreement.{
  InPhase, StepsOn, step-command, step-server_send, step-client_send, step-client_receive,
  step-server_receive, same_to_server,
}

-- Both ends are outside a transition, with one mode, one epoch and matching keys.
pub record Agrees (l : Link) : Type 0 where
  pub client_idle : is_transitioning l.client.controller ≡ false
  pub same_mode : l.client.controller.mode ≡ l.server.controller.mode
  pub same_epoch : l.client.controller.epoch ≡ l.server.controller.epoch
  pub keys_to_client : l.client.incoming ≡ l.server.outgoing
  pub keys_to_server : l.server.incoming ≡ l.client.outgoing

Phase-Agrees :
    (t : Terms) (l : Link) → Phase t l → is_transitioning l.server.controller ≡ false → Agrees l
Phase-Agrees t l (quiet xs ys px py) idle = record {
  client_idle = refl;
  same_mode = refl;
  same_epoch = refl;
  keys_to_client = refl;
  keys_to_server = refl;
}
Phase-Agrees t l (proposed c xs ys fits px py) idle = cc
Phase-Agrees t l (readied c ys fits py) idle = cc
Phase-Agrees t l (committed c fits) idle = cc
Phase-Agrees t l (acked c ys fits py) idle = cc

-- What the application and the runtime give a session to send is sendable.
abbrev pub IsFair : ℕ → Action → Type 0
IsFair max_body_len (Action.server_send outbound) = IsSendable max_body_len outbound
IsFair max_body_len (Action.client_send outbound) = IsSendable max_body_len outbound
IsFair max_body_len _ = Unit

step-StepsOn :
    (m : ℕ) (action : Action) (l : Link) → IsFair m action → InPhase m l → StepsOn m (step action l)
step-StepsOn m (Action.server_command command) l h (t, e, k, p) =
    subst (λ m. StepsOn m (step (Action.server_command command) l)) k (step-command t l command e p)
step-StepsOn m (Action.server_send o) l h (t, e, k, p) =
    subst (λ m. StepsOn m (step (Action.server_send o) l)) k
      (step-server_send t l o e (subst (λ m. IsSendable m o) (sym k) h) p)
step-StepsOn m (Action.client_send o) l h (t, e, k, p) =
    subst (λ m. StepsOn m (step (Action.client_send o) l)) k
      (step-client_send t l o e (subst (λ m. IsSendable m o) (sym k) h) p)
step-StepsOn m Action.client_receive l h (t, e, k, p) =
    subst (λ m. StepsOn m (step Action.client_receive l)) k (step-client_receive t l e p)
step-StepsOn m Action.server_receive l h (t, e, k, p) =
    subst (λ m. StepsOn m (step Action.server_receive l)) k (step-server_receive t l e p)

run-StepsOn :
    (m : ℕ) (actions : List Action) (l : Link)
    → All (IsFair m) actions
    → InPhase m l
    → StepsOn m (run actions l)
unfolding run
run-StepsOn m [] l h p = (l, refl, p)
run-StepsOn m (action ∷ actions) l (h, hs) p =
    let (l₁, now, p₁) = step-StepsOn m action l h p in
    let (l₂, later, p₂) = run-StepsOn m actions l₁ hs p₁ in (l₂, rw now later, p₂)

established-InPhase :
    (m : ℕ) (mode : SecurityMode) (epoch : ℕ) → epoch ≢ 0 → InPhase m (established m mode epoch)
established-InPhase m mode epoch e =
    (record { mode = mode; epoch = epoch; key = 0; max_body_len = m }, e, refl, quiet [] [] tt tt)

-- From a connection established at a nonzero epoch, whatever commands, sends of encoded frames and
-- bounded game controls, and deliveries follow, no record is refused, and whenever the server is
-- outside a transition both ends agree on mode, epoch and keys.
pub run-Agrees :
    (m : ℕ) (mode : SecurityMode) (epoch : ℕ) (actions : List Action)
    → epoch ≢ 0
    → All (IsFair m) actions
    → (l : Link) × (run actions (established m mode epoch) ≡ ok l)
      × (is_transitioning l.server.controller ≡ false → Agrees l)
run-Agrees m mode epoch actions e fair =
    let (l, ends, (t, n, k, p)) =
      run-StepsOn m actions (established m mode epoch) fair (established-InPhase m mode epoch e) in
    (l, ends, Phase-Agrees t l p)

abbrev pub IsReceive : Action → Type 0
IsReceive Action.client_receive = Unit
IsReceive Action.server_receive = Unit
IsReceive _ = ⊥

-- Deliveries alone bring the link outside a transition.
abbrev pub Settles : Link → Type 0
Settles l =
    (receives : List Action) × All IsReceive receives
    × ((l' : Link) × (run receives l ≡ ok l')
        × (is_transitioning l'.server.controller ≡ false)
        × Agrees l')

Settles-after :
    (action : Action) (l l₁ : Link)
    → IsReceive action
    → step action l ≡ ok l₁
    → Settles l₁
    → Settles l
unfolding run
Settles-after action l l₁ r now (receives, all, (l', later, idle, agrees)) =
    (action ∷ receives, (r, all), (l', rw now later, idle, agrees))

quiet-Settles : (t : Terms) (xs ys : List Sealed) → Settles (quiet_link t xs ys)
unfolding run
quiet-Settles t xs ys = (
  [],
  tt,
  (
    _,
    refl,
    refl,
    record {
      client_idle = refl;
      same_mode = refl;
      same_epoch = refl;
      keys_to_client = refl;
      keys_to_server = refl;
    },
  ),
)

acked-Settles : (t : Terms) (c : Change) (ys : List Sealed) → Settles (acked_link t c ys)
unfolding step
acked-Settles t c ys =
    Settles-after Action.server_receive _ _ tt (rw (inbound_ack t c) refl)
      (quiet-Settles (after c t) [] ys)

committed-Settles : (t : Terms) (c : Change) → Settles (committed_link t c)
unfolding step
committed-Settles t c =
    Settles-after Action.client_receive _ _ tt (rw (inbound_commit t c) refl) (acked-Settles t c [])

readied-Settles :
    (t : Terms) (c : Change) (ys : List Sealed)
    → All (IsPlainOf t) ys
    → Settles (readied_link t c ys)
unfolding step
readied-Settles t c [] p =
    Settles-after Action.server_receive _ _ tt (rw (inbound_ready t c) refl) (committed-Settles t c)
readied-Settles t c (y ∷ ys) p =
    Settles-after Action.server_receive _ _ tt (rw (inbound_plain t Role.server _ y p.0) refl)
      (readied-Settles t c ys p.1)

proposed-Settles :
    (t : Terms) (c : Change) (xs ys : List Sealed)
    → t.epoch + 1 < 2 ^ 64
    → All (IsPlainOf t) xs
    → All (IsPlainOf t) ys
    → Settles (proposed_link t c xs ys)
unfolding step
proposed-Settles t c [] ys fits px py =
    Settles-after Action.client_receive _ _ tt (rw (inbound_propose t c fits) refl)
      (readied-Settles t c ys py)
proposed-Settles t c (x ∷ xs) ys fits px py =
    Settles-after Action.client_receive _ _ tt
      (rw (inbound_plain t Role.client none x px.0) (ap ok (same_to_server _)))
      (proposed-Settles t c xs ys fits px.1 py)

Phase-Settles : (t : Terms) (l : Link) → Phase t l → Settles l
Phase-Settles t l (quiet xs ys px py) = quiet-Settles t xs ys
Phase-Settles t l (proposed c xs ys fits px py) = proposed-Settles t c xs ys fits px py
Phase-Settles t l (readied c ys fits py) = readied-Settles t c ys py
Phase-Settles t l (committed c fits) = committed-Settles t c
Phase-Settles t l (acked c ys fits py) = acked-Settles t c ys

from_ok : {l l' : Link} → ok l ≡ ok l' → l ≡ l'
from_ok e = cc

-- Wherever such a run has come, finitely many deliveries, with no further command or send, end the
-- transition under way, with both ends outside it and agreed.
pub run-Settles :
    (m : ℕ) (mode : SecurityMode) (epoch : ℕ) (actions : List Action) (l : Link)
    → epoch ≢ 0
    → All (IsFair m) actions
    → run actions (established m mode epoch) ≡ ok l
    → Settles l
run-Settles m mode epoch actions l e fair ran =
    let (l', ends, (t, n, k, p)) =
      run-StepsOn m actions (established m mode epoch) fair (established-InPhase m mode epoch e) in
    subst Settles (from_ok (sym ends ∙ ran)) (Phase-Settles t l' p)
