-- ===== src/Game/Quality/Gate.antt =====
-- `QualityChangeGate` of crates/rnet-game/src/quality.rs: what a notification takes.
use mathlib.Core.Path.{ap₂, subst}
use rnetlib.Prelude.{
  ℕ, zero, suc, ◌≡◌, ◌≢◌, ◌↔◌, refl, arith, Bool, true, false, ◌&&◌, ◌||◌, Option, none, some, List,
  [], ◌∷◌, ◌==◌, ==_refl, sym, ap, ◌∙◌, Bool-cases, if◌then◌else◌, inl, inr, ◌⊎◌,
}
use rnetlib.Game.Quality.{QualityGrade, QualityBasis, rank, basis_code}

pub record QualityChangeGate : Type 0 where
  pub published : Option (QualityGrade × QualityBasis)
  pub candidate : Option (QualityGrade × QualityBasis)

abbrev pub new_gate : QualityChangeGate
new_gate = record { published = none; candidate = none }

-- The derived equality on optional pairs.
abbrev pub same : Option (QualityGrade × QualityBasis) → QualityGrade × QualityBasis → Bool
same none y = false
same (some (g, b)) (h, c) = rank g == rank h && basis_code b == basis_code c

abbrev pub is_unknown : QualityGrade → Bool
is_unknown g = rank g == 0

unfoldable pub observe : QualityGrade → QualityBasis → QualityChangeGate → Bool × QualityChangeGate
observe grade basis gate =
    let next : QualityGrade × QualityBasis = (grade, basis) in
    if is_unknown grade || same gate.published next
    then (false, record gate { candidate = none })
    else if same gate.candidate next
    then (true, record gate { published = some next; candidate = none })
    else (false, record gate { candidate = some next })

-- The gate after a history of observations, the last one first.
unfoldable pub gate_after : List (QualityGrade × QualityBasis) → QualityChangeGate
gate_after [] = new_gate
gate_after ((grade, basis) ∷ history) = (observe grade basis (gate_after history)).1

grade_of : ℕ → QualityGrade
grade_of zero = QualityGrade.unknown
grade_of (suc zero) = QualityGrade.excellent
grade_of (suc (suc zero)) = QualityGrade.good
grade_of (suc (suc (suc zero))) = QualityGrade.fair
grade_of _ = QualityGrade.poor

grade_of-rank : (g : QualityGrade) → grade_of (rank g) ≡ g
unfolding grade_of
grade_of-rank QualityGrade.unknown = refl
grade_of-rank _ = refl

basis_of_code : ℕ → QualityBasis
basis_of_code zero = QualityBasis.latency_only
basis_of_code (suc zero) = QualityBasis.udp_sequence_gap
basis_of_code _ = QualityBasis.kcp_retransmission

basis_of_code-basis_code : (b : QualityBasis) → basis_of_code (basis_code b) ≡ b
unfolding basis_of_code
basis_of_code-basis_code QualityBasis.latency_only = refl
basis_of_code-basis_code _ = refl

same_refl : (x : QualityGrade × QualityBasis) → same (some x) x ≡ true
same_refl (g, b) = rw (==_refl (rank g)) (==_refl (basis_code b))

same_sound :
    (o : Option (QualityGrade × QualityBasis)) (x : QualityGrade × QualityBasis)
    → same o x ≡ true
    → o ≡ some x
same_sound none x h = cc
same_sound (some (g, b)) (k, c) h =
    let (ranks, codes) = both_equal (rank g) (rank k) (basis_code b) (basis_code c) h in
    ap₂ (λ x y. some (x, y)) (sym (grade_of-rank g) ∙ ap grade_of ranks ∙ grade_of-rank k)
      (sym (basis_of_code-basis_code b) ∙ ap basis_of_code codes ∙ basis_of_code-basis_code c)
  where
    both_equal : (a b c d : ℕ) → (a == b && c == d) ≡ true → (a ≡ b) × (c ≡ d)
    both_equal a b c d h = ground arith

abbrev pub head : List (QualityGrade × QualityBasis) → Option (QualityGrade × QualityBasis)
head [] = none
head (x ∷ xs) = some x

-- A candidate is the last observation, is known, and is not published.
abbrev CandidateIsLast : List (QualityGrade × QualityBasis) → QualityChangeGate → Type 0
CandidateIsLast history gate =
    (x : QualityGrade × QualityBasis)
    → gate.candidate ≡ some x
    → (head history ≡ some x) × (same gate.published x ≡ false)

-- The three ways an observation goes.
observe-cases :
    (g : QualityGrade) (b : QualityBasis) (gate : QualityChangeGate)
    → (((is_unknown g || same gate.published (g, b)) ≡ true)
        × (observe g b gate ≡ (false, record gate { candidate = none })))
      ⊎ ((((is_unknown g || same gate.published (g, b)) ≡ false)
            × (same gate.candidate (g, b) ≡ true)
            × (observe g b gate
                ≡ (true, record gate { published = some (g, b); candidate = none })))
          ⊎ (((is_unknown g || same gate.published (g, b)) ≡ false)
              × (same gate.candidate (g, b) ≡ false)
              × (observe g b gate ≡ (false, record gate { candidate = some (g, b) }))))
unfolding observe
observe-cases g b gate = elim (Bool-cases (is_unknown g || same gate.published (g, b))) [
  | inl stays ↦ inl (stays, rw stays refl)
  | inr moves ↦ elim (Bool-cases (same gate.candidate (g, b))) [
    | inl again ↦ inr (inl (moves, again, rw moves (rw again refl)))
    | inr once ↦ inr (inr (moves, once, rw moves (rw once refl)))
  ]
]

or-false : (a b : Bool) → (a || b) ≡ false → (a ≡ false) × (b ≡ false)
or-false a b h = ground arith

gate_after-CandidateIsLast :
    (history : List (QualityGrade × QualityBasis)) → CandidateIsLast history (gate_after history)
unfolding gate_after
gate_after-CandidateIsLast [] x = λ missing. cc
gate_after-CandidateIsLast ((g, b) ∷ history) x = elim (observe-cases g b (gate_after history)) [
  | inl (stays, e) ↦ rw (e, gate_after) (λ missing. cc)
  | inr (inl (moves, again, e)) ↦ rw (e, gate_after) (λ missing. cc)
  | inr (inr (moves, once, e)) ↦
      rw (e, gate_after)
        (λ here. (
          here,
          subst (λ y. same (gate_after history).published y ≡ false) (from_some here)
              (or-false _ _ moves).1,
        ))
]
  where
    from_some : {y z : QualityGrade × QualityBasis} → some y ≡ some z → y ≡ z
    from_some h = cc

known_rank : (g : QualityGrade) → g ≢ QualityGrade.unknown → is_unknown g ≡ false
known_rank QualityGrade.unknown known = absurd (known refl)
known_rank QualityGrade.excellent known = refl
known_rank _ known = refl

-- A known grade is the last notification or waits to be confirmed.
observe_unconfirmed :
    (g : QualityGrade) (b : QualityBasis) (gate : QualityChangeGate)
    → g ≢ QualityGrade.unknown
    → ((observe g b gate).1.published ≡ some (g, b))
      ⊎ ((observe g b gate).1.candidate ≡ some (g, b))
observe_unconfirmed g b gate known = elim (observe-cases g b gate) [
  | inl (stays, e) ↦
      rw e (inl (same_sound _ _ (blocked (is_unknown g) _ stays (known_rank g known))))
  | inr (inl (moves, again, e)) ↦ rw e (inl refl)
  | inr (inr (moves, once, e)) ↦ rw e (inr refl)
]
  where
    blocked : (a b : Bool) → (a || b) ≡ true → a ≡ false → b ≡ true
    blocked a b h k = ground arith

observe_again :
    (g : QualityGrade) (b : QualityBasis) (gate : QualityChangeGate)
    → g ≢ QualityGrade.unknown
    → (gate.published ≡ some (g, b)) ⊎ (gate.candidate ≡ some (g, b))
    → (observe g b gate).1.published ≡ some (g, b)
observe_again g b gate known waits = elim (observe-cases g b gate) [
  | inl (stays, e) ↦ rw e (same_sound _ _ (blocked (is_unknown g) _ stays (known_rank g known)))
  | inr (inl (moves, again, e)) ↦ rw e refl
  | inr (inr (moves, once, e)) ↦ absurd (neither moves once waits)
]
  where
    blocked : (a b : Bool) → (a || b) ≡ true → a ≡ false → b ≡ true
    blocked a b h k = ground arith

    neither :
        (is_unknown g || same gate.published (g, b)) ≡ false
        → same gate.candidate (g, b) ≡ false
        → (gate.published ≡ some (g, b)) ⊎ (gate.candidate ≡ some (g, b))
        → ⊥
    neither moves once (inl here) =
        cc (ap (λ o. same o (g, b)) here, same_refl (g, b), (or-false (is_unknown g) _ moves).1)
    neither moves once (inr here) = cc (ap (λ o. same o (g, b)) here, same_refl (g, b))

-- The last observation of a history that was answered by a notification.
abbrev pub last_notified : List (QualityGrade × QualityBasis) → Option (QualityGrade × QualityBasis)
last_notified [] = none
last_notified ((g, b) ∷ history) =
    if (observe g b (gate_after history)).0 then some (g, b) else last_notified history

published-last_notified :
    (history : List (QualityGrade × QualityBasis))
    → (gate_after history).published ≡ last_notified history
unfolding gate_after
published-last_notified [] = refl
published-last_notified ((g, b) ∷ history) = elim (observe-cases g b (gate_after history)) [
  | inl (stays, e) ↦ rw (e, gate_after) (published-last_notified history)
  | inr (inl (moves, again, e)) ↦ rw (e, gate_after) refl
  | inr (inr (moves, once, e)) ↦ rw (e, gate_after) (published-last_notified history)
]

-- What a notification takes, in terms of the published grade.
notifies :
    (history : List (QualityGrade × QualityBasis)) (g : QualityGrade) (b : QualityBasis)
    → (observe g b (gate_after history)).0 ≡ true
    → (g ≢ QualityGrade.unknown)
      × (head history ≡ some (g, b))
      × ((gate_after history).published ≢ some (g, b))
notifies history g b = elim (observe-cases g b (gate_after history)) [
  | inl (stays, e) ↦ rw e (λ no. cc)
  | inr (inl (moves, again, e)) ↦
      let (known, other) = or-false (is_unknown g) _ moves in
      let last = gate_after-CandidateIsLast history (g, b) (same_sound _ _ again) in
      rw e (λ yes. (
        (λ same_grade. cc (ap is_unknown same_grade)),
        last.0,
        (λ published. cc (ap (λ o. same o (g, b)) published, same_refl (g, b))),
      ))
  | inr (inr (moves, once, e)) ↦ rw e (λ no. cc)
]

-- A known grade that is the last observation is published or waits to be confirmed.
head-waits :
    (history : List (QualityGrade × QualityBasis)) (g : QualityGrade) (b : QualityBasis)
    → g ≢ QualityGrade.unknown
    → head history ≡ some (g, b)
    → ((gate_after history).published ≡ some (g, b))
      ⊎ ((gate_after history).candidate ≡ some (g, b))
unfolding gate_after
head-waits [] g b known h = cc
head-waits ((g', b') ∷ history) g b known h =
    let e : (g', b') ≡ (g, b) = cc in
    subst
      (λ x.
        ((gate_after (x ∷ history)).published ≡ some (g, b))
        ⊎ ((gate_after (x ∷ history)).candidate ≡ some (g, b)))
      (sym e) (observe_unconfirmed g b (gate_after history) known)

confirms :
    (g : QualityGrade) (b : QualityBasis) (gate : QualityChangeGate)
    → g ≢ QualityGrade.unknown
    → gate.published ≢ some (g, b)
    → gate.candidate ≡ some (g, b)
    → (observe g b gate).0 ≡ true
confirms g b gate known other waits = elim (observe-cases g b gate) [
  | inl (stays, e) ↦
      absurd (other (same_sound _ _ (blocked (is_unknown g) _ stays (known_rank g known))))
  | inr (inl (moves, again, e)) ↦ rw e refl
  | inr (inr (moves, once, e)) ↦ cc (ap (λ o. same o (g, b)) waits, same_refl (g, b))
]
  where
    blocked : (a b : Bool) → (a || b) ≡ true → a ≡ false → b ≡ true
    blocked a b h k = ground arith

-- An observation is answered by a notification exactly if its grade is known, the observation before it was the
-- same, and the last observation that was so answered is another one or there is none.
pub observe-notifies :
    (history : List (QualityGrade × QualityBasis)) (g : QualityGrade) (b : QualityBasis)
    → ((observe g b (gate_after history)).0 ≡ true) ↔ (
        (g ≢ QualityGrade.unknown)
        × (head history ≡ some (g, b))
        × (last_notified history ≢ some (g, b)))
observe-notifies history g b = (
  (λ yes.
      let (known, last, other) = notifies history g b yes in
      (known, last, λ e. other (published-last_notified history ∙ e))),
  (λ (known, last, other).
      let fresh : (gate_after history).published ≢ some (g, b) =
        λ e. other (sym (published-last_notified history) ∙ e) in
      elim (head-waits history g b known last) [
        | inl published ↦ absurd (fresh published)
        | inr waits ↦ confirms g b (gate_after history) known fresh waits
      ]),
)
