-- ===== src/Game/Realtime/Measures.antt =====
-- Sums over the pending entries of crates/rnet-game/src/realtime.rs, under the operations of the map.
use rnetlib.Prelude.{
  ℕ, ◌+◌, ◌≤◌, ◌<◌, ◌≡◌, refl, arith, ap, true, false, ◌&&◌, Option, none, some, List, [], ◌∷◌,
  ◌==◌, if◌then◌else◌, Bool-cases, Option-cases, inl, inr, length,
}
use rnetlib.Game.Realtime.{PendingRealtime, has_key, find, insert, remove}

unfoldable pub measure : (PendingRealtime → ℕ) → List PendingRealtime → ℕ
measure f [] = 0
measure f (m ∷ ms) = f m + measure f ms

abbrev pub of_found : (PendingRealtime → ℕ) → Option PendingRealtime → ℕ
of_found f none = 0
of_found f (some m) = f m

pub measure-insert :
    (f : PendingRealtime → ℕ) (m : PendingRealtime) (ms : List PendingRealtime)
    → measure f (insert m ms) + of_found f (find m.session m.key ms) ≡ measure f ms + f m
unfolding measure insert find
measure-insert f m [] = omega arith
measure-insert f m (x ∷ xs) = elim (Bool-cases (has_key m.session m.key x)) [
  | inl here ↦ rw here (omega arith)
  | inr there ↦ rw there (omega (arith, measure-insert f m xs))
]

pub measure-remove :
    (f : PendingRealtime → ℕ) (session key : ℕ) (ms : List PendingRealtime)
    → measure f (remove session key ms) + of_found f (find session key ms) ≡ measure f ms
unfolding measure remove find
measure-remove f session key [] = omega arith
measure-remove f session key (x ∷ xs) = elim (Bool-cases (has_key session key x)) [
  | inl here ↦ rw here (omega arith)
  | inr there ↦ rw there (omega (arith, measure-remove f session key xs))
]

pub has_key_fields :
    (session key : ℕ) (m : PendingRealtime)
    → has_key session key m ≡ true
    → (m.session ≡ session) × (m.key ≡ key)
has_key_fields session key m h = ground arith

pub find-has_key :
    (session key : ℕ) (ms : List PendingRealtime) {m : PendingRealtime}
    → find session key ms ≡ some m
    → (m.session ≡ session) × (m.key ≡ key)
unfolding find
find-has_key session key [] h = absurd cc
find-has_key session key (x ∷ xs) {m} h = elim (Bool-cases (has_key session key x)) [
  | inl here ↦
      let e : some x ≡ some m = rw here at h in
      let p = has_key_fields session key x here in (cc, cc)
  | inr there ↦ find-has_key session key xs (rw there at h)
]

-- One for the entries of a session and key.
abbrev pub is_entry : ℕ → ℕ → PendingRealtime → ℕ
is_entry session key m = if has_key session key m then 1 else 0

pub find-none :
    (session key : ℕ) (ms : List PendingRealtime)
    → find session key ms ≡ none
    → measure (is_entry session key) ms ≡ 0
unfolding find measure
find-none session key [] h = refl
find-none session key (x ∷ xs) h = ground (arith, find-none session key xs)

pub find-some :
    (session key : ℕ) (ms : List PendingRealtime)
    → 0 < measure (is_entry session key) ms
    → (m : PendingRealtime) × (find session key ms ≡ some m)
find-some session key ms h = elim (Option-cases (find session key ms)) [
  | inl absent ↦ absurd (omega (arith, find-none session key ms absent))
  | inr found ↦ found
]

-- The figure of the entries of one session.
abbrev pub owned : (PendingRealtime → ℕ) → ℕ → PendingRealtime → ℕ
owned f session m = if m.session == session then f m else 0

abbrev pub one : PendingRealtime → ℕ
one m = 1

pub measure-one : (ms : List PendingRealtime) → measure one ms ≡ length ms
unfolding measure
measure-one [] = refl
measure-one (m ∷ ms) = omega (arith, measure-one ms)

pub measure-owned-le :
    (f : PendingRealtime → ℕ) (session : ℕ) (ms : List PendingRealtime)
    → measure (owned f session) ms ≤ measure f ms
unfolding measure
measure-owned-le f session [] = omega arith
measure-owned-le f session (m ∷ ms) = ground (arith, measure-owned-le f session ms)

pub measure-owned_zero :
    (f : PendingRealtime → ℕ) (session : ℕ) (ms : List PendingRealtime)
    → measure (owned one session) ms ≡ 0
    → measure (owned f session) ms ≡ 0
unfolding measure
measure-owned_zero f session [] z = refl
measure-owned_zero f session (m ∷ ms) z = ground (arith, measure-owned_zero f session ms)

-- The tests of one key against two others that it cannot both pass.
pub has_key-other :
    (s k s' k' : ℕ) (x : PendingRealtime)
    → (s == s' && k == k') ≡ false
    → has_key s k x ≡ true
    → has_key s' k' x ≡ false
has_key-other s k s' k' x other here = ground arith

pub has_key_swap :
    (s k : ℕ) (x : PendingRealtime) → has_key s k x ≡ false → (s == x.session && k == x.key) ≡ false
has_key_swap s k x other = ground arith

pub find-remove_other :
    (s' k' : ℕ) (ms : List PendingRealtime) (s k : ℕ)
    → (s' == s && k' == k) ≡ false
    → find s k (remove s' k' ms) ≡ find s k ms
unfolding find remove
find-remove_other s' k' [] s k other = refl
find-remove_other s' k' (x ∷ xs) s k other = elim (Bool-cases (has_key s' k' x)) [
  | inl here ↦ rw here (rw (has_key-other s' k' s k x other here) refl)
  | inr there ↦
      rw there
        (ap (λ r. if has_key s k x then some x else r) (find-remove_other s' k' xs s k other))
]
