-- ===== src/Game/Realtime/Latest.antt =====
-- The snapshot queue of crates/rnet-game/src/realtime.rs as a list of messages: an accepted message takes the
-- place of the one with its session and key, or the last place, and the first message is served.
use rnetlib.Prelude.{
  ℕ, ◌≡◌, ◌≢◌, refl, sym, ap, ◌∙◌, arith, false, not, ◌&&◌, Option, none, some, List, [], ◌∷◌, ◌++◌,
  ◌==◌, if◌then◌else◌, Bool-cases, inl, inr, keep, map, All, ==_refl,
}
use mathlib.Core.Path.{ap₂}
use rnetlib.Game.Realtime.{
  PendingRealtime, LatestQueue, QueueEffect, has_key, find, insert, remove, inserted, pop_next,
}
use rnetlib.Game.Realtime.Measures.{has_key_fields, has_key-other, has_key_swap, find-remove_other}
use rnetlib.Game.Realtime.Accounts.{Consistent, count_key}
use rnetlib.Game.Realtime.Removal.{limits_of, pop_next_cons, pop_next_empty}

-- The list with a message, in its own place or the last one.
abbrev pub offer : QueueEffect → PendingRealtime → List PendingRealtime → List PendingRealtime
offer QueueEffect.queued m xs = xs ++ m ∷ []
offer QueueEffect.replaced_older m xs = map (λ x. if has_key m.session m.key x then m else x) xs

-- The effect of an insertion, by what the map held.
abbrev pub effect_after : Option PendingRealtime → QueueEffect
effect_after none = QueueEffect.queued
effect_after (some old) = QueueEffect.replaced_older

abbrev pub key_of : PendingRealtime → ℕ × ℕ
key_of m = (m.session, m.key)

abbrev pub Held : List PendingRealtime → PendingRealtime → Type 0
Held pending x = find x.session x.key pending ≡ some x

-- The pending messages in their order.
pub record Serves (xs : List PendingRealtime) (q : LatestQueue) : Type 0 where
  pub keys : map key_of xs ≡ q.order
  pub held : All (Held q.pending) xs

find-insert_self : (m : PendingRealtime) (ms : List PendingRealtime) → Held (insert m ms) m
unfolding find insert
find-insert_self m [] = rw (==_refl m.session, ==_refl m.key) refl
find-insert_self m (x ∷ xs) = elim (Bool-cases (has_key m.session m.key x)) [
  | inl here ↦ rw here (rw (==_refl m.session, ==_refl m.key) refl)
  | inr there ↦ rw there (rw there (find-insert_self m xs))
]

find-insert_other :
    (m : PendingRealtime) (ms : List PendingRealtime) (s k : ℕ)
    → (m.session == s && m.key == k) ≡ false
    → find s k (insert m ms) ≡ find s k ms
unfolding find insert
find-insert_other m [] s k other = rw other refl
find-insert_other m (x ∷ xs) s k other = elim (Bool-cases (has_key m.session m.key x)) [
  | inl here ↦ rw here (rw (other, has_key-other m.session m.key s k x other here) refl)
  | inr there ↦
      rw there (ap (λ r. if has_key s k x then some x else r) (find-insert_other m xs s k other))
]

All-Held_insert :
    (m : PendingRealtime) (ms xs : List PendingRealtime)
    → find m.session m.key ms ≡ none
    → All (Held ms) xs
    → All (Held (insert m ms)) (xs ++ m ∷ [])
All-Held_insert m ms [] absent held = (find-insert_self m ms, tt)
All-Held_insert m ms (x ∷ xs) absent (h, held) = elim (Bool-cases (has_key x.session x.key m)) [
  | inl here ↦
      let same = has_key_fields x.session x.key m here in
      let e : find m.session m.key ms ≡ find x.session x.key ms = rw (same.0, same.1) refl in
      absurd cc
  | inr other ↦
      (find-insert_other m ms x.session x.key other ∙ h, All-Held_insert m ms xs absent held)
]

All-Held_replace :
    (m : PendingRealtime) (ms xs : List PendingRealtime)
    → All (Held ms) xs
    → All (Held (insert m ms)) (offer QueueEffect.replaced_older m xs)
All-Held_replace m ms [] held = tt
All-Held_replace m ms (x ∷ xs) (h, held) = elim (Bool-cases (has_key m.session m.key x)) [
  | inl here ↦ rw here (find-insert_self m ms, All-Held_replace m ms xs held)
  | inr other ↦
      let other' = has_key_swap m.session m.key x other in
      rw other (find-insert_other m ms x.session x.key other' ∙ h, All-Held_replace m ms xs held)
]

map-key_of_append :
    (m : PendingRealtime) (xs : List PendingRealtime)
    → map key_of (xs ++ m ∷ []) ≡ map key_of xs ++ key_of m ∷ []
map-key_of_append m [] = refl
map-key_of_append m (x ∷ xs) = ap (λ ys. key_of x ∷ ys) (map-key_of_append m xs)

map-key_of_replace :
    (m : PendingRealtime) (xs : List PendingRealtime)
    → map key_of (offer QueueEffect.replaced_older m xs) ≡ map key_of xs
map-key_of_replace m [] = refl
map-key_of_replace m (x ∷ xs) = elim (Bool-cases (has_key m.session m.key x)) [
  | inl here ↦
      let same = has_key_fields m.session m.key x here in
      rw here (
        ap₂ (λ a b. a ∷ b) (ap₂ (λ a b. (a, b)) (sym same.0) (sym same.1))
          (map-key_of_replace m xs))
  | inr other ↦ rw other (ap (λ ys. key_of x ∷ ys) (map-key_of_replace m xs))
]

pub inserted-Serves :
    (m : PendingRealtime) (q : LatestQueue) (total session_total : ℕ) (xs : List PendingRealtime)
    (old : Option PendingRealtime)
    → find m.session m.key q.pending ≡ old
    → Serves xs q
    → Serves (offer (effect_after old) m xs) (inserted m q total session_total old).1
inserted-Serves m q total session_total xs none absent serves = record {
  keys = map-key_of_append m xs ∙ ap (λ o. o ++ key_of m ∷ []) serves.keys;
  held = All-Held_insert m q.pending xs absent serves.held;
}
inserted-Serves m q total session_total xs (some old) found serves = record {
  keys = map-key_of_replace m xs ∙ serves.keys;
  held = All-Held_replace m q.pending xs serves.held;
}

-- A key that does not come again in the order is not that of a later message.
pub All-Held_remove :
    (s k : ℕ) (ms xs : List PendingRealtime)
    → count_key s k (map key_of xs) ≡ 0
    → All (Held ms) xs
    → All (Held (remove s k ms)) xs
unfolding count_key
All-Held_remove s k ms [] z held = tt
All-Held_remove s k ms (x ∷ xs) z (h, held) = elim (Bool-cases (has_key s k x)) [
  | inl here ↦ let z' = rw here at z in absurd (omega (arith, z'))
  | inr other ↦
      let other' = has_key_swap s k x other in
      (
        find-remove_other s k ms x.session x.key other' ∙ h,
        All-Held_remove s k ms xs (omega (arith, z)) held,
      )
]

abbrev pub first : List PendingRealtime → Option PendingRealtime
first [] = none
first (x ∷ xs) = some x

abbrev pub rest : List PendingRealtime → List PendingRealtime
rest [] = []
rest (x ∷ xs) = xs

keys_cons :
    (x : PendingRealtime) (xs : List PendingRealtime) (order : List (ℕ × ℕ))
    → map key_of (x ∷ xs) ≡ order
    → order ≡ (x.session, x.key) ∷ map key_of xs
keys_cons x xs order e = sym e

pub pop_next-Serves :
    (q : LatestQueue) (xs : List PendingRealtime)
    → Consistent q
    → Serves xs q
    → (q' : LatestQueue) × (pop_next q ≡ some (first xs, q'))
      × Serves (rest xs) q'
      × (limits_of q' ≡ limits_of q)
unfolding count_key
pop_next-Serves q [] c serves = (
  record q { order = [] },
  pop_next_empty q (sym serves.keys),
  record { keys = refl; held = tt },
  refl,
)
pop_next-Serves q (x ∷ xs) c serves =
    let (m, q', runs, c', popped, tail) =
      pop_next_cons q x.session x.key (map key_of xs) (sym serves.keys) c in
    let same : some m ≡ some x = sym popped.held ∙ serves.held.0 in
    let once =
      rw (sym serves.keys, ==_refl x.session, ==_refl x.key) at (c.ordered x.session x.key).1 in
    (
      q',
      runs ∙ ap (λ r. some (r, q')) same,
      record {
        keys = sym tail;
        held =
            rw popped.left
              (All-Held_remove x.session x.key q.pending xs (omega (arith, once)) serves.held.1);
      },
      popped.popped_limits,
    )

pub All-Held_keep :
    (session : ℕ) (ms ms' xs : List PendingRealtime)
    → ((s k : ℕ) → s ≢ session → find s k ms' ≡ find s k ms)
    → All (Held ms) xs
    → All (Held ms') (keep (λ x. not (x.session == session)) xs)
All-Held_keep session ms ms' [] same held = tt
All-Held_keep session ms ms' (x ∷ xs) same (h, held) = elim (Bool-cases (x.session == session)) [
  | inl gone ↦ rw gone (All-Held_keep session ms ms' xs same held)
  | inr other ↦
      let ne : x.session ≢ session = λ e. ground arith in
      rw other (same x.session x.key ne ∙ h, All-Held_keep session ms ms' xs same held)
]

pub map-key_of-keep :
    (session : ℕ) (xs : List PendingRealtime)
    → map key_of (keep (λ x. not (x.session == session)) xs)
      ≡ keep (λ entry. not (entry.0 == session)) (map key_of xs)
map-key_of-keep session [] = refl
map-key_of-keep session (x ∷ xs) = elim (Bool-cases (x.session == session)) [
  | inl gone ↦ rw gone (map-key_of-keep session xs)
  | inr other ↦ rw other (ap (λ ys. key_of x ∷ ys) (map-key_of-keep session xs))
]
