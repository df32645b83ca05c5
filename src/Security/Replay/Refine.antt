-- ===== src/Security/Replay/Refine.antt =====
-- The replay window of crates/rnet-security/src/lib.rs remembers exactly the nonces that were accepted,
-- as far as the window reaches.
use Prim.Native.Nat.{bit_or}
use rnetlib.Prelude.{
  ℕ, ◌+◌, ◌-◌, ◌^◌, ◌≤◌, ◌<◌, ◌≡◌, refl, sym, ap, ◌∙◌, arith, Bool, true, false, ◌||◌, Option, none,
  some, List, [], ◌∷◌, ltb, leb, dec_lt, lt→ltb, le→leb,
}
use rnetlib.Prelude.BitAt.{bit}
use rnetlib.Security.Replay.Marks.{
  elem, highest_of, mark, Marks, marked_lem, insert_above, insert_within, first_marked, not_above,
}
use rnetlib.Security.Replay.{ok, ReplayWindow, fresh_window, is_marked, advance, contains, insert}

-- What a receiver with no bound on its memory refuses: a nonce that it has accepted, or one that is 64 or
-- more below the highest that it has accepted.
abbrev pub refuses : List ℕ → ℕ → Bool
refuses accepted nonce = elem nonce accepted || leb (nonce + 64) (highest_of accepted)

-- The window stands for the list of the accepted nonces.
abbrev pub Tracks : Option ℕ → ℕ → List ℕ → Type 0
Tracks none bitmap accepted = accepted ≡ []
Tracks (some highest) bitmap accepted = Marks highest bitmap accepted

pub nothing_refused : (nonce : ℕ) → refuses [] nonce ≡ false
unfolding elem
nothing_refused nonce = ground arith

ge→ltb : (a b : ℕ) → b ≤ a → ltb a b ≡ false
ge→ltb a b h = ground arith

gt→leb : (a b : ℕ) → b < a → leb a b ≡ false
gt→leb a b h = ground arith

far_marked : (bitmap d : ℕ) → 64 ≤ d → is_marked bitmap d ≡ true
far_marked bitmap d far = rw (le→leb 64 d far) refl

or_near : (b c : Bool) → c ≡ false → (b || c) ≡ b
or_near b c e = ground arith

or_far : (b c : Bool) → c ≡ true → (b || c) ≡ true
or_far b c e = ground arith

marked_window :
    (highest bitmap nonce : ℕ) (accepted : List ℕ)
    → Marks highest bitmap accepted
    → nonce ≤ highest
    → is_marked bitmap (highest - nonce) ≡ refuses accepted nonce
marked_window highest bitmap nonce accepted t below = elim (dec_lt (highest - nonce) 64) [
  | yes near ↦
      let e : highest - (highest - nonce) ≡ nonce = omega arith in
      let marked : bit (highest - nonce) bitmap ≡ mark (elem nonce accepted) =
        t.marked (highest - nonce) near (omega arith) ∙ ap (λ n. mark (elem n accepted)) e in
      marked_lem bitmap (highest - nonce) (elem nonce accepted) near marked
      ∙ sym (
          or_near (elem nonce accepted) (leb (nonce + 64) (highest_of accepted))
            (gt→leb (nonce + 64) (highest_of accepted) (omega (arith, t.top))))
  | no far ↦
      far_marked bitmap (highest - nonce) (omega arith)
      ∙ sym (
          or_far (elem nonce accepted) (leb (nonce + 64) (highest_of accepted))
            (le→leb (nonce + 64) (highest_of accepted) (omega (arith, t.top))))
]

-- The test before the window changes is the one of the unbounded receiver.
contains_from :
    (highest : Option ℕ) (bitmap nonce : ℕ) (accepted : List ℕ)
    → Tracks highest bitmap accepted
    → contains (record { highest = highest; bitmap = bitmap }) nonce ≡ refuses accepted nonce
unfolding contains
contains_from none bitmap nonce accepted t = rw t (sym (nothing_refused nonce))
contains_from (some highest) bitmap nonce accepted t = elim (dec_lt highest nonce) [
  | yes above ↦
      rw (lt→ltb highest nonce above, not_above nonce accepted (omega (arith, t.top)))
        (sym (gt→leb (nonce + 64) (highest_of accepted) (omega (arith, t.top))))
  | no within ↦
      rw (ge→ltb highest nonce (omega arith))
        (marked_window highest bitmap nonce accepted t (omega arith))
]

abbrev pub TracksWindow : ReplayWindow → List ℕ → Type 0
TracksWindow w accepted = Tracks w.highest w.bitmap accepted

pub fresh_window-Tracks : TracksWindow fresh_window []
fresh_window-Tracks = refl

pub contains_lem :
    (w : ReplayWindow) (accepted : List ℕ) (nonce : ℕ)
    → TracksWindow w accepted
    → contains w nonce ≡ refuses accepted nonce
contains_lem w accepted nonce t = contains_from w.highest w.bitmap nonce accepted t

insert_from :
    (highest : Option ℕ) (bitmap nonce : ℕ) (accepted : List ℕ)
    → Tracks highest bitmap accepted
    → refuses accepted nonce ≡ false
    → (w' : ReplayWindow) × (insert (record { highest = highest; bitmap = bitmap }) nonce
        ≡ (ok tt, w'))
      × TracksWindow w' (nonce ∷ accepted)
unfolding insert
insert_from none bitmap nonce accepted t fresh = (
  record { highest = some nonce; bitmap = 1 },
  refl,
  rw t (record { top = omega arith; marked = λ d small low. first_marked nonce d low }),
)
insert_from (some highest) bitmap nonce accepted t fresh = elim (dec_lt highest nonce) [
  | yes above ↦ (
    record { highest = some nonce; bitmap = advance bitmap (nonce - highest) },
    rw (lt→ltb highest nonce above) refl,
    insert_above highest bitmap nonce accepted t above,
  )
  | no within ↦
      let unmarked : is_marked bitmap (highest - nonce) ≡ false =
        marked_window highest bitmap nonce accepted t (omega arith) ∙ fresh in
      (
        record { highest = some highest; bitmap = bit_or bitmap (2 ^ (highest - nonce)) },
        rw (ge→ltb highest nonce (omega arith), unmarked) refl,
        insert_within highest bitmap nonce accepted t (omega arith),
      )
]

pub insert_lem :
    (w : ReplayWindow) (accepted : List ℕ) (nonce : ℕ)
    → TracksWindow w accepted
    → refuses accepted nonce ≡ false
    → (w' : ReplayWindow) × (insert w nonce ≡ (ok tt, w')) × TracksWindow w' (nonce ∷ accepted)
insert_lem w accepted nonce t fresh = insert_from w.highest w.bitmap nonce accepted t fresh
