-- ===== src/Core/Handle/Table.antt =====
-- The invariant of a handle table, and that `insert` and `remove` keep it.
use mathlib.Core.Path.{subst}
use rnetlib.Prelude.{
  ℕ, zero, suc, ◌+◌, ◌≤◌, ◌<◌, ◌^◌, ◌≡◌, ◌≢◌, refl, ap, ◌∙◌, arith, Bool, true, false, Option, none,
  some, is_none, List, [], ◌∷◌, ◌++◌, length, get_elem?, set, All, length-append, length-set,
  get_elem?-set_ne, lt_of_get_elem?, get_elem?-append_left, get_elem?-append_end, All-append,
}
use rnetlib.Core.Handle.{
  Slot, HandleTable, vacant, new, live_count, place, insert, value_at, encode_handle,
}

abbrev pub IsGeneration : ℕ → Type 0
IsGeneration generation = (1 ≤ generation) × (generation < 2 ^ 32)

abbrev pub Distinct : List ℕ → Type 0
Distinct [] = Unit
Distinct (i ∷ is) = All (λ j. i ≢ j) is × Distinct is

module _ {ℓ} {A : Type ℓ} where
  -- There is a slot at the index, and it holds no value.
  abbrev pub is_hole : Option (Slot A) → Bool
  is_hole none = false
  is_hole (some slot) = is_none slot.value

  abbrev pub IsHole : List (Slot A) → ℕ → Type 0
  IsHole slots index = is_hole (get_elem? slots index) ≡ true

  abbrev pub HasRange : Slot A → Type 0
  HasRange slot = IsGeneration slot.generation

  -- The free list names every slot without a value, once; generations are in range; the slots can be
  -- counted by 32 bits.
  pub record IsValid (t : HandleTable A) : Type 0 where
    pub holes : All (IsHole t.slots) t.free
    pub distinct : Distinct t.free
    pub ranges : All HasRange t.slots
    pub counted : live_count t.slots + length t.free ≡ length t.slots
    pub bounded : length t.slots < 2 ^ 32

  -- A table of one value.
  pub one_slot-IsValid :
      (value : A)
      → IsValid (record { slots = record { generation = 1; value = some value } ∷ []; free = [] })
  unfolding live_count
  one_slot-IsValid value = record {
    holes = tt;
    distinct = tt;
    ranges = ((omega arith, omega arith), tt);
    counted = omega arith;
    bounded = omega arith;
  }

  pub new-IsValid : IsValid (new {A = A})
  unfolding new live_count
  new-IsValid = record {
    holes = tt;
    distinct = tt;
    ranges = tt;
    counted = omega arith;
    bounded = omega arith;
  }

  pub Holes-set :
      (slots : List (Slot A)) (i : ℕ) (s : Slot A) (free : List ℕ)
      → All (λ j. i ≢ j) free
      → All (IsHole slots) free
      → All (IsHole (set slots i s)) free
  Holes-set slots i s [] apart holes = tt
  Holes-set slots i s (j ∷ free) apart holes = (
    ap is_hole (get_elem?-set_ne slots i j s apart.0) ∙ holes.0,
    Holes-set slots i s free apart.1 holes.1,
  )

  pub ranges-set :
      (slots : List (Slot A)) (i : ℕ) (s : Slot A)
      → HasRange s
      → All HasRange slots
      → All HasRange (set slots i s)
  ranges-set [] i s h all = tt
  ranges-set (x ∷ slots) zero s h all = (h, all.1)
  ranges-set (x ∷ slots) (suc i) s h all = (all.0, ranges-set slots i s h all.1)

  pub ranges-get :
      (slots : List (Slot A)) (i : ℕ) {s : Slot A}
      → get_elem? slots i ≡ some s
      → All HasRange slots
      → HasRange s
  ranges-get [] i e all = absurd (cc)
  ranges-get (x ∷ slots) zero e all = ground arith
  ranges-get (x ∷ slots) (suc i) e all = ranges-get slots i e all.1

  abbrev pub weight : Option A → ℕ
  weight none = 0
  weight (some a) = 1

  live_count-cons :
      (s : Slot A) (slots : List (Slot A))
      → live_count (s ∷ slots) ≡ weight s.value + live_count slots
  unfolding live_count
  live_count-cons s slots = go s.value refl
    where
      go : (o : Option A) → s.value ≡ o → live_count (s ∷ slots) ≡ weight s.value + live_count slots
      go none e = rw (e, live_count) (omega arith)
      go (some a) e = rw (e, live_count) (omega arith)

  pub live_count-set :
      (slots : List (Slot A)) (i : ℕ) (s s' : Slot A)
      → get_elem? slots i ≡ some s
      → live_count (set slots i s') + weight s.value ≡ live_count slots + weight s'.value
  live_count-set [] i s s' e = absurd (cc)
  live_count-set (x ∷ slots) zero s s' e =
      let e' : weight x.value ≡ weight s.value = ground arith in
      omega (arith, live_count-cons x slots, live_count-cons s' slots)
  live_count-set (x ∷ slots) (suc i) s s' e = omega (
    arith,
    live_count-cons x slots,
    live_count-cons x (set slots i s'),
    live_count-set slots i s s' e,
  )

  -- A value written into a hole that is no longer free.
  pub place-IsValid :
      (slots : List (Slot A)) (free : List ℕ) (i : ℕ) (s : Slot A) (value : A)
      → get_elem? slots i ≡ some s
      → s.value ≡ none
      → All (λ j. i ≢ j) free
      → All (IsHole slots) free
      → Distinct free
      → All HasRange slots
      → live_count slots + suc (length free) ≡ length slots
      → length slots < 2 ^ 32
      → IsValid (record {
        slots = set slots i (record { generation = s.generation; value = some value });
        free = free;
      })
  place-IsValid slots free i s value at empty apart holes distinct ranges counted bounded =
      let s' : Slot A = record { generation = s.generation; value = some value } in
      record {
        holes = Holes-set slots i s' free apart holes;
        distinct = distinct;
        ranges = ranges-set slots i s' (ranges-get slots i at ranges) ranges;
        counted =
            omega (arith, live_count-set slots i s s' at, ap weight empty, length-set slots i s');
        bounded = omega (arith, length-set slots i s');
      }

  hole_slot :
      (slots : List (Slot A)) (i : ℕ)
      → IsHole slots i
      → (s : Slot A) × (get_elem? slots i ≡ some s) × (s.value ≡ none)
  hole_slot slots i h = go (get_elem? slots i) refl h
    where
      go :
          (o : Option (Slot A))
          → get_elem? slots i ≡ o
          → is_hole o ≡ true
          → (s : Slot A) × (get_elem? slots i ≡ some s) × (s.value ≡ none)
      go none e h' = cc
      go (some s) e h' = (s, e, ground arith)

  Holes-append :
      (slots more : List (Slot A)) (free : List ℕ)
      → All (IsHole slots) free
      → All (IsHole (slots ++ more)) free
  Holes-append slots more [] holes = tt
  Holes-append slots more (i ∷ free) holes =
      let (s, at, empty) = hole_slot slots i holes.0 in
      (
        ap is_hole (get_elem?-append_left slots more i (lt_of_get_elem? slots i at)) ∙ holes.0,
        Holes-append slots more free holes.1,
      )

  live_count-append :
      (slots : List (Slot A)) (s : Slot A)
      → live_count (slots ++ s ∷ []) ≡ live_count slots + weight s.value
  live_count-append [] s = omega (arith, live_count-cons s [])
  live_count-append (x ∷ slots) s = omega (
    arith,
    live_count-cons x slots,
    live_count-cons x (slots ++ s ∷ []),
    live_count-append slots s,
    live_count-cons s [],
  )

  -- The slot that `insert` fills: a hole of the table, or of the table with a new slot.
  pub record Target (t : HandleTable A) (value : A) : Type ℓ where
    pub slots : List (Slot A)
    pub free : List ℕ
    pub index : ℕ
    pub slot : Slot A
    pub at : get_elem? slots index ≡ some slot
    pub empty : slot.value ≡ none
    pub inserted :
        insert t value
        ≡ some (
          encode_handle index slot.generation,
          record {
            slots = set slots index (record { generation = slot.generation; value = some value });
            free = free;
          },
        )
    pub valid : IsValid (record {
      slots = set slots index (record { generation = slot.generation; value = some value });
      free = free;
    })
    pub range : HasRange slot
    pub bounded : index + 1 < 2 ^ 32
    pub same : (j g : ℕ) → value_at (get_elem? slots j) g ≡ value_at (get_elem? t.slots j) g

  pub place_lem :
      (slots : List (Slot A)) (free : List ℕ) (i : ℕ) (value : A) {s : Slot A}
      → get_elem? slots i ≡ some s
      → place slots free i value
        ≡ some (
          encode_handle i s.generation,
          record {
            slots = set slots i (record { generation = s.generation; value = some value });
            free = free;
          },
        )
  unfolding place
  place_lem slots free i value e = rw (e, place) refl

  insert-reuses :
      (t : HandleTable A) (value : A) (i : ℕ) (free : List ℕ)
      → t.free ≡ i ∷ free
      → insert t value ≡ place t.slots free i value
  unfolding insert
  insert-reuses t value i free e = rw (e, insert) refl

  insert-grows :
      (t : HandleTable A) (value : A)
      → t.free ≡ []
      → insert t value ≡ place (t.slots ++ vacant ∷ []) [] (length t.slots) value
  unfolding insert
  insert-grows t value e = rw (e, insert) refl

  value_at-grown :
      (slots : List (Slot A)) (j g : ℕ)
      → value_at (get_elem? (slots ++ vacant ∷ []) j) g ≡ value_at (get_elem? slots j) g
  value_at-grown [] zero g = ground arith
  value_at-grown [] (suc j) g = refl
  value_at-grown (x ∷ slots) zero g = refl
  value_at-grown (x ∷ slots) (suc j) g = value_at-grown slots j g

  Target-of :
      (t : HandleTable A) (value : A) (free : List ℕ)
      → t.free ≡ free
      → IsValid t
      → length t.slots + 1 < 2 ^ 32
      → Target t value
  Target-of t value (i ∷ free) e v room =
      let holes : All (IsHole t.slots) (i ∷ free) = subst (All (IsHole t.slots)) e v.holes in
      let distinct : Distinct (i ∷ free) = subst Distinct e v.distinct in
      let (s, at, empty) = hole_slot t.slots i holes.0 in
      record {
        slots = t.slots;
        free = free;
        index = i;
        slot = s;
        at = at;
        empty = empty;
        inserted = insert-reuses t value i free e ∙ place_lem t.slots free i value at;
        valid =
            place-IsValid t.slots free i s value at empty distinct.0 holes.1 distinct.1 v.ranges
              (omega (arith, v.counted, ap length e)) v.bounded;
        range = ranges-get t.slots i at v.ranges;
        bounded = omega (arith, lt_of_get_elem? t.slots i at, v.bounded);
        same = λ j g. refl;
      }
  Target-of t value [] e v room =
      let at = get_elem?-append_end t.slots vacant in
      record {
        slots = t.slots ++ vacant ∷ [];
        free = [];
        index = length t.slots;
        slot = vacant;
        at = at;
        empty = refl;
        inserted =
            insert-grows t value e
            ∙ place_lem (t.slots ++ vacant ∷ []) [] (length t.slots) value at;
        valid =
            place-IsValid (t.slots ++ vacant ∷ []) [] (length t.slots) vacant value at refl tt tt tt
              (All-append HasRange t.slots (vacant ∷ []) v.ranges (omega arith))
              (omega (
                arith,
                v.counted,
                ap length e,
                live_count-append t.slots vacant,
                length-append t.slots (vacant ∷ []),
              ))
              (omega (arith, length-append t.slots (vacant ∷ [])));
        range = omega arith;
        bounded = room;
        same = value_at-grown t.slots;
      }

  pub insert-Target :
      (t : HandleTable A) (value : A) → IsValid t → length t.slots + 1 < 2 ^ 32 → Target t value
  insert-Target t value v room = Target-of t value t.free refl v room
