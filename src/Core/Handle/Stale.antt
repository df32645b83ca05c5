-- ===== src/Core/Handle/Stale.antt =====
-- Removal: what it returns, and that a removed handle stays stale.
use mathlib.Core.Path.{ap₂}
use rnetlib.Prelude.{
  ℕ, ◌<◌, ◌^◌, ◌≡◌, ◌≢◌, refl, sym, ap, ◌∙◌, arith, true, Option, none, some, some, List, [], ◌∷◌,
  get_elem?, set, All, get_elem?-set_self, lt_of_get_elem?, length-set,
}
use rnetlib.Core.Handle.{
  Slot, HandleTable, value_at, get, remove, next_generation, encode_handle, decode_handle,
}
use rnetlib.Core.Handle.Codec.{next_generation-range, encode-decode_handle}
use rnetlib.Core.Handle.Table.{
  IsHole, is_hole, IsValid, ranges-set, Holes-set, live_count-set, weight,
}
use rnetlib.Core.Handle.Laws.{
  value_at_self, value_at-empty, value_at_other, value_at-set, get-eq_of, get-slot,
}

module _ {ℓ} {A : Type ℓ} where
  remove-missing :
      (t : HandleTable A) (handle : ℕ) → get t handle ≡ none → remove t handle ≡ (none, t)
  unfolding get remove
  remove-missing t handle e = go (decode_handle handle) refl
    where
      go : (d : Option (ℕ × ℕ)) → decode_handle handle ≡ d → remove t handle ≡ (none, t)
      go none d = rw (d, remove) refl
      go (some (i, g)) d =
          let missing : value_at (get_elem? t.slots i) g ≡ none = rw (d, get) at e in
          rw (d, remove) (rw missing refl)

  emptied : HandleTable A → ℕ → ℕ → HandleTable A
  emptied t i g = record {
    slots = set t.slots i (record { generation = next_generation g; value = none });
    free = i ∷ t.free;
  }

  remove-found :
      (t : HandleTable A) (handle i g : ℕ) {value : A}
      → decode_handle handle ≡ some (i, g)
      → value_at (get_elem? t.slots i) g ≡ some value
      → remove t handle ≡ (some value, emptied t i g)
  unfolding remove emptied
  remove-found t handle i g d e = rw (d, remove) (rw e refl)

  -- A slot with a value is not on the free list.
  not_free :
      (slots : List (Slot A)) (free : List ℕ) (i : ℕ) {s : Slot A} {value : A}
      → get_elem? slots i ≡ some s
      → s.value ≡ some value
      → All (IsHole slots) free
      → All (λ j. i ≢ j) free
  not_free slots [] i at full holes = tt
  not_free slots (j ∷ free) i {s} at full holes = (
    (λ e. clash (ap (λ k. is_hole (get_elem? slots k)) e ∙ holes.0)),
    not_free slots free i at full holes.1,
  )
    where
      clash : is_hole (get_elem? slots i) ≡ true → ⊥
      clash h = ground arith

  emptied-IsValid :
      (t : HandleTable A) (i : ℕ) (s : Slot A) {value : A}
      → IsValid t
      → get_elem? t.slots i ≡ some s
      → s.value ≡ some value
      → IsValid (emptied t i s.generation)
  unfolding emptied
  emptied-IsValid t i s v at full =
      let s' : Slot A = record { generation = next_generation s.generation; value = none } in
      let apart = not_free t.slots t.free i at full v.holes in
      record {
        holes = (
          ap is_hole (get_elem?-set_self t.slots i s' (lt_of_get_elem? t.slots i at)),
          Holes-set t.slots i s' t.free apart v.holes,
        );
        distinct = (apart, v.distinct);
        ranges = ranges-set t.slots i s' (next_generation-range s.generation) v.ranges;
        counted = omega (
          arith,
          live_count-set t.slots i s s' at,
          ap weight full,
          length-set t.slots i s',
          v.counted,
        );
        bounded = omega (arith, length-set t.slots i s', v.bounded);
      }

  emptied-gone :
      (t : HandleTable A) (handle i : ℕ) (s : Slot A)
      → decode_handle handle ≡ some (i, s.generation)
      → get_elem? t.slots i ≡ some s
      → get (emptied t i s.generation) handle ≡ none
  unfolding get emptied
  emptied-gone t handle i s d at =
      let s' : Slot A = record { generation = next_generation s.generation; value = none } in
      rw (d, get)
        (ap (λ o. value_at o s.generation)
            (get_elem?-set_self t.slots i s' (lt_of_get_elem? t.slots i at))
          ∙ value_at-empty s' s.generation refl)

  emptied-others :
      (t : HandleTable A) (handle i : ℕ) (s : Slot A)
      → handle < 2 ^ 64
      → decode_handle handle ≡ some (i, s.generation)
      → get_elem? t.slots i ≡ some s
      → (other : ℕ) → other < 2 ^ 64
      → other ≢ handle
      → get (emptied t i s.generation) other ≡ get t other
  unfolding emptied
  emptied-others t handle i s small d at other small' ne =
      let s' : Slot A = record { generation = next_generation s.generation; value = none } in
      get-eq_of t _ other small' (λ j g e. value_at-set t.slots i j g s s' at (λ same.
        value_at-empty s' g refl
        ∙ sym (
            value_at_other s g (λ same'. ne (
              sym e
              ∙ ap₂ encode_handle (sym same) (sym same')
              ∙ (encode-decode_handle handle small d).0)))))

  -- Removing a live handle returns its value, keeps the table valid and what every other handle finds,
  -- and makes the handle stale: it finds nothing, and removing it again changes nothing.
  pub get-remove :
      (t : HandleTable A) (handle : ℕ) (value : A)
      → IsValid t
      → handle < 2 ^ 64
      → get t handle ≡ some value
      → ((remove t handle).0 ≡ some value)
        × IsValid (remove t handle).1
        × (get (remove t handle).1 handle ≡ none)
        × (remove (remove t handle).1 handle ≡ (none, (remove t handle).1))
        × ((other : ℕ)
            → other < 2 ^ 64
            → other ≢ handle
            → get (remove t handle).1 other ≡ get t other)
  get-remove t handle value v small e =
      let (i, s, d, at, full) = get-slot t handle e in
      let found = remove-found t handle i s.generation d (value_found i s at full) in
      let gone = emptied-gone t handle i s d at in
      rw found (
        refl,
        emptied-IsValid t i s v at full,
        gone,
        remove-missing _ handle gone,
        λ other small' ne. emptied-others t handle i s small d at other small' ne,
      )
    where
      value_found :
          (i : ℕ) (s : Slot A)
          → get_elem? t.slots i ≡ some s
          → s.value ≡ some value
          → value_at (get_elem? t.slots i) s.generation ≡ some value
      value_found i s at full = ap (λ o. value_at o s.generation) at ∙ value_at_self s full

  refilled : HandleTable A → ℕ → ℕ → A → HandleTable A
  refilled t i g later =
      let gone : Slot A = record { generation = next_generation g; value = none } in
      let filled : Slot A = record { generation = next_generation g; value = some later } in
      record { slots = set (set t.slots i gone) i filled; free = t.free }
