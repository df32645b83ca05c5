-- ===== src/Core/Handle/Laws.antt =====
-- What a client of a handle table may rely on: fresh handles, lookups, and stale handles.
use mathlib.Core.Path.{ap₂}
use rnetlib.Prelude.{
  ℕ, ◌+◌, ◌<◌, ◌^◌, ◌≡◌, ◌≢◌, refl, sym, ap, ◌∙◌, arith, false, Option, none, some, List, length,
  get_elem?, set, get_elem?-set_self, get_elem?-set_ne, lt_of_get_elem?, ◌==◌, Bool-cases, ==_iff,
  inl, inr,
}
use rnetlib.Core.Handle.{Slot, HandleTable, insert, value_at, get, encode_handle, decode_handle}
use rnetlib.Core.Handle.Codec.{encode-decode_handle, decode-encode_handle}
use rnetlib.Core.Handle.Table.{IsGeneration, IsValid, insert-Target}

module _ {ℓ} {A : Type ℓ} where
  pub get-encode :
      (t : HandleTable A) (i g : ℕ)
      → i + 1 < 2 ^ 32
      → IsGeneration g
      → get t (encode_handle i g) ≡ value_at (get_elem? t.slots i) g
  unfolding get
  get-encode t i g hi hg = rw (decode-encode_handle i g hi hg.0 hg.1, get) refl

  -- A slot without a value is found under no handle.
  pub value_at-empty : (s : Slot A) (g : ℕ) → s.value ≡ none → value_at (some s) g ≡ none
  value_at-empty s g e = ground arith

  pub value_at_self : (s : Slot A) {o : Option A} → s.value ≡ o → value_at (some s) s.generation ≡ o
  value_at_self s e = ground arith

  pub value_at_other : (s : Slot A) (g : ℕ) → s.generation ≢ g → value_at (some s) g ≡ none
  value_at_other s g ne = ground arith

  -- Two tables that differ in one slot only, seen through a handle of another slot or generation.
  pub value_at-set :
      (slots : List (Slot A)) (i j g : ℕ) (s s' : Slot A)
      → get_elem? slots i ≡ some s
      → (i ≡ j → value_at (some s') g ≡ value_at (some s) g)
      → value_at (get_elem? (set slots i s') j) g ≡ value_at (get_elem? slots j) g
  value_at-set slots i j g s s' at same = elim (Bool-cases (i == j)) [
    | inl e ↦
        let e' = (==_iff i j).0 e in
        rw (← e', get_elem?-set_self slots i s' (lt_of_get_elem? slots i at), at) (same e')
    | inr n ↦ ap (λ o. value_at o g) (get_elem?-set_ne slots i j s' (λ e. absurd (differ e n)))
  ]
    where
      differ : i ≡ j → (i == j) ≡ false → ⊥
      differ e n = ground arith

  -- Two tables agree on a handle when they agree on the slot that it names.
  pub get-eq_of :
      (t t' : HandleTable A) (handle : ℕ)
      → handle < 2 ^ 64
      → ((j g : ℕ)
          → encode_handle j g ≡ handle
          → value_at (get_elem? t'.slots j) g ≡ value_at (get_elem? t.slots j) g)
      → get t' handle ≡ get t handle
  unfolding get
  get-eq_of t t' handle small agree = go (decode_handle handle) refl
    where
      go : (d : Option (ℕ × ℕ)) → decode_handle handle ≡ d → get t' handle ≡ get t handle
      go none e = rw (e, get) refl
      go (some (j, g)) e = rw (e, get) (agree j g (encode-decode_handle handle small e).0)

  -- Inserting succeeds while the 32-bit index space has room. The table stays valid, the handle was
  -- not in use, it finds the value, and what every other handle finds is unchanged.
  pub get-insert :
      (t : HandleTable A) (value : A)
      → IsValid t
      → length t.slots + 1 < 2 ^ 32
      → (handle : ℕ) × (t' : HandleTable A) × (insert t value ≡ some (handle, t'))
        × IsValid t'
        × (get t handle ≡ none)
        × (get t' handle ≡ some value)
        × ((other : ℕ) → other < 2 ^ 64 → other ≢ handle → get t' other ≡ get t other)
  get-insert t value v room =
      let target = insert-Target t value v room in
      let filled : Slot A = record { generation = target.slot.generation; value = some value } in
      (
        encode_handle target.index target.slot.generation,
        record { slots = set target.slots target.index filled; free = target.free },
        target.inserted,
        target.valid,
        get-encode t target.index target.slot.generation target.bounded target.range
            ∙ sym (target.same target.index target.slot.generation)
            ∙ rw target.at (value_at_self target.slot target.empty),
        get-encode _ target.index target.slot.generation target.bounded target.range
            ∙ rw
                (get_elem?-set_self target.slots target.index filled
                  (lt_of_get_elem? target.slots target.index target.at))
                (value_at_self filled refl),
        λ other small ne. get-eq_of t _ other small (λ j g e.
            value_at-set target.slots target.index j g target.slot filled target.at (λ same.
              value_at_other filled g
                (λ same'. ne (sym e ∙ ap₂ encode_handle (sym same) (sym same')))
              ∙ sym (value_at-empty target.slot g target.empty))
            ∙ target.same j g),
      )

  -- The slot of a handle that finds a value.
  pub get-slot :
      (t : HandleTable A) (handle : ℕ) {value : A}
      → get t handle ≡ some value
      → (i : ℕ) × (s : Slot A) × (decode_handle handle ≡ some (i, s.generation))
        × (get_elem? t.slots i ≡ some s)
        × (s.value ≡ some value)
  unfolding get
  get-slot t handle {value} e = go (decode_handle handle) refl
    where
      in_slot :
          (i g : ℕ) (o : Option (Slot A))
          → decode_handle handle ≡ some (i, g)
          → get_elem? t.slots i ≡ o
          → value_at o g ≡ some value
          → (i : ℕ) × (s : Slot A) × (decode_handle handle ≡ some (i, s.generation))
            × (get_elem? t.slots i ≡ some s)
            × (s.value ≡ some value)
      in_slot i g none d at h = cc
      in_slot i g (some s) d at h = (i, s, ground arith, at, ground arith)

      go :
          (d : Option (ℕ × ℕ))
          → decode_handle handle ≡ d
          → (i : ℕ) × (s : Slot A) × (decode_handle handle ≡ some (i, s.generation))
            × (get_elem? t.slots i ≡ some s)
            × (s.value ≡ some value)
      go none d = absurd (none_found (rw (d, get) at e))
        where
          none_found : none ≡ some value → ⊥
          none_found h = cc
      go (some (i, g)) d = in_slot i g (get_elem? t.slots i) d refl (rw (d, get) at e)
