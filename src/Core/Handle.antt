-- ===== src/Core/Handle.antt =====
-- crates/rnet-core/src/handle.rs: generational slots and the handles that name them.
pub mod Codec
pub mod Table
pub mod Laws
pub mod Stale
mod Tests
use Prim.Native.Nat.{bit_and, bit_or}
use rnetlib.Prelude.{
  ℕ, zero, suc, ◌+◌, ◌-◌, ◌*◌, ◌/◌, ◌%◌, ◌^◌, max, Bool, ◌||◌, Option, none, some, List, [], ◌∷◌,
  ◌++◌, ◌==◌, if◌then◌else◌, length, get_elem?, set, u32_mod, u32_max,
}

-- `u64::from(generation) << 32 | (index as u64 + 1)`
pub encode_handle : ℕ → ℕ → ℕ
encode_handle index generation = bit_or (generation * 2 ^ 32) (index + 1)

unfoldable pub decode_handle : ℕ → Option (ℕ × ℕ)
decode_handle handle =
    let encoded_index = bit_and handle u32_max in
    let generation = handle / 2 ^ 32 % u32_mod in
    if encoded_index == 0 || generation == 0 then none else some (encoded_index - 1, generation)

-- `generation.wrapping_add(1).max(1)`
pub next_generation : ℕ → ℕ
next_generation generation = max ((generation + 1) % u32_mod) 1

pub record Slot {ℓ} (A : Type ℓ) : Type ℓ where
  pub generation : ℕ
  pub value : Option A

-- The head of `free` is the end of the vector.
pub record HandleTable {ℓ} (A : Type ℓ) : Type ℓ where
  pub slots : List (Slot A)
  pub free : List ℕ

module _ {ℓ} {A : Type ℓ} where
  pub new : HandleTable A
  new = record { slots = []; free = [] }

  pub live_count : List (Slot A) → ℕ
  live_count [] = 0
  live_count (slot ∷ slots) = elim slot.value [
    | none ↦ live_count slots
    | some _ ↦ suc (live_count slots)
  ]

  pub len : HandleTable A → ℕ
  unfolding live_count
  len t = live_count t.slots

  -- `self.slots[index]` and the rest of `insert`. `none` is the panic of an index out of range.
  pub place : List (Slot A) → List ℕ → ℕ → A → Option (ℕ × HandleTable A)
  place slots free index value = elim (get_elem? slots index) [
    | none ↦ none
    | some slot ↦ some (
      encode_handle index slot.generation,
      record {
        slots = set slots index (record { generation = slot.generation; value = some value });
        free = free;
      },
    )
  ]

  abbrev pub vacant : Slot A
  vacant = record { generation = 1; value = none }

  pub insert : HandleTable A → A → Option (ℕ × HandleTable A)
  unfolding place
  insert t value = elim t.free [
    | index ∷ rest ↦ place t.slots rest index value
    | [] ↦ place (t.slots ++ vacant ∷ []) [] (length t.slots) value
  ]

  abbrev pub value_at : Option (Slot A) → ℕ → Option A
  value_at none generation = none
  value_at (some slot) generation = if slot.generation == generation then slot.value else none

  unfoldable pub get : HandleTable A → ℕ → Option A
  get t handle = elim (decode_handle handle) [
    | none ↦ none
    | some (index, generation) ↦ value_at (get_elem? t.slots index) generation
  ]

  -- The removed value, and the table.
  pub remove : HandleTable A → ℕ → Option A × HandleTable A
  remove t handle = elim (decode_handle handle) [
    | none ↦ (none, t)
    | some (index, generation) ↦ elim (value_at (get_elem? t.slots index) generation) [
      | none ↦ (none, t)
      | some value ↦ (
        some value,
        record {
          slots =
              set t.slots index (record { generation = next_generation generation; value = none });
          free = index ∷ t.free;
        },
      )
    ]
  ]
