-- ===== src/Core/Handle/Tests.antt =====
-- Handles on small tables.
use rnetlib.Prelude.{ℕ, ◌+◌, ◌<◌, ◌^◌, ◌≡◌, ◌≢◌, refl, arith, none, some, [], ◌∷◌}
use rnetlib.Core.Handle.{HandleTable, new, insert, place, get, remove, encode_handle, decode_handle}
use rnetlib.Core.Handle.Table.{IsValid, one_slot-IsValid}
use rnetlib.Core.Handle.Laws.{get-insert}
use rnetlib.Core.Handle.Stale.{get-remove}

-- One slot that holds 7, and its handle.
abbrev one_slot : HandleTable ℕ
one_slot = record { slots = record { generation = 1; value = some 7 } ∷ []; free = [] }

abbrev handle : ℕ
handle = 2 ^ 32 + 1

insert_first : insert new 7 ≡ some (handle, one_slot)
unfolding insert place new encode_handle
insert_first = refl

get_first : get one_slot handle ≡ some 7
unfolding get decode_handle
get_first = refl

get_zero : get one_slot 0 ≡ none
unfolding get decode_handle
get_zero = refl

get-insert_example :
    (h : ℕ) × (t' : HandleTable ℕ) × (insert one_slot 9 ≡ some (h, t'))
    × IsValid t'
    × (get one_slot h ≡ none)
    × (get t' h ≡ some 9)
    × ((other : ℕ) → other < 2 ^ 64 → other ≢ h → get t' other ≡ get one_slot other)
get-insert_example = get-insert one_slot 9 (one_slot-IsValid 7) (omega arith)

get-remove_example :
    ((remove one_slot handle).0 ≡ some 7)
    × IsValid (remove one_slot handle).1
    × (get (remove one_slot handle).1 handle ≡ none)
    × (remove (remove one_slot handle).1 handle ≡ (none, (remove one_slot handle).1))
    × ((other : ℕ)
        → other < 2 ^ 64
        → other ≢ handle
        → get (remove one_slot handle).1 other ≡ get one_slot other)
get-remove_example = get-remove one_slot handle 7 (one_slot-IsValid 7) (omega arith) get_first

decode_first : decode_handle handle ≡ some (0, 1)
unfolding decode_handle
decode_first = refl
