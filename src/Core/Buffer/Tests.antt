-- ===== src/Core/Buffer/Tests.antt =====
-- An exported buffer.
use rnetlib.Prelude.{
  ℕ, ◌+◌, ◌<◌, ◌^◌, ◌≡◌, ◌≢◌, refl, arith, some, List, [], ◌∷◌, ok, err, invalid_handle,
}
use rnetlib.Core.Handle.{get, decode_handle}
use rnetlib.Core.Handle.Table.{IsValid, one_slot-IsValid}
use rnetlib.Core.Buffer.{BufferStore, release, copy}
use rnetlib.Core.Buffer.Tokens.{copy-release}

abbrev bytes : List ℕ
bytes = 1 ∷ 2 ∷ []

-- One exported buffer.
abbrev store : BufferStore
store = record { slots = record { generation = 1; value = some bytes } ∷ []; free = [] }

abbrev token : ℕ
token = 2 ^ 32 + 1

store-IsValid : IsValid store
store-IsValid = one_slot-IsValid bytes

copied : copy token store ≡ ok bytes
unfolding copy get decode_handle
copied = refl

copy-release_example :
    let store' = (release token store).1 in
    ((release token store).0 ≡ ok tt)
    × IsValid store'
    × (copy token store' ≡ err invalid_handle)
    × (release token store' ≡ (err invalid_handle, store'))
    × ((other : ℕ) → other < 2 ^ 64 → other ≢ token → copy other store' ≡ copy other store)
copy-release_example = copy-release token bytes store store-IsValid (omega arith) copied
