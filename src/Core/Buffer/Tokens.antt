-- ===== src/Core/Buffer/Tokens.antt =====
-- What the tokens of crates/rnet-core/src/buffer.rs give access to.
use mathlib.Core.Option
use mathlib.Core.Path.{subst}
use rnetlib.Prelude.{
  ℕ, ◌+◌, ◌<◌, ◌^◌, ◌≡◌, ◌≢◌, refl, sym, ap, Option, none, some, List, ok, err, invalid_handle,
  ok_or, length,
}
use rnetlib.Core.Handle.{get, remove}
use rnetlib.Core.Handle.Table.{IsValid}
use rnetlib.Core.Handle.Laws.{get-insert}
use rnetlib.Core.Handle.Stale.{get-remove}
use rnetlib.Core.Buffer.{
  BufferStore, BufferView, view, address, insert_buffer, release, released, copy,
}

-- An inserted buffer is copied back through its token, its view has its length, and a null address
-- exactly if it is empty. The other tokens give what they gave.
pub copy-insert_buffer :
    (bytes : List ℕ) (store : BufferStore)
    → IsValid store
    → length store.slots + 1 < 2 ^ 32
    → (v : BufferView) × (store' : BufferStore) × (insert_buffer bytes store ≡ some (v, store'))
      × IsValid store'
      × (copy v.token store ≡ err invalid_handle)
      × (copy v.token store' ≡ ok bytes)
      × (v.len ≡ length bytes)
      × (v.ptr ≡ address v.token bytes)
      × ((other : ℕ) → other < 2 ^ 64 → other ≢ v.token → copy other store' ≡ copy other store)
unfolding insert_buffer copy
copy-insert_buffer bytes store v room =
    let (token, store', inserted, v', unused, found, others) = get-insert store bytes v room in
    (
      record { token = token; ptr = address token bytes; len = length bytes },
      store',
      ap (Option.map (view bytes)) inserted,
      v',
      ap (λ o. ok_or o invalid_handle) unused,
      ap (λ o. ok_or o invalid_handle) found,
      refl,
      refl,
      λ other small ne. ap (λ o. ok_or o invalid_handle) (others other small ne),
    )

-- Releasing a live token succeeds once: after it the token neither copies nor releases, and the other
-- tokens give what they gave.
pub copy-release :
    (token : ℕ) (bytes : List ℕ) (store : BufferStore)
    → IsValid store
    → token < 2 ^ 64
    → copy token store ≡ ok bytes
    → let store' = (release token store).1 in
      ((release token store).0 ≡ ok tt)
      × IsValid store'
      × (copy token store' ≡ err invalid_handle)
      × (release token store' ≡ (err invalid_handle, store'))
      × ((other : ℕ) → other < 2 ^ 64 → other ≢ token → copy other store' ≡ copy other store)
unfolding release copy
copy-release token bytes store v small here =
    let live : get store token ≡ some bytes = found (get store token) here in
    let (removed, v', gone, again, others) = get-remove store token bytes v small live in
    let whole : release token store ≡ (ok tt, (remove store token).1) =
      ap (λ o. released (o, (remove store token).1)) removed in
    subst
      (λ r.
        (r.0 ≡ ok tt)
        × IsValid r.1
        × (copy token r.1 ≡ err invalid_handle)
        × (release token r.1 ≡ (err invalid_handle, r.1))
        × ((other : ℕ) → other < 2 ^ 64 → other ≢ token → copy other r.1 ≡ copy other store))
      (sym whole)
      (
        refl,
        v',
        ap (λ o. ok_or o invalid_handle) gone,
        ap released again,
        λ other small' ne. ap (λ o. ok_or o invalid_handle) (others other small' ne),
      )
  where
    found : (o : Option (List ℕ)) → ok_or o invalid_handle ≡ ok bytes → o ≡ some bytes
    found none h = cc
    found (some b) h = cc
