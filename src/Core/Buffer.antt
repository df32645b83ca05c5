-- ===== src/Core/Buffer.antt =====
-- crates/rnet-core/src/buffer.rs: exported byte buffers. The address of a buffer is its token here, since
-- the buffer is not moved between its insertion and its release; the lock makes each call one step.
pub mod Tokens
mod Tests
use mathlib.Core.Option
use rnetlib.Prelude.{
  ℕ, Bool, true, false, Option, none, some, List, [], ◌∷◌, Result, ok, err, invalid_handle, ok_or,
  length,
}
use rnetlib.Core.Handle.{HandleTable, insert, get, remove, len}
use rnetlib.Core.Handle as Handle

abbrev pub BufferStore : Type 0
BufferStore = HandleTable (List ℕ)

pub record BufferView : Type 0 where
  pub token : ℕ
  pub ptr : Option ℕ
  pub len : ℕ

abbrev pub new : BufferStore
new = Handle.new

abbrev pub address : ℕ → List ℕ → Option ℕ
address token [] = none
address token (b ∷ bs) = some token

abbrev pub view : List ℕ → ℕ × BufferStore → BufferView × BufferStore
view bytes (token, store) =
    (record { token = token; ptr = address token bytes; len = length bytes }, store)

-- `none` is the panic of an index that leaves the table.
pub insert_buffer : List ℕ → BufferStore → Option (BufferView × BufferStore)
insert_buffer bytes store = Option.map (view bytes) (insert store bytes)

abbrev pub released : Option (List ℕ) × BufferStore → Result (Unit {0}) × BufferStore
released (none, store) = (err invalid_handle, store)
released (some bytes, store) = (ok tt, store)

pub release : ℕ → BufferStore → Result (Unit {0}) × BufferStore
release token store = released (remove store token)

pub copy : ℕ → BufferStore → Result (List ℕ)
copy token store = ok_or (get store token) invalid_handle

pub outstanding : BufferStore → ℕ
outstanding store = len store
