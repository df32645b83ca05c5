-- ===== src/Core/Handle/Codec.antt =====
-- Handles as numbers: `encode_handle` and `decode_handle` are inverse to one another.
use rnetlib.Prelude.{ℕ, ◌+◌, ◌*◌, ◌^◌, ◌≤◌, ◌<◌, ◌≡◌, ◌≢◌, ◌↔◌, ◌∙◌, sym, ap, arith, some}
use rnetlib.Prelude.Bits.{bit_or-shifted, bit_and_mask}
use rnetlib.Core.Handle.{encode_handle, decode_handle, next_generation}

encode_handle_lem :
    (index generation : ℕ)
    → index + 1 < 2 ^ 32
    → encode_handle index generation ≡ generation * 2 ^ 32 + (index + 1)
unfolding encode_handle
encode_handle_lem index generation h = bit_or-shifted 32 generation (index + 1) h

-- A slot below the limit of the index space and a generation in range are read back from their handle.
pub decode-encode_handle :
    (index generation : ℕ)
    → index + 1 < 2 ^ 32
    → 1 ≤ generation
    → generation < 2 ^ 32
    → decode_handle (encode_handle index generation) ≡ some (index, generation)
unfolding decode_handle
decode-encode_handle index generation hi pos hg =
    ground (
      arith,
      encode_handle_lem index generation hi,
      bit_and_mask 32 (encode_handle index generation),
    )

-- A number that names a slot is the handle of this slot.
pub encode-decode_handle :
    (handle : ℕ) {index generation : ℕ}
    → handle < 2 ^ 64
    → decode_handle handle ≡ some (index, generation)
    → (encode_handle index generation ≡ handle)
      × (1 ≤ generation)
      × (generation < 2 ^ 32)
      × (index + 1 < 2 ^ 32)
unfolding decode_handle
encode-decode_handle handle {index} {generation} small e =
    ground (arith, encode_handle_lem index generation, bit_and_mask 32 handle)

pub next_generation-range :
    (generation : ℕ) → (1 ≤ next_generation generation) × (next_generation generation < 2 ^ 32)
unfolding next_generation
next_generation-range generation = omega arith

pub next_generation-ne :
    (generation : ℕ)
    → 1 ≤ generation
    → generation < 2 ^ 32
    → next_generation generation ≢ generation
unfolding next_generation
next_generation-ne generation pos h = omega arith

-- For a number of 64 bits, an index and a generation: `decode_handle` reads the number as the two exactly if
-- it is their handle and they are in range.
pub decode_handle_iff :
    (handle index generation : ℕ)
    → handle < 2 ^ 64
    → (decode_handle handle ≡ some (index, generation)) ↔ (
        (encode_handle index generation ≡ handle)
        × (1 ≤ generation)
        × (generation < 2 ^ 32)
        × (index + 1 < 2 ^ 32))
decode_handle_iff handle index generation small = (
  (λ (e : decode_handle handle ≡ some (index, generation)). encode-decode_handle handle small e),
  (λ (h : (encode_handle index generation ≡ handle)
        × (1 ≤ generation)
        × (generation < 2 ^ 32)
        × (index + 1 < 2 ^ 32)).
      sym (ap decode_handle h.0) ∙ decode-encode_handle index generation h.3 h.1 h.2),
)
