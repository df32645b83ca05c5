-- ===== src/Transport/RecordReader/Chunks.antt =====
-- However the bytes of a connection are cut into reads, crates/rnet-transport/src/record_reader.rs gives back
-- the records that were written.
use mathlib.Core.List.{append_assoc, append-nil}
use rnetlib.Prelude.{
  ℕ, zero, suc, ◌+◌, ◌≤◌, ◌<◌, ◌^◌, ◌≡◌, refl, sym, ap, ◌∙◌, arith, false, none, some, List, [],
  ◌∷◌, ◌++◌, ok, ltb, ltb→lt, length, take, drop, u32_max, All, Bool-cases, inl, inr, length-append,
  take-append, drop-append, take-length_append, drop-length_append, length-drop,
}
use rnetlib.Prelude.Bytes.{to_be, from_be, from_be-to_be, length-to_be}
use rnetlib.Transport.RecordReader.{
  RecordReader, new, take_record, take_all, read, read_all, write_wire,
}

-- A record that the reader's limit admits.
abbrev pub IsRecord : ℕ → List ℕ → Type 0
IsRecord max_len payload =
    (1 ≤ length payload) × (length payload ≤ max_len) × (length payload < 2 ^ 32)

abbrev framed : List ℕ → List ℕ
framed payload = to_be 4 (length payload) ++ payload

unfoldable pub stream : List (List ℕ) → List ℕ
stream [] = []
stream (payload ∷ payloads) = framed payload ++ stream payloads

-- The header of a buffer that starts like a framed record.
header :
    (buffered later payload rest : List ℕ)
    → buffered ++ later ≡ framed payload ++ rest
    → 4 ≤ length buffered
    → take 4 buffered ≡ to_be 4 (length payload)
header buffered later payload rest e long =
    sym (take-append 4 buffered later long)
    ∙ ap (take 4) (e ∙ append_assoc (to_be 4 (length payload)) payload rest)

body :
    (buffered later payload rest : List ℕ)
    → buffered ++ later ≡ framed payload ++ rest
    → 4 ≤ length buffered
    → drop 4 buffered ++ later ≡ payload ++ rest
body buffered later payload rest e long =
    sym (drop-append 4 buffered later long)
    ∙ ap (drop 4) (e ∙ append_assoc (to_be 4 (length payload)) payload rest)

header_value :
    (buffered later payload rest : List ℕ)
    → buffered ++ later ≡ framed payload ++ rest
    → length payload < 2 ^ 32
    → 4 ≤ length buffered
    → from_be (take 4 buffered) ≡ length payload
header_value buffered later payload rest e small long =
    ap from_be (header buffered later payload rest e long) ∙ from_be-to_be 4 (length payload) small

-- A record that is not complete leaves the reader as it is.
take_short :
    (m : ℕ) (buffered later payload rest : List ℕ)
    → IsRecord m payload
    → buffered ++ later ≡ framed payload ++ rest
    → length buffered < 4 + length payload
    → take_record (record { buffered = buffered; max_len = m })
      ≡ (ok none, record { buffered = buffered; max_len = m })
unfolding take_record
take_short m buffered later payload rest (one, fits, small) e short =
    elim (Bool-cases (ltb (length buffered) 4)) [
      | inl tiny ↦ rw tiny refl
      | inr long ↦
          let value = header_value buffered later payload rest e small (ground arith) in
          ground (arith, value, long, short, one, fits, small)
    ]

take_full :
    (m : ℕ) (buffered later payload rest : List ℕ)
    → IsRecord m payload
    → buffered ++ later ≡ framed payload ++ rest
    → 4 + length payload ≤ length buffered
    → (left : List ℕ) × (take_record (record { buffered = buffered; max_len = m })
        ≡ (ok (some payload), record { buffered = left; max_len = m }))
      × (left ++ later ≡ rest)
      × (length buffered ≡ 4 + length payload + length left)
unfolding take_record
take_full m buffered later payload rest (one, fits, small) e long =
    let value = header_value buffered later payload rest e small (omega arith) in
    let inside : length payload ≤ length (drop 4 buffered) =
      omega (arith, length-drop 4 buffered) in
    let after = body buffered later payload rest e (omega arith) in
    let front : take (length payload) (drop 4 buffered) ≡ payload =
      sym (take-append (length payload) (drop 4 buffered) later inside)
      ∙ ap (take (length payload)) after
      ∙ take-length_append payload rest in
    let left : drop (length payload) (drop 4 buffered) ++ later ≡ rest =
      sym (drop-append (length payload) (drop 4 buffered) later inside)
      ∙ ap (drop (length payload)) after
      ∙ drop-length_append payload rest in
    (
      drop (length payload) (drop 4 buffered),
      taken value front,
      left,
      omega (arith, length-drop (length payload) (drop 4 buffered), length-drop 4 buffered),
    )
  where
    taken :
        from_be (take 4 buffered) ≡ length payload
        → take (length payload) (drop 4 buffered) ≡ payload
        → take_record (record { buffered = buffered; max_len = m }) ≡ (
          ok (some payload),
          record { buffered = drop (length payload) (drop 4 buffered); max_len = m },
        )
    taken value front = ground (arith, value, front, one, fits, small, long)

-- No record is complete in `left`, of those that are still to come.
abbrev Waits : List ℕ → List (List ℕ) → Type 0
Waits left [] = left ≡ []
Waits left (payload ∷ payloads) = length left < 4 + length payload

abbrev reader : ℕ → List ℕ → RecordReader
reader m buffered = record { buffered = buffered; max_len = m }

-- What the loop takes of a buffer at the start of a stream.
record Took (m fuel : ℕ) (buffered later : List ℕ) (payloads : List (List ℕ)) : Type 0 where
  first : List (List ℕ)
  coming : List (List ℕ)
  left : List ℕ
  all : payloads ≡ first ++ coming
  taken : take_all fuel (reader m buffered) ≡ some (ok first, reader m left)
  stream_left : left ++ later ≡ stream coming
  records : All (IsRecord m) coming
  waits : Waits left coming

append-nil_left : (xs ys : List ℕ) → xs ++ ys ≡ [] → xs ≡ []
append-nil_left [] ys e = refl
append-nil_left (x ∷ xs) ys e = cc

take_nothing : (m : ℕ) → take_record (reader m []) ≡ (ok none, reader m [])
unfolding take_record
take_nothing m = refl

stopped :
    (m fuel : ℕ) (buffered later : List ℕ) (payloads : List (List ℕ))
    → take_record (reader m buffered) ≡ (ok none, reader m buffered)
    → buffered ++ later ≡ stream payloads
    → All (IsRecord m) payloads
    → Waits buffered payloads
    → Took m (suc fuel) buffered later payloads
unfolding take_all
stopped m fuel buffered later payloads none_taken e r w = record {
  first = [];
  coming = payloads;
  left = buffered;
  all = refl;
  taken = rw (none_taken, take_all) refl;
  stream_left = e;
  records = r;
  waits = w;
}

taken_of_stream :
    (m fuel : ℕ) (buffered later : List ℕ) (payloads : List (List ℕ))
    → All (IsRecord m) payloads
    → buffered ++ later ≡ stream payloads
    → length buffered < fuel
    → Took m fuel buffered later payloads
unfolding stream take_all
taken_of_stream m zero buffered later payloads r e h = absurd (omega arith)
taken_of_stream m (suc fuel) buffered later [] r e h =
    let empty = append-nil_left buffered later e in
    stopped m fuel buffered later [] (rw empty (take_nothing m)) e tt empty
taken_of_stream m (suc fuel) buffered later (payload ∷ payloads) (r, rs) e h =
    elim (Bool-cases (ltb (length buffered) (4 + length payload))) [
      | inl short ↦
          let short' = ltb→lt _ _ short in
          stopped m fuel buffered later (payload ∷ payloads)
            (take_short m buffered later payload (stream payloads) r e short') e (r, rs) short'
      | inr full ↦
          let (left, here, after, size) =
            take_full m buffered later payload (stream payloads) r e (not_short full) in
          let t = taken_of_stream m fuel left later payloads rs after (omega arith) in
          record {
            first = payload ∷ t.first;
            coming = t.coming;
            left = t.left;
            all = ap (λ ps. payload ∷ ps) t.all;
            taken = rw (here, take_all) (rw t.taken refl);
            stream_left = t.stream_left;
            records = t.records;
            waits = t.waits;
          }
    ]
  where
    not_short :
        ltb (length buffered) (4 + length payload) ≡ false → 4 + length payload ≤ length buffered
    not_short full = ground arith

unfoldable pub concat : List (List ℕ) → List ℕ
concat [] = []
concat (bytes ∷ pieces) = bytes ++ concat pieces

-- At the end of the stream nothing is left.
ended :
    (buffered : List ℕ) (payloads : List (List ℕ))
    → buffered ++ [] ≡ stream payloads
    → Waits buffered payloads
    → (payloads ≡ []) × (buffered ≡ [])
unfolding stream
ended buffered [] e w = (refl, w)
ended buffered (payload ∷ payloads) e w = absurd (
    omega (
      arith,
      ap length (sym (append-nil buffered) ∙ e),
      length-append (framed payload) (stream payloads),
      length-append (to_be 4 (length payload)) payload,
      length-to_be 4 (length payload),
    ))

read_all_from :
    (m : ℕ) (pieces : List (List ℕ)) (buffered : List ℕ) (payloads : List (List ℕ))
    → All (IsRecord m) payloads
    → buffered ++ concat pieces ≡ stream payloads
    → Waits buffered payloads
    → read_all pieces (reader m buffered) ≡ some (ok payloads, reader m [])
unfolding read_all concat read
read_all_from m [] buffered payloads r e w =
    let (none_left, empty) = ended buffered payloads e w in rw (none_left, empty) refl
read_all_from m (bytes ∷ pieces) buffered payloads r e w =
    let t =
      taken_of_stream m (suc (length buffered + length bytes)) (buffered ++ bytes) (concat pieces)
        payloads r (append_assoc buffered bytes (concat pieces) ∙ e)
        (omega (arith, length-append buffered bytes)) in
    let later = read_all_from m pieces t.left t.coming t.records t.stream_left t.waits in
    rw (t.taken, read_all, read) (rw later (ap (λ ps. some (ok ps, reader m [])) (sym t.all)))

starts : (payloads : List (List ℕ)) → Waits [] payloads
starts [] = refl
starts (payload ∷ payloads) = omega arith

-- However the bytes of written records are cut into reads, the reader gives back the records, each once
-- and in order, and ends with an empty buffer.
pub read_all_lem :
    (max_len : ℕ) (payloads pieces : List (List ℕ))
    → All (IsRecord max_len) payloads
    → concat pieces ≡ stream payloads
    → read_all pieces (new max_len) ≡ some (ok payloads, new max_len)
read_all_lem max_len payloads pieces r e =
    read_all_from max_len pieces [] payloads r e (starts payloads)

-- What a stream holds for a record is what `write_wire` writes of it.
pub write_wire-stream :
    (encoded : List ℕ) → length encoded < 2 ^ 32 → write_wire encoded ≡ ok (stream (encoded ∷ []))
unfolding write_wire stream
write_wire-stream encoded small =
    let fits : ltb u32_max (length encoded) ≡ false = ground arith in
    rw (fits, write_wire)
      (ap (λ bytes. ok bytes)
        (ap (λ bytes. to_be 4 (length encoded) ++ bytes) (sym (append-nil encoded))))
