-- ===== src/Transport/RecordReader/Tests.antt =====
-- Two records over three reads.
use rnetlib.Prelude.{ℕ, ◌≡◌, refl, arith, some, List, [], ◌∷◌, ok, err, protocol_error, All}
use rnetlib.Prelude.Bytes.{from_be, from_le}
use rnetlib.Transport.RecordReader.{new, take_record, read_all}
use rnetlib.Transport.RecordReader.Chunks.{IsRecord, stream, concat, read_all_lem}

abbrev payloads : List (List ℕ)
payloads = (5 ∷ []) ∷ (6 ∷ 7 ∷ []) ∷ []

abbrev pieces : List (List ℕ)
pieces = (0 ∷ 0 ∷ []) ∷ (0 ∷ 1 ∷ 5 ∷ 0 ∷ 0 ∷ 0 ∷ []) ∷ (2 ∷ 6 ∷ 7 ∷ []) ∷ []

cut : concat pieces ≡ stream payloads
unfolding concat stream
cut = refl

empty_record :
    (take_record (record { buffered = 0 ∷ 0 ∷ 0 ∷ 0 ∷ []; max_len = 8 })).0 ≡ err protocol_error
unfolding take_record from_be from_le
empty_record = refl

payloads-IsRecord : All (IsRecord 8) payloads
payloads-IsRecord =
    ((omega arith, omega arith, omega arith), ((omega arith, omega arith, omega arith), tt))

read_all_lem_example : read_all pieces (new 8) ≡ some (ok payloads, new 8)
read_all_lem_example = read_all_lem 8 payloads pieces payloads-IsRecord cut
