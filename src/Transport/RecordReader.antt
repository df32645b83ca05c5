-- ===== src/Transport/RecordReader.antt =====
-- crates/rnet-transport/src/record_reader.rs, with `write_wire` of crates/rnet-transport/src/adaptive_tcp.rs
-- and the reads of the session loop in crates/rnet-transport/src/adaptive_tcp_session.rs.
pub mod Chunks
mod Tests
use rnetlib.Prelude.{
  ℕ, zero, suc, ◌+◌, ◌^◌, Bool, Option, none, some, List, [], ◌∷◌, ◌++◌, Result, ok, err,
  protocol_error, message_too_large, ltb, ◌==◌, if◌then◌else◌, length, take, drop, checked_add,
  u32_max,
}
use rnetlib.Prelude.Bytes.{to_be, from_be}

pub record RecordReader : Type 0 where
  pub buffered : List ℕ
  pub max_len : ℕ

abbrev pub new : ℕ → RecordReader
new max_len = record { buffered = []; max_len = max_len }

-- A completed read appends its bytes.
abbrev pub append : List ℕ → RecordReader → RecordReader
append bytes r = record r { buffered = r.buffered ++ bytes }

pub take_record : RecordReader → Result (Option (List ℕ)) × RecordReader
take_record r =
    let len = from_be (take 4 r.buffered) in
    if ltb (length r.buffered) 4
    then (ok none, r)
    else if len == 0
    then (err protocol_error, r)
    else if ltb r.max_len len
    then (err message_too_large, r)
    else elim (checked_add len 4) [
      | none ↦ (err message_too_large, r)
      | some framed_len ↦ if ltb (length r.buffered) framed_len then (ok none, r) else (
        ok (some (take len (drop 4 r.buffered))),
        record r { buffered = drop len (drop 4 r.buffered) },
      )
    ]

abbrev pub Taken : Type 0
Taken = Option (Result (List (List ℕ)) × RecordReader)

-- The records before those of a later step.
abbrev pub and_then : List (List ℕ) → Taken → Taken
and_then payloads none = none
and_then payloads (some (err e, r)) = some (err e, r)
and_then payloads (some (ok more, r)) = some (ok (payloads ++ more), r)

-- One round of the loop, given the rounds after it.
abbrev pub round : (RecordReader → Taken) → Result (Option (List ℕ)) × RecordReader → Taken
round again (err e, r) = some (err e, r)
round again (ok none, r) = some (ok [], r)
round again (ok (some payload), r) = and_then (payload ∷ []) (again r)

-- The loop that takes records until none is complete; `none` is an end of the fuel. A record takes at
-- least one byte, so one more than the bytes in the buffer is enough.
pub take_all : ℕ → RecordReader → Taken
take_all zero r = none
take_all (suc fuel) r = round (take_all fuel) (take_record r)

-- A read, and the records that it completes.
pub read : List ℕ → RecordReader → Taken
read bytes r = take_all (suc (length r.buffered + length bytes)) (append bytes r)

abbrev pub next_read : (RecordReader → Taken) → Taken → Taken
next_read again none = none
next_read again (some (err e, r)) = some (err e, r)
next_read again (some (ok payloads, r)) = and_then payloads (again r)

-- A connection read piece by piece, up to an error.
pub read_all : List (List ℕ) → RecordReader → Taken
read_all [] r = some (ok [], r)
read_all (bytes ∷ pieces) r = next_read (read_all pieces) (read bytes r)

-- What `write_wire` writes of an encoded record.
pub write_wire : List ℕ → Result (List ℕ)
write_wire encoded =
    if ltb u32_max (length encoded)
    then err message_too_large
    else ok (to_be 4 (length encoded) ++ encoded)
