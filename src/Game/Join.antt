-- ===== src/Game/Join.antt =====
-- crates/rnet-game/src/join.rs: what a client sends to join, and the version that the server selects.
pub mod Selection
pub mod RoundTrip
pub mod Tests
use rnetlib.Prelude.{
  ℕ, ◌+◌, ◌-◌, ◌*◌, Bool, true, false, not, ◌&&◌, ◌||◌, Option, none, some, List, [], ◌∷◌, ◌++◌,
  Result, ok, err, protocol_error, message_too_large, invalid_argument, ◌>>=◌, ◌>>◌, reject, ok_or,
  ltb, leb, ◌==◌, if◌then◌else◌, length, take, drop, checked_add, is_some, min, max,
}
use rnetlib.Prelude.Bytes.{to_be, from_be, slice}

abbrev pub header_len : ℕ
header_len = 54

abbrev pub range_resume_header_len : ℕ
range_resume_header_len = 56

-- b"RGV4" and b"RGR4"
abbrev pub range_magic : List ℕ
range_magic = 82 ∷ 71 ∷ 86 ∷ 52 ∷ []

abbrev pub range_resume_magic : List ℕ
range_resume_magic = 82 ∷ 71 ∷ 82 ∷ 52 ∷ []

pub record GameProtocol : Type 0 where
  pub protocol_id : ℕ
  pub min_version : ℕ
  pub max_version : ℕ
  pub build_id : ℕ
  pub capabilities : ℕ

abbrev pub is_valid : GameProtocol → Bool
is_valid p = not (p.protocol_id == 0) && not (p.min_version == 0) && leb p.min_version p.max_version

pub record RangeJoinRequest : Type 0 where
  pub protocol : GameProtocol
  pub nonce : List ℕ
  pub ticket : List ℕ
  pub resume_ticket : Option (List ℕ)

unfoldable pub select_version : GameProtocol → GameProtocol → Option ℕ
select_version client server =
    let lower = max client.min_version server.min_version in
    let upper = min client.max_version server.max_version in
    if not (is_valid client)
      || not (is_valid server)
      || not (client.protocol_id == server.protocol_id)
    then none
    else if leb lower upper
    then some upper
    else none

-- The comparison of byte strings.
abbrev pub same_bytes : List ℕ → List ℕ → Bool
same_bytes [] [] = true
same_bytes [] (y ∷ ys) = false
same_bytes (x ∷ xs) [] = false
same_bytes (x ∷ xs) (y ∷ ys) = x == y && same_bytes xs ys

-- `nonce == [0; 16]`
abbrev pub is_zero : List ℕ → Bool
is_zero [] = true
is_zero (x ∷ xs) = x == 0 && is_zero xs

abbrev pub len_or_zero : Option (List ℕ) → ℕ
len_or_zero none = 0
len_or_zero (some ticket) = length ticket

abbrev pub too_long : Option (List ℕ) → Bool
too_long none = false
too_long (some ticket) = ltb 65_535 (length ticket)

abbrev pub fields : GameProtocol → List ℕ → List ℕ
fields p rest =
    to_be 8 p.protocol_id
    ++ to_be 4 p.min_version
    ++ to_be 4 p.max_version
    ++ to_be 8 p.build_id
    ++ to_be 8 p.capabilities
    ++ rest

abbrev pub written : RangeJoinRequest → List ℕ
written r = elim r.resume_ticket [
  | none ↦ range_magic ++ fields r.protocol (r.nonce ++ (to_be 2 (length r.ticket) ++ r.ticket))
  | some resume ↦
      range_resume_magic
      ++ fields r.protocol (
          r.nonce
          ++ (to_be 2 (length r.ticket) ++ (to_be 2 (length resume) ++ (r.ticket ++ resume))))
]

unfoldable pub encode_range_inner : RangeJoinRequest → ℕ → Result (List ℕ)
encode_range_inner r maximum_len = do
  reject (not (is_valid r.protocol) || is_zero r.nonce) invalid_argument
  let header = if is_some r.resume_ticket then range_resume_header_len else header_len
  with_ticket ← ok_or (checked_add header (length r.ticket)) message_too_large
  total ← ok_or (checked_add with_ticket (len_or_zero r.resume_ticket)) message_too_large
  reject (ltb 65_535 (length r.ticket) || too_long r.resume_ticket || ltb maximum_len total)
      message_too_large
  ok (written r)

unfoldable pub encode_range : GameProtocol → List ℕ → List ℕ → ℕ → Result (List ℕ)
unfolding encode_range_inner
encode_range protocol nonce ticket maximum_len =
    encode_range_inner
      (record { protocol = protocol; nonce = nonce; ticket = ticket; resume_ticket = none })
      maximum_len

unfoldable pub encode_range_resume : GameProtocol → List ℕ → List ℕ → List ℕ → ℕ → Result (List ℕ)
unfolding encode_range_inner
encode_range_resume protocol nonce ticket resume_ticket maximum_len = do
  reject (length resume_ticket == 0) invalid_argument
  encode_range_inner
      (record {
        protocol = protocol;
        nonce = nonce;
        ticket = ticket;
        resume_ticket = some resume_ticket;
      })
      maximum_len

unfoldable pub read_protocol : List ℕ → GameProtocol
read_protocol input = record {
  protocol_id = from_be (slice 4 12 input);
  min_version = from_be (slice 12 16 input);
  max_version = from_be (slice 16 20 input);
  build_id = from_be (slice 20 28 input);
  capabilities = from_be (slice 28 36 input);
}

unfoldable pub decode_range : List ℕ → Result RangeJoinRequest
decode_range input = do
  let magic = take 4 input
  reject
      (ltb (length input) header_len
        || not (same_bytes magic range_magic) && not (same_bytes magic range_resume_magic))
      protocol_error
  let protocol = read_protocol input
  let nonce = slice 36 52 input
  let ticket_len = from_be (slice 52 54 input)
  reject (not (is_valid protocol) || is_zero nonce) protocol_error
  let resume = same_bytes magic range_resume_magic
  reject (resume && ltb (length input) range_resume_header_len) protocol_error
  let header = if resume then range_resume_header_len else header_len
  let resume_len = if resume then from_be (slice 54 56 input) else 0
  reject (resume && resume_len == 0 || not (length input == header + ticket_len + resume_len))
      protocol_error
  let ticket_end = header + ticket_len
  ok (record {
    protocol = protocol;
    nonce = nonce;
    ticket = slice header ticket_end input;
    resume_ticket = if resume then some (drop ticket_end input) else none;
  })
