-- ===== src/Game/Join/RoundTrip.antt =====
-- The join request of crates/rnet-game/src/join.rs on the wire.
use rnetlib.Prelude.{
  ℕ, suc, ==_refl, ◌+◌, ◌-◌, ◌≤◌, ◌<◌, ◌≡◌, ◌^◌, refl, sym, ap, ◌∙◌, arith, Bool, true, false, not,
  ◌||◌, Option, none, some, List, [], ◌∷◌, ◌++◌, ok, ErrorCode, reject, ok_or, chain_ok,
  checked_add, invalid_argument, message_too_large, is_some, length, ltb, ◌==◌, if◌then◌else◌, take,
  drop, length-append, drop-drop, take-length, take-length_append,
}
use rnetlib.Prelude.Bytes.{to_be, from_be, slice, from_be-to_be}
use rnetlib.Game.Join.{
  GameProtocol, RangeJoinRequest, is_valid, is_zero, too_long, len_or_zero, read_protocol, fields,
  written, encode_range_inner, decode_range, range_magic, range_resume_magic,
}

drop-prefix : (n k : ℕ) (xs ys : List ℕ) → length xs ≡ n → drop (n + k) (xs ++ ys) ≡ drop k ys
drop-prefix n k [] ys e = let z : n + k ≡ k = omega arith in ap (λ j. drop j ys) z
drop-prefix n k (x ∷ xs) ys e =
    let z : n + k ≡ suc (length xs + k) = omega arith in
    ap (λ j. drop j (x ∷ (xs ++ ys))) z ∙ drop-prefix (length xs) k xs ys refl

take-prefix : (n : ℕ) (xs ys : List ℕ) → length xs ≡ n → take n (xs ++ ys) ≡ xs
take-prefix n [] ys e = rw (← e) refl
take-prefix n (x ∷ xs) ys e = rw (← e) (ap (λ zs. x ∷ zs) (take-prefix (length xs) xs ys refl))

not-short : (n limit : ℕ) → limit ≤ n → ltb n limit ≡ false
not-short n limit h = ground arith

-- A string with the fields of a join without a resume ticket.
record IsPlain (r : RangeJoinRequest) (input : List ℕ) : Type 0 where
  pub magic_field : take 4 input ≡ range_magic
  pub protocol_field : read_protocol input ≡ r.protocol
  pub nonce_field : slice 36 52 input ≡ r.nonce
  pub length_field : from_be (slice 52 54 input) ≡ length r.ticket
  pub whole : length input ≡ 54 + length r.ticket
  pub ticket_field : slice 54 (54 + length r.ticket) input ≡ r.ticket

decode-IsPlain :
    (p : GameProtocol) (nonce ticket : List ℕ) (input : List ℕ)
    → IsPlain (record { protocol = p; nonce = nonce; ticket = ticket; resume_ticket = none }) input
    → is_valid p ≡ true
    → is_zero nonce ≡ false
    → decode_range input
      ≡ ok (record { protocol = p; nonce = nonce; ticket = ticket; resume_ticket = none })
unfolding decode_range
decode-IsPlain p nonce ticket input h valid nonzero =
    let no_resume : 54 + length ticket + 0 ≡ 54 + length ticket = omega arith in
    let long : ltb (54 + length ticket) 54 ≡ false = ground arith in
    rw
      (
        h.magic_field,
        h.protocol_field,
        h.nonce_field,
        h.length_field,
        h.whole,
        long,
        valid,
        nonzero,
        no_resume,
        ==_refl (54 + length ticket),
        h.ticket_field,
      )
      refl

-- A string with the fields of a join with a resume ticket.
record IsResume (p : GameProtocol) (nonce ticket resume input : List ℕ) : Type 0 where
  pub magic_bytes : take 4 input ≡ range_resume_magic
  pub protocol_bytes : read_protocol input ≡ p
  pub nonce_bytes : slice 36 52 input ≡ nonce
  pub length_bytes : from_be (slice 52 54 input) ≡ length ticket
  pub resume_length : from_be (slice 54 56 input) ≡ length resume
  pub whole_length : length input ≡ 56 + length ticket + length resume
  pub ticket_bytes : slice 56 (56 + length ticket) input ≡ ticket
  pub resume_bytes : drop (56 + length ticket) input ≡ resume

decode-IsResume :
    (p : GameProtocol) (nonce ticket resume : List ℕ) (input : List ℕ)
    → IsResume p nonce ticket resume input
    → is_valid p ≡ true
    → is_zero nonce ≡ false
    → (length resume == 0) ≡ false
    → decode_range input
      ≡ ok (record { protocol = p; nonce = nonce; ticket = ticket; resume_ticket = some resume })
unfolding decode_range
decode-IsResume p nonce ticket resume input h valid nonzero resumes =
    let long : ltb (56 + length ticket + length resume) 54 ≡ false = not-short _ _ (omega arith) in
    let longer : ltb (56 + length ticket + length resume) 56 ≡ false =
      not-short _ _ (omega arith) in
    rw
      (
        h.magic_bytes,
        h.protocol_bytes,
        h.nonce_bytes,
        h.length_bytes,
        h.resume_length,
        h.whole_length,
        long,
        longer,
        valid,
        nonzero,
        resumes,
        ==_refl (56 + length ticket + length resume),
        h.ticket_bytes,
        h.resume_bytes,
      )
      refl

pub record InRange (p : GameProtocol) : Type 0 where
  pub id_range : p.protocol_id < 2 ^ 64
  pub min_range : p.min_version < 2 ^ 32
  pub max_range : p.max_version < 2 ^ 32
  pub build_range : p.build_id < 2 ^ 64
  pub capability_range : p.capabilities < 2 ^ 64

read_protocol-fields :
    (p : GameProtocol) (a b c d : ℕ) (rest : List ℕ)
    → InRange p
    → read_protocol (a ∷ b ∷ c ∷ d ∷ fields p rest) ≡ p
unfolding read_protocol
read_protocol-fields p a b c d rest r =
    rw
      (
        from_be-to_be 8 p.protocol_id r.id_range,
        from_be-to_be 4 p.min_version r.min_range,
        from_be-to_be 4 p.max_version r.max_range,
        from_be-to_be 8 p.build_id r.build_range,
        from_be-to_be 8 p.capabilities r.capability_range,
      )
      refl

module _ (p : GameProtocol) (nonce ticket : List ℕ) (r : InRange p) (sixteen : length nonce ≡ 16)
    (short : length ticket < 65536) where
  written-IsPlain :
      IsPlain
        (record { protocol = p; nonce = nonce; ticket = ticket; resume_ticket = none })
        (range_magic ++ fields p (nonce ++ (to_be 2 (length ticket) ++ ticket)))
  written-IsPlain =
      let rest = to_be 2 (length ticket) ++ ticket in
      let cut : 54 + length ticket - 54 ≡ length ticket = omega arith in
      record {
        magic_field = refl;
        protocol_field = read_protocol-fields p 82 71 86 52 (nonce ++ rest) r;
        nonce_field = take-prefix 16 nonce rest sixteen;
        length_field =
            ap (λ xs. from_be (take 2 xs)) (drop-prefix 16 0 nonce rest sixteen)
            ∙ from_be-to_be 2 (length ticket) short;
        whole = omega (arith, length-append nonce rest);
        ticket_field =
            ap (take (54 + length ticket - 54)) (drop-prefix 16 2 nonce rest sixteen)
            ∙ ap (λ n. take n ticket) cut
            ∙ take-length ticket;
      }

  module _ (resume : List ℕ) (brief : length resume < 65536) where
    written-IsResume : IsResume p nonce ticket resume (
        range_resume_magic
        ++ fields p
            (nonce ++ (to_be 2 (length ticket) ++ (to_be 2 (length resume) ++ (ticket ++ resume)))))
    written-IsResume =
        let rest = to_be 2 (length ticket) ++ (to_be 2 (length resume) ++ (ticket ++ resume)) in
        let cut : 56 + length ticket - 56 ≡ length ticket = omega arith in
        let all : length ticket + 0 ≡ length ticket = omega arith in
        record {
          magic_bytes = refl;
          protocol_bytes = read_protocol-fields p 82 71 82 52 (nonce ++ rest) r;
          nonce_bytes = take-prefix 16 nonce rest sixteen;
          length_bytes =
              ap (λ xs. from_be (take 2 xs)) (drop-prefix 16 0 nonce rest sixteen)
              ∙ from_be-to_be 2 (length ticket) short;
          resume_length =
              ap (λ xs. from_be (take 2 xs)) (drop-prefix 16 2 nonce rest sixteen)
              ∙ from_be-to_be 2 (length resume) brief;
          whole_length = omega (arith, length-append nonce rest, length-append ticket resume);
          ticket_bytes =
              ap (take (56 + length ticket - 56)) (drop-prefix 16 4 nonce rest sixteen)
              ∙ ap (λ n. take n (ticket ++ resume)) cut
              ∙ take-length_append ticket resume;
          resume_bytes =
              sym (drop-drop 56 (length ticket) (range_resume_magic ++ fields p (nonce ++ rest)))
              ∙ ap (drop (length ticket)) (drop-prefix 16 4 nonce rest sixteen)
              ∙ ap (λ n. drop n (ticket ++ resume)) (sym all)
              ∙ drop-prefix (length ticket) 0 ticket resume refl;
        }

abbrev pub Nonempty : Option (List ℕ) → Type 0
Nonempty none = Unit
Nonempty (some resume) = (length resume == 0) ≡ false

-- What `encode_range_inner` has checked when it gives a string.
record Encoded (r : RangeJoinRequest) (wire : List ℕ) : Type 0 where
  pub is_written : wire ≡ written r
  pub valid : is_valid r.protocol ≡ true
  pub nonzero : is_zero r.nonce ≡ false
  pub short : length r.ticket < 65536
  pub brief : too_long r.resume_ticket ≡ false

unrejected : (b : Bool) (code : ErrorCode) {u : Unit {0}} → reject b code ≡ ok u → b ≡ false
unrejected true code e = absurd cc
unrejected false code e = refl

ok_inj : {a b : List ℕ} → ok a ≡ ok b → a ≡ b
ok_inj e = cc

valid-nonzero : (a b : Bool) → (not a || b) ≡ false → (a ≡ true) × (b ≡ false)
valid-nonzero a b h = ground arith

short-brief : (n : ℕ) (b c : Bool) → (ltb 65_535 n || b || c) ≡ false → (n < 65536) × (b ≡ false)
short-brief n b c h = ground arith

encode-Encoded :
    (r : RangeJoinRequest) (m : ℕ) {wire : List ℕ}
    → encode_range_inner r m ≡ ok wire
    → Encoded r wire
unfolding encode_range_inner
encode-Encoded r m e =
    let invalid = not (is_valid r.protocol) || is_zero r.nonce in
    let header = if is_some r.resume_ticket then 56 else 54 in
    let (u, e1, first) = chain_ok _ (reject invalid invalid_argument) e in
    let (with_ticket, e2, second) =
      chain_ok _ (ok_or (checked_add header (length r.ticket)) message_too_large) e1 in
    let (total, e3, third) =
      chain_ok _ (ok_or (checked_add with_ticket (len_or_zero r.resume_ticket)) message_too_large)
        e2 in
    let long = ltb 65_535 (length r.ticket) || too_long r.resume_ticket || ltb m total in
    let (v, e4, fourth) = chain_ok _ (reject long message_too_large) e3 in
    let checks =
      valid-nonzero (is_valid r.protocol) (is_zero r.nonce) (unrejected invalid _ first) in
    let sizes =
      short-brief (length r.ticket) (too_long r.resume_ticket) (ltb m total)
        (unrejected long _ fourth) in
    record {
      is_written = sym (ok_inj e4);
      valid = checks.0;
      nonzero = checks.1;
      short = sizes.0;
      brief = sizes.1;
    }

abbrev pub request : GameProtocol → List ℕ → List ℕ → Option (List ℕ) → RangeJoinRequest
request p nonce ticket resume_ticket = record {
  protocol = p;
  nonce = nonce;
  ticket = ticket;
  resume_ticket = resume_ticket;
}

decode-written :
    (p : GameProtocol) (nonce ticket : List ℕ) (resume_ticket : Option (List ℕ))
    → InRange p
    → length nonce ≡ 16
    → Nonempty resume_ticket
    → let r = request p nonce ticket resume_ticket in
      (wire : List ℕ) → Encoded r wire → decode_range (written r) ≡ ok r
decode-written p nonce ticket none range sixteen some_bytes wire e =
    decode-IsPlain p nonce ticket _ (written-IsPlain p nonce ticket range sixteen e.short) e.valid
      e.nonzero
decode-written p nonce ticket (some resume) range sixteen some_bytes wire e =
    let brief : length resume < 65536 = let b = e.brief in ground (arith, b) in
    decode-IsResume p nonce ticket resume _
      (written-IsResume p nonce ticket range sixteen e.short resume brief) e.valid e.nonzero
      some_bytes

-- A join request that was encoded, with a nonce of sixteen bytes and no empty resume ticket, is decoded to
-- itself.
pub decode-encode_range :
    (p : GameProtocol) (nonce ticket : List ℕ) (resume_ticket : Option (List ℕ)) (maximum_len : ℕ)
    {wire : List ℕ}
    → InRange p
    → length nonce ≡ 16
    → Nonempty resume_ticket
    → encode_range_inner (request p nonce ticket resume_ticket) maximum_len ≡ ok wire
    → decode_range wire ≡ ok (request p nonce ticket resume_ticket)
decode-encode_range p nonce ticket resume_ticket m {wire} range sixteen some_bytes e =
    let encoded = encode-Encoded (request p nonce ticket resume_ticket) m e in
    ap decode_range encoded.is_written
    ∙ decode-written p nonce ticket resume_ticket range sixteen some_bytes wire encoded
