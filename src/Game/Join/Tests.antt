-- ===== src/Game/Join/Tests.antt =====
-- Joins of crates/rnet-game/src/join.rs.
use rnetlib.Prelude.{ℕ, ◌≤◌, ◌≡◌, refl, arith, none, some, List, [], ◌∷◌, ok, err, invalid_argument}
use rnetlib.Game.Join.{
  GameProtocol, select_version, encode_range_inner, encode_range_resume, decode_range,
}
use rnetlib.Game.Join.Selection.{Common, select_version_lem}
use rnetlib.Game.Join.RoundTrip.{InRange, request, decode-encode_range}

abbrev versions : ℕ → ℕ → GameProtocol
versions min_version max_version = record {
  protocol_id = 9;
  min_version = min_version;
  max_version = max_version;
  build_id = 0;
  capabilities = 3;
}

highest_common : select_version (versions 2 5) (versions 3 7) ≡ some 5
unfolding select_version
highest_common = refl

none_common : select_version (versions 2 5) (versions 6 7) ≡ none
unfolding select_version
none_common = refl

select_version_lem_example :
    ((version : ℕ)
      → select_version (versions 2 5) (versions 3 7) ≡ some version
      → Common (versions 2 5) (versions 3 7) version
        × ((v : ℕ) → Common (versions 2 5) (versions 3 7) v → v ≤ version))
    × (select_version (versions 2 5) (versions 3 7) ≡ none
        → (v : ℕ) → ¬ Common (versions 2 5) (versions 3 7) v)
select_version_lem_example = select_version_lem (versions 2 5) (versions 3 7)

abbrev nonce : List ℕ
nonce = 1 ∷ 0 ∷ 0 ∷ 0 ∷ 0 ∷ 0 ∷ 0 ∷ 0 ∷ 0 ∷ 0 ∷ 0 ∷ 0 ∷ 0 ∷ 0 ∷ 0 ∷ 0 ∷ []

abbrev wire : List ℕ
wire =
    82 ∷ 71 ∷ 82 ∷ 52 ∷ 0 ∷ 0 ∷ 0 ∷ 0 ∷ 0 ∷ 0 ∷ 0 ∷ 9 ∷ 0 ∷ 0 ∷ 0 ∷ 2 ∷ 0 ∷ 0 ∷ 0 ∷ 5 ∷ 0 ∷ 0 ∷ 0
    ∷ 0 ∷ 0 ∷ 0 ∷ 0 ∷ 0 ∷ 0 ∷ 0 ∷ 0 ∷ 0 ∷ 0 ∷ 0 ∷ 0 ∷ 3 ∷ 1 ∷ 0 ∷ 0 ∷ 0 ∷ 0 ∷ 0 ∷ 0 ∷ 0 ∷ 0 ∷ 0 ∷ 0
    ∷ 0 ∷ 0 ∷ 0 ∷ 0 ∷ 0 ∷ 0 ∷ 2 ∷ 0 ∷ 1 ∷ 7 ∷ 8 ∷ 6 ∷ []

encoded :
    encode_range_inner (request (versions 2 5) nonce (7 ∷ 8 ∷ []) (some (6 ∷ []))) 64 ≡ ok wire
unfolding encode_range_inner
encoded = refl

small : InRange (versions 2 5)
small = record {
  id_range = omega arith;
  min_range = omega arith;
  max_range = omega arith;
  build_range = omega arith;
  capability_range = omega arith;
}

decode-encode_range_example :
    decode_range wire ≡ ok (request (versions 2 5) nonce (7 ∷ 8 ∷ []) (some (6 ∷ [])))
decode-encode_range_example =
    decode-encode_range (versions 2 5) nonce (7 ∷ 8 ∷ []) (some (6 ∷ [])) 64 small refl refl encoded

empty_resume_refused :
    encode_range_resume (versions 2 5) nonce (7 ∷ []) [] 64 ≡ err invalid_argument
unfolding encode_range_resume
empty_resume_refused = refl
