-- ===== src/Game/Join/Selection.antt =====
-- The version that the server of crates/rnet-game/src/join.rs selects.
use rnetlib.Prelude.{
  ℕ, ◌≤◌, ◌<◌, ◌≡◌, arith, Bool, true, false, not, ◌||◌, none, some, leb, ◌==◌, if◌then◌else◌, max,
  min, inl, inr, Bool-cases,
}
use rnetlib.Game.Join.{GameProtocol, is_valid, select_version}

abbrev pub Supports : GameProtocol → ℕ → Type 0
Supports p version = (p.min_version ≤ version) × (version ≤ p.max_version)

-- Both peers are valid, speak the same protocol and support the version.
pub record Common (client server : GameProtocol) (version : ℕ) : Type 0 where
  pub client_valid : is_valid client ≡ true
  pub server_valid : is_valid server ≡ true
  pub same_protocol : client.protocol_id ≡ server.protocol_id
  pub client_supports : Supports client version
  pub server_supports : Supports server version

abbrev pub refused : GameProtocol → GameProtocol → Bool
refused client server =
    not (is_valid client) || not (is_valid server) || not (client.protocol_id == server.protocol_id)

not-refused :
    (c s e : Bool) → (not c || not s || not e) ≡ false → (c ≡ true) × (s ≡ true) × (e ≡ true)
not-refused c s e h = ground arith

refused-not : (c s e : Bool) → (not c || not s || not e) ≡ true → c ≡ true → s ≡ true → e ≡ false
refused-not c s e h hc hs = ground arith

selected :
    (lower upper version : ℕ)
    → (if leb lower upper then some upper else none) ≡ some version
    → (lower ≤ version) × (upper ≡ version)
selected lower upper version h = ground arith

unselected :
    (lower upper : ℕ) → (if leb lower upper then some upper else none) ≡ none → upper < lower
unselected lower upper h = ground arith

-- A selected version is common to both peers and no higher one is; none is selected only if none is common.
pub select_version_lem :
    (client server : GameProtocol)
    → ((version : ℕ)
        → select_version client server ≡ some version
        → Common client server version × ((v : ℕ) → Common client server v → v ≤ version))
      × (select_version client server ≡ none → (v : ℕ) → ¬ Common client server v)
unfolding select_version
select_version_lem client server = elim (Bool-cases (refused client server)) [
  | inl bars ↦ (
    λ version h. let h' = rw bars at h in absurd cc,
    λ h v common.
        let other =
          refused-not (is_valid client) (is_valid server) (client.protocol_id == server.protocol_id)
            bars common.client_valid common.server_valid in
        let same = common.same_protocol in ground (arith, other, same),
  )
  | inr passes ↦
      let valid =
        not-refused (is_valid client) (is_valid server) (client.protocol_id == server.protocol_id)
          passes in
      let lower = max client.min_version server.min_version in
      let upper = min client.max_version server.max_version in
      let same : client.protocol_id ≡ server.protocol_id = ground (arith, valid) in
      (
        λ version h.
            let picks = selected lower upper version (rw passes at h) in
            (
              record {
                client_valid = valid.0;
                server_valid = valid.1;
                same_protocol = same;
                client_supports = (omega (arith, picks), omega (arith, picks));
                server_supports = (omega (arith, picks), omega (arith, picks));
              },
              λ v common.
                  let c = common.client_supports in
                  let s = common.server_supports in omega (arith, picks, c, s),
            ),
        λ h v common.
            let crossed = unselected lower upper (rw passes at h) in
            let c = common.client_supports in
            let s = common.server_supports in omega (arith, crossed, c, s),
      )
]
