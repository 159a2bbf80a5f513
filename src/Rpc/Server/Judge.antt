-- ===== src/Rpc/Server/Judge.antt =====
-- g_rpc/server.rs: what a solution of a challenge is.
use mathlib.Core.Path.{subst}
use native.Mathlib.Decide.{ℕ_discrete}
use native.Mathlib.Nat.{pow-le-pow_right}
use kademlia_blockchain_auct.Prelude.{
  ℕ, ◌-◌, ◌^◌, ◌≤◌, ◌<◌, ◌≡◌, ◌↔◌, sym, ◌∙◌, String, ◌<>◌, show_u64, as_bytes, false, true, leb, ap,
  arith, if_true, if_false, Bool-cases, inl, inr,
}
use kademlia_blockchain_auct.Prelude.BigEndian.{big_endian, big_endian-lt}
use kademlia_blockchain_auct.Prelude.Int.{ℤ, ◌≤ℤ◌, ltb_ℤ, ltb_ℤ→lt}
use kademlia_blockchain_auct.Crates.{Crates, CratesLaws, IsU256}
use kademlia_blockchain_auct.Crypto.{hash_data}
use kademlia_blockchain_auct.Rpc.Server.{Challenge}
use kademlia_blockchain_auct.Rpc.Server.Handshake.{accepts}

module _ (c : Crates) where
  -- A solution in time: the hash of the challenge's decimal text followed by the nonce begins with as
  -- many zero bits as the difficulty says, that is, it is below 2 ^ (256 - difficulty).
  pub record IsSolution (now : ℤ) (challenge : Challenge) (nonce : ℕ) : Type 0 where
    pub in_time : now ≤ℤ challenge.expiration
    pub possible : challenge.difficulty ≤ 256
    pub small :
        hash_data c (c.u256_to_string challenge.hash <> show_u64 nonce)
        < 2 ^ (256 - challenge.difficulty)

  module _ (laws : CratesLaws c) where
    hash_data-IsU256 : (input : String) → IsU256 (hash_data c input)
    unfolding hash_data
    hash_data-IsU256 input =
        let h = laws.sha256_law (as_bytes input) in
        rw (laws.big_endian_law (c.sha256 (as_bytes input)) h.0 h.1) (
          subst (λ n. big_endian (c.sha256 (as_bytes input)) < 256 ^ n) h.0
            (big_endian-lt (c.sha256 (as_bytes input)) h.1))

    pow_mono : (i j : ℕ) → i ≤ j → 2 ^ i ≤ 2 ^ j
    pow_mono i j le = pow-le-pow_right (omega arith) le

    -- The number of leading zero bits bounds the number, and the other way round.
    leading_zeros_iff :
        (v d : ℕ) → IsU256 v → (d ≤ c.leading_zeros v) ↔ ((d ≤ 256) × (v < 2 ^ (256 - d)))
    leading_zeros_iff v d small = elim (ℕ_discrete v 0) [
      | yes zero_v ↦
          let all : c.leading_zeros v ≡ 256 = ap c.leading_zeros zero_v ∙ laws.leading_zeros_zero in
          let positive : 2 ^ 0 ≤ 2 ^ (256 - d) = pow_mono 0 (256 - d) (omega arith) in
          (λ h. (omega arith, omega arith), λ h. omega arith)
      | no nonzero ↦
          let (at_most, low, high) = laws.leading_zeros_law v (omega arith) small in
          (
            λ h.
                let wider : 2 ^ (256 - c.leading_zeros v) ≤ 2 ^ (256 - d) =
                  pow_mono (256 - c.leading_zeros v) (256 - d) (omega arith) in
                (omega arith, omega arith),
            λ h. elim (Bool-cases (leb d (c.leading_zeros v))) [
              | inl le ↦ ground arith
              | inr gt ↦
                  let above : c.leading_zeros v < d = ground arith in
                  let narrower : 2 ^ (256 - d) ≤ 2 ^ (255 - c.leading_zeros v) =
                    pow_mono (256 - d) (255 - c.leading_zeros v) (omega arith) in
                  absurd (omega arith)
            ],
          )
    ]

    -- The test of the code accepts the solutions and nothing else.
    pub accepts_iff :
        (now : ℤ) (challenge : Challenge) (nonce : ℕ)
        → (accepts c now challenge nonce ≡ true) ↔ IsSolution now challenge nonce
    unfolding accepts
    accepts_iff now challenge nonce =
        let text = c.u256_to_string challenge.hash <> show_u64 nonce in
        let (to, from) =
          leading_zeros_iff (hash_data c text) challenge.difficulty (hash_data-IsU256 text) in
        elim (Bool-cases (ltb_ℤ challenge.expiration now)) [
          | inl late ↦ (
            λ h. absurd (clash (sym (if_true _ _ late) ∙ h)),
            λ good.
                let in_time = good.in_time in
                let after = ltb_ℤ→lt challenge.expiration now late in absurd (omega arith),
          )
          | inr fine ↦ (
            λ h.
                let bits = to (leb-true (sym (if_false _ _ fine) ∙ h)) in
                record { in_time = not_late fine; possible = bits.0; small = bits.1 },
            λ good. if_false _ _ fine ∙ true-leb (from (good.possible, good.small)),
          )
        ]
      where
        clash : false ≡ true → ⊥
        clash e = cc

        leb-true : {a b : ℕ} → leb a b ≡ true → a ≤ b
        leb-true h = ground arith

        true-leb : {a b : ℕ} → a ≤ b → leb a b ≡ true
        true-leb h = ground arith

        not_late : ltb_ℤ challenge.expiration now ≡ false → now ≤ℤ challenge.expiration
        not_late h = ground arith
