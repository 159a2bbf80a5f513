-- ===== src/Crypto/Work.antt =====
-- utils.rs: `proof_of_work` finds the least nonce that solves the challenge.
use kademlia_blockchain_auct.Prelude.{
  ℕ, zero, suc, ◌+◌, ◌%◌, u64_mod, ap, ◌≤◌, ◌<◌, ◌≡◌, true, false, String, some, arith, inl, inr,
  Bool-cases, if_true, if_false, ◌∙◌,
}
use kademlia_blockchain_auct.Crates.{Crates}
use kademlia_blockchain_auct.Crypto.{solves, proof_of_work_from, proof_of_work}
use native.Mathlib.Decide.{ℕ_discrete}

module _ (c : Crates) (input : String) (difficulty : ℕ) where
  -- The loop from `nonce` stops at the first solution, if there is one within the fuel.
  proof_of_work_from_lem :
      (fuel nonce n : ℕ)
      → nonce ≤ n
      → n < nonce + fuel
      → n < u64_mod
      → solves c input difficulty n ≡ true
      → (least : ℕ) × (proof_of_work_from c fuel input difficulty nonce ≡ some least)
        × (least ≤ n)
        × (solves c input difficulty least ≡ true)
        × ((m : ℕ) → nonce ≤ m → m < least → solves c input difficulty m ≡ false)
  unfolding proof_of_work_from
  proof_of_work_from_lem zero nonce n le lt small h = absurd (omega arith)
  proof_of_work_from_lem (suc fuel) nonce n le lt small h =
      elim (Bool-cases (solves c input difficulty nonce)) [
        | inl e ↦ (nonce, if_true _ _ e, le, e, λ m above below. absurd (omega arith))
        | inr e ↦
            let passed : nonce + 1 ≤ n = ground arith in
            let next : (nonce + 1) % u64_mod ≡ nonce + 1 = omega arith in
            let (least, found, below, good, before) =
              proof_of_work_from_lem fuel (nonce + 1) n passed (omega arith) small h in
            (
              least,
              if_false _ _ e ∙ ap (proof_of_work_from c fuel input difficulty) next ∙ found,
              below,
              good,
              λ m above below. elim (ℕ_discrete m nonce) [
                | yes same ↦ rw same e
                | no ne ↦ before m (ground arith) below
              ],
            )
      ]

  -- If some `u64` nonce solves the challenge, the loop of `proof_of_work` ends, within one round for
  -- each nonce up to that one, and returns the least nonce that solves it.
  pub proof_of_work-least :
      (n fuel : ℕ)
      → solves c input difficulty n ≡ true
      → n < u64_mod
      → n < fuel
      → (least : ℕ) × (proof_of_work c fuel input difficulty ≡ some least)
        × (least ≤ n)
        × (solves c input difficulty least ≡ true)
        × ((m : ℕ) → m < least → solves c input difficulty m ≡ false)
  unfolding proof_of_work
  proof_of_work-least n fuel h small lt =
      let (least, found, le, good, before) =
        proof_of_work_from_lem fuel 0 n (omega arith) (omega arith) small h in
      (least, found, le, good, λ m below. before m (omega arith) below)
