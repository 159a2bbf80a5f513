-- ===== src/Crypto.antt =====
-- utils/crypto_own.rs: `hash_data`; utils.rs: the hex text of a hash, the proof of work and the URL
-- of a node.
pub mod Work
use kademlia_blockchain_auct.Prelude.{
  ℕ, zero, suc, ◌+◌, String, ◌<>◌, as_bytes, show_u64, Option, none, some, Bool, leb, u64_mod, ◌%◌,
  if◌then◌else◌,
}
use kademlia_blockchain_auct.Crates.{Crates}

module _ (c : Crates) where
  unfoldable pub hash_data : String → ℕ
  hash_data input = c.from_big_endian (c.sha256 (as_bytes input))

  unfoldable pub format_as_hex_string : ℕ → String
  format_as_hex_string number = c.format_064x number

  -- The test of one round of the loop.
  unfoldable pub solves : String → ℕ → ℕ → Bool
  unfolding hash_data
  solves input difficulty nonce =
      leb difficulty (c.leading_zeros (hash_data (input <> show_u64 nonce)))

  -- The loop of `proof_of_work` from `nonce`, for at most `fuel` rounds; `none` when they run out. The
  -- nonce is a `u64` that wraps around; with overflow checks the code would panic there instead.
  unfoldable pub proof_of_work_from : ℕ → String → ℕ → ℕ → Option ℕ
  proof_of_work_from zero input difficulty nonce = none
  proof_of_work_from (suc fuel) input difficulty nonce =
      let rest = proof_of_work_from fuel input difficulty ((nonce + 1) % u64_mod) in
      if solves input difficulty nonce then some nonce else rest

  unfoldable pub proof_of_work : ℕ → String → ℕ → Option ℕ
  unfolding proof_of_work_from
  proof_of_work fuel input difficulty = proof_of_work_from fuel input difficulty 0

unfoldable pub generate_url : String → ℕ → String
generate_url node_ip node_port = "http://" <> node_ip <> ":" <> show_u64 node_port
