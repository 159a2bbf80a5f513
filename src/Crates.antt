-- ===== src/Crates.antt =====
-- The crates that the program calls and does not implement: `ethereum_types::U256`, `hex` and
-- `sha2`. A `U256` is represented by the number that it stands for. `Crates` has the functions,
-- `CratesLaws` the documented behaviour that proofs rely on.
use kademlia_blockchain_auct.Prelude.{
  ℕ, ◌-◌, ◌^◌, ◌≤◌, ◌<◌, String, List, Option, some, ◌≡◌, bit_xor, length, All,
}
use kademlia_blockchain_auct.Prelude.BigEndian.{big_endian, IsByte}

pub record Crates : Type 0 where
  -- `U256::from_big_endian`
  pub from_big_endian : List ℕ → ℕ
  -- `^` on `U256`
  pub xor : ℕ → ℕ → ℕ
  -- `U256::leading_zeros`
  pub leading_zeros : ℕ → ℕ
  -- `Display` of a `U256`
  pub u256_to_string : ℕ → String
  -- `format!("{:064x}", _)` of a `U256`
  pub format_064x : ℕ → String
  -- `hex::encode` and `hex::decode`
  pub hex_encode : List ℕ → String
  pub hex_decode : String → Option (List ℕ)
  -- `Sha256` over one `update`, finalised to 32 bytes
  pub sha256 : List ℕ → List ℕ

abbrev pub IsU256 : ℕ → Type 0
IsU256 v = v < 2 ^ 256

abbrev pub IsHash : List ℕ → Type 0
IsHash bs = (length bs ≡ 32) × All IsByte bs

pub record CratesLaws (c : Crates) : Type 0 where
  pub big_endian_law :
      (bs : List ℕ) → length bs ≡ 32 → All IsByte bs → c.from_big_endian bs ≡ big_endian bs
  pub xor_law : (a b : ℕ) → IsU256 a → IsU256 b → c.xor a b ≡ bit_xor a b
  pub leading_zeros_zero : c.leading_zeros 0 ≡ 256
  -- The highest set bit of a number other than zero is bit `255 - leading_zeros`.
  pub leading_zeros_law :
      (v : ℕ)
      → 0 < v
      → IsU256 v
      → (c.leading_zeros v ≤ 255)
        × (2 ^ (255 - c.leading_zeros v) ≤ v)
        × (v < 2 ^ (256 - c.leading_zeros v))
  pub hex_law : (bs : List ℕ) → All IsByte bs → c.hex_decode (c.hex_encode bs) ≡ some bs
  pub hex_empty : c.hex_decode "" ≡ some List.[]
  pub hex_bytes : (s : String) (bs : List ℕ) → c.hex_decode s ≡ some bs → All IsByte bs
  -- Zero-padded lower hex of a number is the hex text of its 32 bytes.
  pub format_law :
      (bs : List ℕ)
      → length bs ≡ 32
      → All IsByte bs
      → c.format_064x (c.from_big_endian bs) ≡ c.hex_encode bs
  pub sha256_law : (bs : List ℕ) → IsHash (c.sha256 bs)
