-- ===== src/Address/Text.antt =====
-- The hex text of an address, and what parsing accepts.
use kademlia_blockchain_auct.Prelude.{String, ◌≡◌, arith, Option-cases, inl, inr}
use kademlia_blockchain_auct.Prelude.Result.{ok}
use kademlia_blockchain_auct.Crates.{Crates, CratesLaws}
use kademlia_blockchain_auct.Address.{Address, IsAddress, from_str, try_from_string, to_string}

module _ (c : Crates) (laws : CratesLaws c) where
  -- Every address is read back from its text.
  pub from_str-to_string : (a : Address) → IsAddress a → from_str c (to_string c a) ≡ ok a
  unfolding try_from_string to_string
  from_str-to_string a h = ground (arith, laws.hex_law a.bytes)

  -- What the parser accepts is an address.
  pub from_str-IsAddress : (s : String) (a : Address) → from_str c s ≡ ok a → IsAddress a
  unfolding try_from_string
  from_str-IsAddress s a h = elim (Option-cases (c.hex_decode s)) [
    | inl e ↦ ground arith
    | inr (bs, e) ↦ ground (arith, laws.hex_bytes s bs e)
  ]
