-- ===== src/Peer.antt =====
-- The identity of a node: `NodeInfo` of node.rs, and the protobuf message `NodeInformation` that
-- carries it.
use kademlia_blockchain_auct.Prelude.{ℕ, String, ◌≡◌, sym}
use kademlia_blockchain_auct.Prelude.Result.{
  Result, ok, map_err, ◌>>=◌, bind-ok, map_err-ok, ok-injective,
}
use kademlia_blockchain_auct.Crates.{Crates, CratesLaws}
use kademlia_blockchain_auct.Address.{Address, AddressError, IsAddress, from_str, to_string}
use kademlia_blockchain_auct.Address.Text.{from_str-to_string, from_str-IsAddress}

pub record NodeInfo : Type 0 where
  pub id : Address
  pub ip : String
  pub port : ℕ

-- proto/kademlia.proto
pub record NodeInformation : Type 0 where
  pub id : String
  pub ip : String
  pub port : ℕ

-- `anyhow!("Invalid hex ID in response: {}", e)`
pub data PeerError : Type 0 where
  invalid_hex_id : AddressError → PeerError

module _ (c : Crates) where
  -- `TryFrom<&NodeInformation> for NodeInfo`
  unfoldable pub try_from : NodeInformation → Result PeerError NodeInfo
  try_from node = do
    id ← map_err invalid_hex_id (from_str c node.id)
    ok (record { id = id; ip = node.ip; port = node.port })

  -- `From<&NodeInfo> for NodeInformation`
  unfoldable pub to_information : NodeInfo → NodeInformation
  to_information node = record { id = to_string c node.id; ip = node.ip; port = node.port }

  -- A peer with a valid address is read back from its message.
  pub try_from-to_information :
      CratesLaws c → (n : NodeInfo) → IsAddress n.id → try_from (to_information n) ≡ ok n
  unfolding try_from to_information
  try_from-to_information laws n h = rw (from_str-to_string c laws n.id h)

  -- A peer that is read from a message has a valid address.
  pub try_from-IsAddress :
      CratesLaws c → (p : NodeInformation) (n : NodeInfo) → try_from p ≡ ok n → IsAddress n.id
  unfolding try_from
  try_from-IsAddress laws p n e =
      let (id, read, e1) = bind-ok (map_err invalid_hex_id (from_str c p.id)) _ n e in
      rw (sym (ok-injective {E = PeerError} _ n e1))
        (from_str-IsAddress c laws p.id id (map_err-ok invalid_hex_id _ id read))
