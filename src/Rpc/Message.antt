-- ===== src/Rpc/Message.antt =====
-- proto/kademlia.proto: the requests and responses. The encoding of each is a parameter.
use kademlia_blockchain_auct.Prelude.{ℕ, String, List, Option, some, Bool, ◌≡◌}
use kademlia_blockchain_auct.Crates.{Crates}
use kademlia_blockchain_auct.Peer.{NodeInformation}
use kademlia_blockchain_auct.Auction.{Auction}
use kademlia_blockchain_auct.Auction.Message.{AuctionMessage}
use kademlia_blockchain_auct.Ledger.{Block}
use kademlia_blockchain_auct.Storage.{Codec}
use kademlia_blockchain_auct.Signed.{Signatures, Wire}

pub record PingRequest : Type 0 where

pub record PingResponse : Type 0 where
  pub message : String

pub record StoreRequest : Type 0 where
  pub auction : Option AuctionMessage

pub record StoreResponse : Type 0 where
  pub message : String

pub record FindNodeRequest : Type 0 where
  pub target_id : String

pub record FindNodeResponse : Type 0 where
  pub closest_nodes : List NodeInformation

pub record FindValueRequest : Type 0 where
  pub key : String

-- The `oneof` of `FindValueResponse`: the bytes of a `FoundValue`, or the nodes of `ClosestNodes`.
pub data FindValueResult : Type 0 where
  found_value : List ℕ → FindValueResult
  closest : List NodeInformation → FindValueResult

pub record FindValueResponse : Type 0 where
  pub result : Option FindValueResult

pub record BootstrapRequest : Type 0 where

pub record BootstrapResponse : Type 0 where
  pub hash : String
  pub difficulty : ℕ

pub record ChallengeResolutionRequest : Type 0 where
  pub nonce : ℕ

pub record ChallengeResolutionResponse : Type 0 where
  pub accepted : Bool

pub record Wires : Type 0 where
  pub ping_request : Wire PingRequest
  pub ping_response : Wire PingResponse
  pub store_request : Wire StoreRequest
  pub store_response : Wire StoreResponse
  pub find_node_request : Wire FindNodeRequest
  pub find_node_response : Wire FindNodeResponse
  pub find_value_request : Wire FindValueRequest
  pub find_value_response : Wire FindValueResponse
  pub bootstrap_request : Wire BootstrapRequest
  pub bootstrap_response : Wire BootstrapResponse
  pub challenge_resolution_request : Wire ChallengeResolutionRequest
  pub challenge_resolution_response : Wire ChallengeResolutionResponse
  pub auction : Wire AuctionMessage

-- The code that the remote calls use and that the program does not implement.
pub record Libraries : Type 0 where
  pub crates : Crates
  pub signatures : Signatures
  pub wires : Wires
  pub auction_codec : Codec Auction
  pub block_codec : Codec Block
  pub block_json : Block → String

-- What was encoded is decoded to the same message.
abbrev pub IsLossless {ℓ} : {A : Type ℓ} → Wire A → Type ℓ
IsLossless {A = A} w = (message : A) → w.decode (w.encode message) ≡ some message
