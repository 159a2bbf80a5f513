-- ===== src/Rpc/Client.antt =====
-- g_rpc/client.rs: the state of `SKademliaClient`, and what surrounds it.
pub mod Calls
pub mod Publish
pub mod Find
pub mod Join
pub mod Commands
pub mod Safe
pub mod Unqueried
pub mod Search
pub mod Life
pub mod Discover
pub mod Session
use kademlia_blockchain_auct.Prelude.{ℕ, Bool, ◌<◌, List, [], String, Option, some, none}
use kademlia_blockchain_auct.Prelude.Int.{ℤ}
use kademlia_blockchain_auct.Prelude.Sync.{done}
use kademlia_blockchain_auct.Prelude.Result.{Result, ok, map_err}
use kademlia_blockchain_auct.Prelude.Exec.{Exec}
use kademlia_blockchain_auct.Address.{Address}
use kademlia_blockchain_auct.Auction.{BidError}
use kademlia_blockchain_auct.Auction.Message.{AuctionError}
use kademlia_blockchain_auct.Node.{Node, State, NodeError}
use kademlia_blockchain_auct.Rpc.Call.{Network, CallError}

-- What a client meets: the network, the clock and the random numbers, which use and change `N`.
pub record World (N : Type 0) : Type 0 where
  pub network : Network N
  pub now : N → ℤ × N
  -- A random number below the bound.
  pub draw : ℕ → N → ℕ × N
  -- Whether `+` on a `u64` panics on overflow, as in a debug build, or wraps around.
  pub overflow_checks : Bool
  -- The times at which blocks are made in one call.
  pub clock : N → ℕ → ℤ

-- `node` with its disk; the threads of the server and of the client share it.
pub record SKademliaClient (N : Type 0) : Type 0 where
  pub state : State
  pub net : N

pub data ClientError : Type 0 where
  call_failed : CallError → ClientError
  node_failed : NodeError → ClientError
  bid_failed : BidError → ClientError
  auction_not_found : Address → ClientError
  undecodable_value no_items no_auction : ClientError
  invalid_auction : AuctionError → ClientError
  -- `std::process::exit(1)`
  process_exit : ClientError
  -- The rounds of the model are used up; the code goes on.
  out_of_fuel : ClientError

abbrev pub Client : Type 0 → Type 0 → Type 0
Client N A = Exec (SKademliaClient N) ClientError A

module _ {N : Type 0} where
  unfoldable pub on_net : {A : Type 0} → (N → A × N) → Client N A
  on_net f s = let (a, net) = f s.net in done (ok a, record s { net = net })

  -- A remote call of the node.
  unfoldable pub remote : {A : Type 0} → (Node → N → Result CallError A × N) → Client N A
  remote f s =
      let (r, net) = f s.state.node s.net in done (map_err call_failed r, record s { net = net })

  -- A call on the shared node.
  unfoldable pub locally : {A : Type 0} → (N → State → Result NodeError A × State) → Client N A
  locally f s =
      let (r, state) = f s.net s.state in done (map_err node_failed r, record s { state = state })
