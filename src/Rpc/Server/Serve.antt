-- ===== src/Rpc/Server/Serve.antt =====
-- g_rpc/server.rs: the server at work, any requests one after another.
use kademlia_blockchain_auct.Prelude.{ℕ, List, [], ◌∷◌}
use kademlia_blockchain_auct.Prelude.Int.{ℤ}
use kademlia_blockchain_auct.Prelude.Sync.{Outcome, done, panic}
use kademlia_blockchain_auct.Prelude.Result.{Result}
use kademlia_blockchain_auct.Signed.{AuthenticatedMessage}
use kademlia_blockchain_auct.Rpc.Message.{Libraries}
use kademlia_blockchain_auct.Rpc.Call.{
  Network, Method, to_ping, to_store, to_find_node, to_find_value, to_bootstrap,
  to_challenge_resolution,
}
use kademlia_blockchain_auct.Rpc.Server.{SKademliaServer, Handler, HandlerError}
use kademlia_blockchain_auct.Rpc.Server.Handshake.{ping, bootstrap, challenge_resolution}
use kademlia_blockchain_auct.Rpc.Server.Lookup.{find_node, find_value, store}

-- A request, with what its handler reads from the clock and the random numbers.
pub record Request : Type 0 where
  pub method : Method
  pub message : AuthenticatedMessage
  pub now : ℤ
  pub challenge_hash : ℕ
  pub clock : ℕ → ℤ

module _ (l : Libraries) {N : Type 0} (network : Network N) where
  -- The handler of a method.
  unfoldable pub handler : Method → Request → Handler N AuthenticatedMessage
  handler to_ping r = ping l r.message
  handler to_store r = store l network r.clock r.message
  handler to_find_node r = find_node l r.now r.message
  handler to_find_value r = find_value l r.now r.message
  handler to_bootstrap r = bootstrap l r.challenge_hash r.now r.message
  handler to_challenge_resolution r = challenge_resolution l r.now r.message

  unfoldable pub handle : Request → Handler N AuthenticatedMessage
  unfolding handler
  handle r = handler r.method r

  -- The replies to the requests, in order, and the server that is left.
  unfoldable pub serve :
      List Request
      → SKademliaServer N
      → Outcome (List (Result HandlerError AuthenticatedMessage) × SKademliaServer N)
  unfolding handle
  serve [] s = done ([], s)
  serve (r ∷ rest) s = elim (handle r s) [
    | panic ↦ panic
    | done (answer, s1) ↦ elim (serve rest s1) [
      | panic ↦ panic
      | done (answers, s2) ↦ done (answer ∷ answers, s2)
    ]
  ]
