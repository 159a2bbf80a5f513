-- ===== src/Rpc/Client/Join.antt =====
-- g_rpc/client.rs: joining the network.
use kademlia_blockchain_auct.Prelude.{ℕ, zero, suc, String, Bool, ◌==◌, if◌then◌else◌}
use kademlia_blockchain_auct.Prelude.Result.{Result, ok, err, ok_or}
use kademlia_blockchain_auct.Prelude.Exec.{pure, lift, attempt, ◌>>=◌}
use kademlia_blockchain_auct.Crypto.{proof_of_work}
use kademlia_blockchain_auct.Peer.{NodeInfo}
use kademlia_blockchain_auct.Node.{Node}
use kademlia_blockchain_auct.Rpc.Message.{Libraries}
use kademlia_blockchain_auct.Rpc.Client.{World, Client, ClientError, process_exit, out_of_fuel}
use kademlia_blockchain_auct.Rpc.Client.Calls.{bootstrap, challenge_resolution}
use kademlia_blockchain_auct.Rpc.Client.Publish.{node_of, insert_node}
use kademlia_blockchain_auct.Rpc.Client.Find.{iterative_find_node}

-- `work` is the fuel of a proof of work, `search` that of the search for nodes.
module _ (l : Libraries) {N : Type 0} (w : World N) (work search : ℕ) where
  unfoldable pub welcome : Bool → NodeInfo → Client N (Unit {0})
  welcome discover_peers bootstrap_node_info = do
    inserted ← insert_node l w bootstrap_node_info
    node ← node_of
    if discover_peers then iterative_find_node l w search node.node_info.id else pure tt

  -- An attempt after the reply to the solution; `retry` is the rest of the attempts.
  unfoldable pub after_response :
      Bool → Client N (Unit {0}) → Result ClientError (Bool × NodeInfo) → Client N (Unit {0})
  after_response discover_peers retry (err e) = retry
  after_response discover_peers retry (ok (accepted, bootstrap_node_info)) =
      if accepted then welcome discover_peers bootstrap_node_info else retry

  -- An attempt after the reply to the bootstrap request.
  unfoldable pub after_challenge :
      Bool → Node → Client N (Unit {0}) → Result ClientError (String × ℕ) → Client N (Unit {0})
  after_challenge discover_peers node retry (err e) = retry
  after_challenge discover_peers node retry (ok (hash, difficulty)) = do
    solution ← lift (ok_or out_of_fuel (proof_of_work l.crates work hash difficulty))
    response ← attempt (
        challenge_resolution l w.network node.config.bootstrap_peer_ip
          node.config.bootstrap_peer_port solution)
    after_response discover_peers retry response

  -- The attempts that are left.
  unfoldable pub try_join : ℕ → Bool → Client N (Unit {0})
  try_join zero discover_peers = lift (err process_exit)
  try_join (suc attempts) discover_peers = do
    node ← node_of
    challenge ←
        attempt
          (bootstrap l w.network node.config.bootstrap_peer_ip node.config.bootstrap_peer_port)
    after_challenge discover_peers node (try_join attempts discover_peers) challenge

  unfoldable pub join_network : Bool → Client N (Unit {0})
  join_network discover_peers = do
    node ← node_of
    if node.node_info.port == node.config.bootstrap_peer_port
        then pure tt
        else try_join node.config.n_max_retries discover_peers
