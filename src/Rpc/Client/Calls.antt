-- ===== src/Rpc/Client/Calls.antt =====
-- g_rpc/client.rs: the remote calls of the client.
use kademlia_blockchain_auct.Prelude.{ℕ, String, List, some, Bool}
use kademlia_blockchain_auct.Prelude.Result.{map_err, ok_or, map_m}
use kademlia_blockchain_auct.Prelude.Exec.{pure, lift, ◌>>=◌}
use kademlia_blockchain_auct.Address.{Address, to_string}
use kademlia_blockchain_auct.Peer.{NodeInfo, try_from}
use kademlia_blockchain_auct.Auction.{Auction}
use kademlia_blockchain_auct.Auction.Message.{to_message}
use kademlia_blockchain_auct.Rpc.Message.{Libraries, FindValueResponse}
use kademlia_blockchain_auct.Rpc.Call.{
  Network, to_ping, to_store, to_find_node, to_find_value, to_bootstrap, to_challenge_resolution,
  missing_sender, invalid_node, call,
}
use kademlia_blockchain_auct.Rpc.Client.{Client, call_failed, remote}

module _ (l : Libraries) {N : Type 0} (network : Network N) (node_ip : String) (node_port : ℕ) where
  unfoldable pub ping : Client N (Unit {0})
  ping = do
    answer ← remote (λ node n.
        call l network l.wires.ping_request l.wires.ping_response to_ping node node_ip node_port
          (record {}) n)
    pure tt

  unfoldable pub find_value : Address → Client N FindValueResponse
  find_value key = do
    answer ← remote (λ node n.
        call l network l.wires.find_value_request l.wires.find_value_response to_find_value node
          node_ip node_port (record { key = to_string l.crates key }) n)
    pure answer.0

  unfoldable pub bootstrap : Client N (String × ℕ)
  bootstrap = do
    answer ← remote (λ node n.
        call l network l.wires.bootstrap_request l.wires.bootstrap_response to_bootstrap node
          node_ip node_port (record {}) n)
    pure (answer.0.hash, answer.0.difficulty)

  unfoldable pub challenge_resolution : ℕ → Client N (Bool × NodeInfo)
  challenge_resolution nonce = do
    answer ← remote (λ node n.
        call l network l.wires.challenge_resolution_request l.wires.challenge_resolution_response
          to_challenge_resolution node node_ip node_port (record { nonce = nonce }) n)
    sender ← lift (ok_or (call_failed missing_sender) answer.1.sender)
    node_info ← lift (map_err (λ e. call_failed (invalid_node e)) (try_from l.crates sender))
    pure (answer.0.accepted, node_info)

  unfoldable pub find_node : Address → Client N (List NodeInfo)
  find_node target_id = do
    answer ← remote (λ node n.
        call l network l.wires.find_node_request l.wires.find_node_response to_find_node node
          node_ip node_port (record { target_id = to_string l.crates target_id }) n)
    lift (
        map_err (λ e. call_failed (invalid_node e))
          (map_m (try_from l.crates) answer.0.closest_nodes))

  unfoldable pub send_store_to_node : Auction → Client N (Unit {0})
  send_store_to_node auction = do
    answer ← remote (λ node n.
        call l network l.wires.store_request l.wires.store_response to_store node node_ip node_port
          (record { auction = some (to_message l.crates auction) }) n)
    pure tt
