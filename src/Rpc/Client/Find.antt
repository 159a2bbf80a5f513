-- ===== src/Rpc/Client/Find.antt =====
-- g_rpc/client.rs: the two searches through the network. Each round of their loops takes one unit of
-- fuel.
use kademlia_blockchain_auct.Prelude.{
  ℕ, zero, suc, ◌<>◌, show_u64, str_eq, String, List, [], ◌∷◌, ◌++◌, Option, some, none, not, any,
  filter, if◌then◌else◌,
}
use kademlia_blockchain_auct.Prelude.Sort.{sort_by_key}
use kademlia_blockchain_auct.Prelude.Result.{ok, err, map_err, ok_or, map_m}
use kademlia_blockchain_auct.Prelude.Exec.{pure, lift, ask, attempt, ◌>>=◌}
use kademlia_blockchain_auct.Address.{Address, address_eq, distance}
use kademlia_blockchain_auct.Peer.{NodeInfo, try_from}
use kademlia_blockchain_auct.Routing.Closest.{get_k_closest_nodes}
use kademlia_blockchain_auct.Auction.{Auction}
use kademlia_blockchain_auct.Auction.Message.{try_from_message}
use kademlia_blockchain_auct.Node.{Node, find_auction}
use kademlia_blockchain_auct.Rpc.Message.{Libraries, FindValueResult, found_value, closest}
use kademlia_blockchain_auct.Rpc.Call.{invalid_node}
use kademlia_blockchain_auct.Rpc.Client.{
  World, Client, locally, call_failed, undecodable_value, invalid_auction, out_of_fuel,
}
use kademlia_blockchain_auct.Rpc.Client.Calls.{find_value, find_node}
use kademlia_blockchain_auct.Rpc.Client.Publish.{node_of, insert_node}

-- `format!("{}:{}", node.ip, node.port)`
unfoldable pub query_key : NodeInfo → String
query_key node = node.ip <> ":" <> show_u64 node.port

-- What an answer to `find_value` leads to.
pub data Answer : Type 0 where
  auction_found : Auction → Answer
  ask_also : List NodeInfo → Answer

module _ (l : Libraries) {N : Type 0} (w : World N) where
  unfoldable pub read_answer : Node → Option FindValueResult → Client N Answer
  read_answer node none = pure (ask_also [])
  read_answer node (some (found_value value)) = do
    proto ← lift (ok_or undecodable_value (l.wires.auction.decode value))
    auction ← lift (map_err invalid_auction (try_from_message l.crates proto))
    pure (auction_found auction)
  read_answer node (some (closest nodes)) = do
    found ← lift (map_err (λ e. call_failed (invalid_node e)) (map_m (try_from l.crates) nodes))
    pure (ask_also (filter (λ n. not (address_eq n.id node.node_info.id)) found))

  unfoldable pub query : Address → NodeInfo → Client N Answer
  query key node_info = do
    response ← find_value l w.network node_info.ip node_info.port key
    node ← node_of
    read_answer node response.result

  -- The loop over `nodes_to_query`, with the set `queried`. It has no bound in the code: `out_of_fuel`
  -- is no result of it, but the place where the model stops looking.
  unfoldable pub query_each : ℕ → Address → List NodeInfo → List String → Client N (Option Auction)
  query_each zero key nodes_to_query queried = lift (err out_of_fuel)
  query_each (suc fuel) key [] queried = pure none
  query_each (suc fuel) key (node ∷ rest) queried =
      if any (str_eq (query_key node)) queried
      then query_each fuel key rest queried
      else query key node >>= (λ answer. elim answer [
        | auction_found auction ↦ pure (some auction)
        | ask_also nodes ↦ query_each fuel key (rest ++ nodes) (query_key node ∷ queried)
      ])

  -- What follows the lookup at home.
  unfoldable pub search_from : ℕ → Address → Node → Option Auction → Client N (Option Auction)
  search_from fuel key node (some auction) = pure (some auction)
  search_from fuel key node none =
      let first : NodeInfo = record {
        id = key;
        ip = node.config.bootstrap_peer_ip;
        port = node.config.bootstrap_peer_port;
      } in
      query_each fuel key (first ∷ []) []

  unfoldable pub find_auction_in_network : ℕ → Address → Client N (Option Auction)
  find_auction_in_network fuel key = do
    here ← locally (λ n s. (find_auction key s.node, s))
    node ← node_of
    search_from fuel key node here

  -- The loop over the nodes of one answer of `node`: the new ends of `shortlist` and `found_nodes`.
  unfoldable pub add_nodes :
      NodeInfo
      → List Address
      → List NodeInfo
      → List NodeInfo
      → List NodeInfo
      → Client N (List NodeInfo × List NodeInfo)
  add_nodes node queried [] shortlist found_nodes = pure (shortlist, found_nodes)
  add_nodes node queried (new_node ∷ rest) shortlist found_nodes = do
    self ← node_of
    if any (address_eq new_node.id) queried
        then add_nodes node queried rest shortlist found_nodes
        else if address_eq new_node.id self.node_info.id
        then add_nodes node queried rest shortlist found_nodes
        else if any (λ n. address_eq n.id node.id) found_nodes
        then add_nodes node queried rest (shortlist ++ new_node ∷ []) found_nodes
        else insert_node l w new_node >>= (λ inserted.
          add_nodes node queried rest (shortlist ++ new_node ∷ []) (found_nodes ++ new_node ∷ []))

  -- The loop over `shortlist`, with the set `queried`.
  unfoldable pub visit_each :
      ℕ → Address → List NodeInfo → List Address → List NodeInfo → Client N (Unit {0})
  visit_each zero target_id shortlist queried found_nodes = lift (err out_of_fuel)
  visit_each (suc fuel) target_id [] queried found_nodes = pure tt
  visit_each (suc fuel) target_id (node ∷ rest) queried found_nodes =
      if any (address_eq node.id) queried
      then visit_each fuel target_id rest queried found_nodes
      else attempt (find_node l w.network node.ip node.port target_id) >>= (λ result. elim result [
        | err e ↦ visit_each fuel target_id rest (node.id ∷ queried) found_nodes
        | ok new_nodes ↦ add_nodes node (node.id ∷ queried) new_nodes rest found_nodes >>= (λ lists.
            visit_each fuel target_id
              (sort_by_key (λ (n : NodeInfo). distance l.crates n.id target_id) lists.0)
              (node.id ∷ queried) lists.1)
      ])

  unfoldable pub iterative_find_node : ℕ → Address → Client N (Unit {0})
  iterative_find_node fuel target_id = do
    closest_nodes ← ask (λ s. get_k_closest_nodes l.crates s.state.node.routing_table target_id [])
    visit_each fuel target_id closest_nodes [] []
