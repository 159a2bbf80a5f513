-- ===== src/Rpc/Server/Lookup.antt =====
-- g_rpc/server.rs: `store`, `find_node` and `find_value`.
use kademlia_blockchain_auct.Prelude.{
  ℕ, String, ◌<>◌, List, [], ◌∷◌, none, some, Bool, true, false, not, ◌&&◌, any, str_eq,
  if◌then◌else◌,
}
use kademlia_blockchain_auct.Prelude.Int.{ℤ}
use kademlia_blockchain_auct.Prelude.Sync.{Outcome, done, panic}
use kademlia_blockchain_auct.Prelude.Result.{Result, ok, err, map_err, ok_or}
use kademlia_blockchain_auct.Prelude.Exec.{lift, ask, ◌>>=◌}
use kademlia_blockchain_auct.Address.{Address, from_str, to_string}
use kademlia_blockchain_auct.Peer.{NodeInfo, NodeInformation, to_information}
use kademlia_blockchain_auct.Auction.{Auction}
use kademlia_blockchain_auct.Auction.Message.{try_from_message, to_message}
use kademlia_blockchain_auct.Node.{
  Node, NodeError, store_auction, find_auction, insert_node_to_routing_table,
  find_node_in_routing_table, get_closest_nodes_to_key,
}
use kademlia_blockchain_auct.Signed.{AuthenticatedMessage}
use kademlia_blockchain_auct.Rpc.Message.{Libraries, FindValueResult, found_value, closest}
use kademlia_blockchain_auct.Rpc.Call.{Network, to_store, call}
use kademlia_blockchain_auct.Rpc.Server.{
  SKademliaServer, Handler, HandlerError, missing_auction, invalid_auction, invalid_target,
  invalid_key, auctions_unreadable, receive, reply,
}

abbrev pub or_own : NodeInformation → List NodeInformation → List NodeInformation
or_own own [] = own ∷ []
or_own own (n ∷ nodes) = n ∷ nodes

-- The answer of `find_node`: the node with that id, else the closest nodes, else the node itself.
unfoldable pub nodes_vector : Libraries → Address → Node → Outcome (List NodeInformation)
unfolding find_node_in_routing_table get_closest_nodes_to_key to_information
nodes_vector l node_id node = elim (find_node_in_routing_table l.crates node_id node) [
  | panic ↦ panic
  | done (some found) ↦ done (found ∷ [])
  | done none ↦ elim (get_closest_nodes_to_key l.crates node_id node) [
    | panic ↦ panic
    | done closest_nodes ↦ done (or_own (to_information l.crates node.node_info) closest_nodes)
  ]
]

-- The answer of `find_value`: the auction with that key, else the closest nodes.
unfoldable pub value_or_nodes :
    Libraries → Address → Node → Outcome (Result HandlerError FindValueResult)
unfolding find_auction get_closest_nodes_to_key to_message
value_or_nodes l key node = elim (find_auction key node) [
  | err e ↦ done (err (auctions_unreadable e))
  | ok (some auction) ↦
      done (ok (found_value (l.wires.auction.encode (to_message l.crates auction))))
  | ok none ↦ elim (get_closest_nodes_to_key l.crates key node) [
    | panic ↦ panic
    | done nodes ↦ done (ok (closest nodes))
  ]
]

module _ (l : Libraries) {N : Type 0} where
  -- `self.node.insert_node_to_routing_table(sender)`
  unfoldable pub insert_sender : ℤ → NodeInfo → Handler N (Unit {0})
  unfolding insert_node_to_routing_table
  insert_sender now sender s =
      elim (insert_node_to_routing_table l.crates now sender s.state.node) [
        | panic ↦ panic
        | done node ↦ done (ok tt, record s { state = record s.state { node = node } })
      ]

  unfoldable pub find_node : ℤ → AuthenticatedMessage → Handler N AuthenticatedMessage
  find_node now request = do
    received ← lift (receive l l.wires.find_node_request request)
    node_id ← lift (map_err invalid_target (from_str l.crates received.payload.target_id))
    closest_nodes ← ask (λ s. nodes_vector l node_id s.state.node)
    inserted ← insert_sender now received.sender
    reply l l.wires.find_node_response (record { closest_nodes = closest_nodes })

  unfoldable pub find_value : ℤ → AuthenticatedMessage → Handler N AuthenticatedMessage
  find_value now request = do
    received ← lift (receive l l.wires.find_value_request request)
    key ← lift (map_err invalid_key (from_str l.crates received.payload.key))
    found ← ask (λ s. value_or_nodes l key s.state.node)
    result ← lift found
    inserted ← insert_sender now received.sender
    reply l l.wires.find_value_response (record { result = some result })

  module _ (network : Network N) (clock : ℕ → ℤ) where
    unfoldable pub send_store_to_node : String → ℕ → Auction → SKademliaServer N → SKademliaServer N
    unfolding call to_message
    send_store_to_node node_ip node_port auction s =
        let (response, net) =
          call l network l.wires.store_request l.wires.store_response to_store s.state.node node_ip
            node_port (record { auction = some (to_message l.crates auction) }) s.net in
        record s { net = net }

    -- The loop over the closest nodes; the results are ignored.
    unfoldable pub forward :
        Auction → String → List NodeInformation → SKademliaServer N → SKademliaServer N
    unfolding send_store_to_node to_string
    forward auction sender_id [] s = s
    forward auction sender_id (node_info ∷ rest) s =
        let own_id = to_string l.crates s.state.node.node_info.id in
        forward auction sender_id rest (
          if not (str_eq node_info.id own_id) && not (str_eq node_info.id sender_id)
          then send_store_to_node node_info.ip node_info.port auction s
          else s)

    abbrev pub stored_ok : Result NodeError Bool → Bool
    stored_ok (ok value) = value
    stored_ok (err e) = false

    -- Storing the auction if the node is among the closest ones: whether to forward it, and the
    -- message.
    unfoldable pub store_if_close : Auction → List NodeInformation → Handler N (Bool × String)
    unfolding store_auction to_string
    store_if_close auction k_closest s =
        let own_id = to_string l.crates s.state.node.node_info.id in
        let key = to_string l.crates auction.key in
        let (stored, state) =
          store_auction l.auction_codec l.block_codec l.crates l.block_json clock auction s.state in
        if any (λ (n : NodeInformation). str_eq n.id own_id) k_closest
        then done
            (ok (stored_ok stored, "Stored auction with key " <> key), record s { state = state })
        else done (ok (true, "Forwarded auction with key: " <> key), s)

    -- `if should_forward { .. }`
    unfoldable pub send_on :
        Auction → NodeInfo → List NodeInformation → Bool × String → Handler N String
    unfolding forward to_string
    send_on auction sender k_closest stored s = done (
      ok stored.1,
      if stored.0 then forward auction (to_string l.crates sender.id) k_closest s else s,
    )

    unfoldable pub store_locally_and_forward : Auction → NodeInfo → Handler N String
    store_locally_and_forward auction sender = do
      k_closest ← ask (λ s. get_closest_nodes_to_key l.crates auction.key s.state.node)
      stored ← store_if_close auction k_closest
      send_on auction sender k_closest stored

    unfoldable pub store : AuthenticatedMessage → Handler N AuthenticatedMessage
    store request = do
      received ← lift (receive l l.wires.store_request request)
      proto ← lift (ok_or missing_auction received.payload.auction)
      auction ← lift (map_err invalid_auction (try_from_message l.crates proto))
      message ← store_locally_and_forward auction received.sender
      reply l l.wires.store_response (record { message = message })
