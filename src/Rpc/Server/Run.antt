-- ===== src/Rpc/Server/Run.antt =====
-- g_rpc/server.rs: a server at work stays well-formed and always answers.
use kademlia_blockchain_auct.Prelude.{
  ◌≡◌, refl, ap, String, List, [], ◌∷◌, length, suc, All, All-of_Elem, ◌++◌, false,
}
use kademlia_blockchain_auct.Prelude.Sync.{done}
use kademlia_blockchain_auct.Prelude.Result.{Result}
use kademlia_blockchain_auct.Crates.{CratesLaws}
use kademlia_blockchain_auct.Address.{Address, IsAddress}
use kademlia_blockchain_auct.Peer.{NodeInformation}
use kademlia_blockchain_auct.Ledger.{Block}
use kademlia_blockchain_auct.Node.{State}
use kademlia_blockchain_auct.Node.Run.{IsNode, Run-IsNode}
use kademlia_blockchain_auct.Node.Sound.{Sound-start}
use kademlia_blockchain_auct.Signed.{AuthenticatedMessage}
use kademlia_blockchain_auct.Rpc.Message.{Libraries}
use kademlia_blockchain_auct.Rpc.Call.{
  Network, Method, to_ping, to_store, to_find_node, to_find_value, to_bootstrap,
  to_challenge_resolution,
}
use kademlia_blockchain_auct.Rpc.Server.{Challenge, SKademliaServer, HandlerError}
use kademlia_blockchain_auct.Rpc.Server.Lookup.{nodes_vector}
use kademlia_blockchain_auct.Rpc.Server.Serve.{Request, handler, handle, serve}
use kademlia_blockchain_auct.Rpc.Server.Join.{
  Good, Serves, Allows, ping-Serves, bootstrap-Serves, challenge_resolution-Serves,
}
use kademlia_blockchain_auct.Rpc.Server.Answer.{
  IsAnswer, nodes_vector-done, find_node-Serves, find_value-Serves, store-Serves,
}

module _ (l : Libraries) {N : Type 0} (network : Network N) (laws : CratesLaws l.crates) where
  abbrev pub IsSoundNode : State → Type 0
  IsSoundNode s = IsNode l.auction_codec l.block_codec l.crates l.block_json s

  module _ (s0 : State) (C : List (String × Challenge) → Type 0) where
    handler-Serves :
        (m : Method) (r : Request)
        → r.method ≡ m
        → Allows l C r
        → Serves l C s0 {N = N} (handler l network m r)
    unfolding handler
    handler-Serves to_ping r e allows = ping-Serves l s0 C r.message
    handler-Serves to_store r e allows = store-Serves l network laws s0 C r.clock r.message
    handler-Serves to_find_node r e allows = find_node-Serves l network laws s0 C r.now r.message
    handler-Serves to_find_value r e allows = find_value-Serves l network laws s0 C r.now r.message
    handler-Serves to_bootstrap r e allows = bootstrap-Serves l s0 C r e allows
    handler-Serves to_challenge_resolution r e allows =
        challenge_resolution-Serves l s0 C r e allows

    -- Every request is answered, and what holds of the node and of the challenges is kept.
    pub serve-Good :
        (requests : List Request) (s : SKademliaServer N)
        → All (Allows l C) requests
        → Good l C s0 s
        → (answers : List (Result HandlerError AuthenticatedMessage)) × (s' : SKademliaServer N)
          × (serve l network requests s ≡ done (answers, s'))
          × (length answers ≡ length requests)
          × Good l C s0 s'
    unfolding serve handle
    serve-Good [] s allows h = ([], s, refl, refl, h)
    serve-Good (r ∷ rest) s allows h =
        let (answer, s1, e1, h1, _) = (handler-Serves r.method r refl allows.0).runs s h in
        let (answers, s2, e2, n, h2) = serve-Good rest s1 allows.1 h1 in
        (answer ∷ answers, s2, rw (e1, e2, serve, handle) refl, ap suc n, h2)

  AnyChallenges : List (String × Challenge) → Type 0
  AnyChallenges m = Unit

  Allows-AnyChallenges : (r : Request) → Allows l AnyChallenges r
  unfolding AnyChallenges
  Allows-AnyChallenges r = record {
    adds = λ received is_bootstrap ok_received challenge m h. tt;
    drops = λ received is_resolution ok_received m h. tt;
  }

  -- From a well-formed node behind a healthy routing table's lock, whatever requests come in, signed
  -- or not, one after another in any order, and whatever the disk does and the network answers: if
  -- every call of another node comes back, with an answer or an error, no handler panics, every
  -- request gets its answer or its error, and the node that is left is well-formed, with the same
  -- identity and configuration, its routing table's lock healthy, and a ledger that has only grown at
  -- its end.
  pub serve-IsNode :
      (requests : List Request) (s : SKademliaServer N)
      → IsSoundNode s.state
      → s.state.node.routing_table.table.poisoned ≡ false
      → (answers : List (Result HandlerError AuthenticatedMessage)) × (s' : SKademliaServer N)
        × (serve l network requests s ≡ done (answers, s'))
        × (length answers ≡ length requests)
        × IsSoundNode s'.state
        × (s'.state.node.routing_table.table.poisoned ≡ false)
        × (s'.state.node.node_info ≡ s.state.node.node_info)
        × (s'.state.node.config ≡ s.state.node.config)
        × ((new : List Block) × (s'.state.node.ledger.value ≡ s.state.node.ledger.value ++ new))
  unfolding AnyChallenges
  serve-IsNode requests s h healthy =
      let (answers, s', e, n, good) =
        serve-Good s.state AnyChallenges requests s
          (All-of_Elem (Allows l AnyChallenges) requests (λ r m. Allows-AnyChallenges r))
          (Sound-start _ _ _ _ s.state h healthy, tt) in
      let (_, info, config, grows) = Run-IsNode _ _ _ _ laws s.state s'.state good.0.run h in
      (answers, s', e, n, good.0.node, good.0.healthy, info, config, grows)

  -- From a well-formed node behind a healthy lock, for any valid target: the lookup of `find_node` does
  -- not panic, and its answer has at least one node and at most one or `k_value`.
  pub nodes_vector-IsAnswer :
      (target : Address) (s : SKademliaServer N)
      → IsAddress target
      → IsSoundNode s.state
      → s.state.node.routing_table.table.poisoned ≡ false
      → (nodes : List NodeInformation) × (nodes_vector l target s.state.node ≡ done nodes)
        × IsAnswer s.state.node.routing_table.config.k_value nodes
  unfolding AnyChallenges
  nodes_vector-IsAnswer target s ht h healthy =
      nodes_vector-done l network laws s.state AnyChallenges target s ht
        (Sound-start _ _ _ _ s.state h healthy, tt)
