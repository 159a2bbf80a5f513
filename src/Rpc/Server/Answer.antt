-- ===== src/Rpc/Server/Answer.antt =====
-- g_rpc/server.rs: `store`, `find_node` and `find_value` return, and keep what holds of the node and of
-- the challenges.
use mathlib.Core.Path.{subst}
use kademlia_blockchain_auct.Prelude.{
  ℕ, ◌≤◌, ◌<◌, ◌⊎◌, ◌≡◌, refl, sym, ◌∙◌, String, List, [], ◌∷◌, length, Option, none, some, Bool,
  true, false, any, if_cases, str_eq, arith, if◌then◌else◌, inl, inr,
}
use kademlia_blockchain_auct.Prelude.Int.{ℤ}
use kademlia_blockchain_auct.Prelude.Sync.{Outcome, done}
use kademlia_blockchain_auct.Prelude.Result.{Result, ok, err, map_err, map_err-ok, Result-cases}
use kademlia_blockchain_auct.Prelude.Exec.Yields.{
  OnOk, Anything, Yields-result, Yields-ask_any, Yields-bind,
}
use kademlia_blockchain_auct.Crates.{CratesLaws}
use kademlia_blockchain_auct.Address.{Address, IsAddress, to_string}
use kademlia_blockchain_auct.Address.Text.{from_str-IsAddress}
use kademlia_blockchain_auct.Peer.{NodeInfo, NodeInformation, to_information}
use kademlia_blockchain_auct.Auction.{Auction}
use kademlia_blockchain_auct.Auction.Message.{AuctionMessage, try_from_message, to_message}
use kademlia_blockchain_auct.Auction.RoundTrip.{try_from_message-IsAddress}
use kademlia_blockchain_auct.Node.{State, find_auction, find_node_in_routing_table}
use kademlia_blockchain_auct.Node.Sound.{
  Sound, store_auction-Sound, insert_node-Sound, closest_nodes-done, find_node-done,
}
use kademlia_blockchain_auct.Signed.{AuthenticatedMessage}
use kademlia_blockchain_auct.Rpc.Message.{Libraries, FindValueResult, found_value, closest}
use kademlia_blockchain_auct.Rpc.Call.{Network}
use kademlia_blockchain_auct.Rpc.Server.{
  Challenge, SKademliaServer, HandlerError, invalid_target, invalid_key, auctions_unreadable,
  invalid_auction, sender-IsAddress,
}
use kademlia_blockchain_auct.Rpc.Server.Lookup.{
  or_own, nodes_vector, value_or_nodes, insert_sender, find_node, find_value, send_store_to_node,
  forward, send_on, store_if_close, store_locally_and_forward, store,
}
use kademlia_blockchain_auct.Rpc.Server.Join.{Good, Serves, reply-Serves}

-- The number of nodes in an answer: at least one, and at most one or `k_value`.
abbrev pub IsAnswer : ℕ → List NodeInformation → Type 0
IsAnswer k nodes = (0 < length nodes) × ((length nodes ≤ 1) ⊎ (length nodes ≤ k))

module _ (l : Libraries) {N : Type 0} (network : Network N) where
  -- The calls of other nodes change neither the node nor the challenges.
  abbrev SameServer : SKademliaServer N → SKademliaServer N → Type 0
  SameServer s t = (t.state ≡ s.state) × (t.challenges_map ≡ s.challenges_map)

  SameServer-send_if :
      (clock : ℕ → ℤ) (a : Auction) (n : NodeInformation) (s : SKademliaServer N) (b : Bool)
      → SameServer s (if b then send_store_to_node l network clock n.ip n.port a s else s)
  unfolding send_store_to_node
  SameServer-send_if clock a n s true = (refl, refl)
  SameServer-send_if clock a n s false = (refl, refl)

  pub SameServer-forward :
      (clock : ℕ → ℤ) (a : Auction) (id : String) (nodes : List NodeInformation)
      (s : SKademliaServer N)
      → SameServer s (forward l network clock a id nodes s)
  unfolding forward
  SameServer-forward clock a id [] s = (refl, refl)
  SameServer-forward clock a id (n ∷ nodes) s =
      let (e, f) = SameServer-forward clock a id nodes _ in
      let (e1, f1) = SameServer-send_if clock a n s _ in (e ∙ e1, f ∙ f1)

  module _ (laws : CratesLaws l.crates) (s0 : State) (C : List (String × Challenge) → Type 0) where
    insert_sender-Serves :
        (now : ℤ) (n : NodeInfo) → IsAddress n.id → Serves l C s0 {N = N} (insert_sender l now n)
    unfolding insert_sender
    insert_sender-Serves now n hn = record {
      runs = λ s h.
          let (node, e, h') = insert_node-Sound _ _ _ _ s0 s.state h.0 laws now n hn in
          (
            ok tt,
            record s { state = record s.state { node = node } },
            rw (e, insert_sender) refl,
            (h', h.1),
            tt,
          );
    }

    -- The answers to lookups: no panic, and a bounded number of nodes.
    pub nodes_vector-done :
        (id : Address) (s : SKademliaServer N)
        → IsAddress id
        → Good l C s0 s
        → (nodes : List NodeInformation) × (nodes_vector l id s.state.node ≡ done nodes)
          × IsAnswer s.state.node.routing_table.config.k_value nodes
    unfolding nodes_vector
    nodes_vector-done id s hid h =
        let (found, e) = find_node-done _ _ _ _ s0 s.state h.0 laws id hid in of_found found e
      where
        own : NodeInformation
        own = to_information l.crates s.state.node.node_info

        IsAnswer-or_own :
            (nodes : List NodeInformation) (k : ℕ)
            → length nodes ≤ k
            → IsAnswer k (or_own own nodes)
        IsAnswer-or_own [] k bound = (omega arith, inl (omega arith))
        IsAnswer-or_own (n ∷ nodes) k bound = (omega arith, inr bound)

        of_found :
            (found : Option NodeInformation)
            → find_node_in_routing_table l.crates id s.state.node ≡ done found
            → (nodes : List NodeInformation) × (nodes_vector l id s.state.node ≡ done nodes)
              × IsAnswer s.state.node.routing_table.config.k_value nodes
        of_found (some n) e = (n ∷ [], rw (e, nodes_vector) refl, (omega arith, inl (omega arith)))
        of_found none e =
            let (nodes, e', bound) = closest_nodes-done _ _ _ _ s0 s.state h.0 laws id hid in
            (or_own own nodes, rw (e, e', nodes_vector) refl, IsAnswer-or_own nodes _ bound)

    value_or_nodes-done :
        (key : Address) (s : SKademliaServer N)
        → IsAddress key
        → Good l C s0 s
        → (r : Result HandlerError FindValueResult) × (value_or_nodes l key s.state.node ≡ done r)
    unfolding value_or_nodes
    value_or_nodes-done key s hk h = elim (Result-cases (find_auction key s.state.node)) [
      | inr (x, e) ↦ (err (auctions_unreadable x), rw (e, value_or_nodes) refl)
      | inl (some a, e) ↦ (
        ok (found_value (l.wires.auction.encode (to_message l.crates a))),
        rw (e, value_or_nodes) refl,
      )
      | inl (none, e) ↦
          let (nodes, e', _) = closest_nodes-done _ _ _ _ s0 s.state h.0 laws key hk in
          (ok (closest nodes), rw (e, e', value_or_nodes) refl)
    ]

    pub find_node-Serves :
        (now : ℤ) (request : AuthenticatedMessage) → Serves l C s0 {N = N} (find_node l now request)
    unfolding find_node
    find_node-Serves now request = Yields-bind _ _ (Yields-result _) (λ r received.
        Yields-bind _ _ (Yields-result _) (λ id read.
          Yields-bind _ _
            (Yields-ask_any _ (λ s h.
              let (nodes, e, _) =
                nodes_vector-done id s
                  (from_str-IsAddress l.crates laws _ id (map_err-ok invalid_target _ id read)) h in
              (nodes, e)))
            (λ nodes q.
              Yields-bind _ _
                (insert_sender-Serves now r.sender (sender-IsAddress l _ request r laws received))
                (λ u q. reply-Serves l s0 C _ _))))

    pub find_value-Serves :
        (now : ℤ) (request : AuthenticatedMessage)
        → Serves l C s0 {N = N} (find_value l now request)
    unfolding find_value
    find_value-Serves now request = Yields-bind _ _ (Yields-result _) (λ r received.
        Yields-bind _ _ (Yields-result _) (λ key read.
          Yields-bind _ _
            (Yields-ask_any _ (λ s h.
              value_or_nodes-done key s
                (from_str-IsAddress l.crates laws _ key (map_err-ok invalid_key _ key read)) h))
            (λ found q. Yields-bind _ _ (Yields-result _) (λ result is_found.
              Yields-bind _ _
                (insert_sender-Serves now r.sender (sender-IsAddress l _ request r laws received))
                (λ u q. reply-Serves l s0 C _ _)))))

    store_if_close-Serves :
        (clock : ℕ → ℤ) (a : Auction) (nodes : List NodeInformation)
        → Serves l C s0 {N = N} (store_if_close l network clock a nodes)
    unfolding store_if_close
    store_if_close-Serves clock a nodes = record {
      runs = λ s h.
          if_cases
            (λ o.
              (r : Result HandlerError (Bool × String)) × (s' : SKademliaServer N) × (o
                ≡ done (r, s'))
              × Good l C s0 s'
              × OnOk Anything r)
            (any
              (λ (n : NodeInformation). str_eq n.id (to_string l.crates s.state.node.node_info.id))
              nodes)
            _ _
            (λ among. (_, _, refl, (store_auction-Sound _ _ _ _ s0 s.state h.0 clock a, h.1), tt))
            (λ away. (_, s, refl, h, tt));
    }

    send_on-Serves :
        (clock : ℕ → ℤ) (a : Auction) (sender : NodeInfo) (nodes : List NodeInformation)
        (stored : Bool × String)
        → Serves l C s0 {N = N} (send_on l network clock a sender nodes stored)
    unfolding send_on
    send_on-Serves clock a sender nodes stored = record {
      runs = λ s h.
          let id = to_string l.crates sender.id in
          if_cases
            (λ t.
              (r : Result HandlerError String) × (s' : SKademliaServer N) × (◌≡◌
                {A = Outcome (Result HandlerError String × SKademliaServer N)}
                (done (ok stored.1, t)) (done (r, s')))
              × Good l C s0 s'
              × OnOk Anything r)
            stored.0 _ _
            (λ yes.
              let (e, f) = SameServer-forward clock a id nodes s in
              (_, _, refl, (subst (Sound _ _ _ _ s0) (sym e) h.0, subst C (sym f) h.1), tt))
            (λ no. (_, s, refl, h, tt));
    }

    pub store-Serves :
        (clock : ℕ → ℤ) (request : AuthenticatedMessage)
        → Serves l C s0 {N = N} (store l network clock request)
    unfolding store store_locally_and_forward
    store-Serves clock request = Yields-bind _ _ (Yields-result _) (λ r received.
        Yields-bind _ _ (Yields-result _) (λ proto there.
          Yields-bind _ _ (Yields-result _) (λ a read.
            Yields-bind _ _
              (Yields-bind _ _
                (Yields-ask_any _ (λ s h.
                  let (nodes, e, _) =
                    closest_nodes-done _ _ _ _ s0 s.state h.0 laws a.key (key_ok proto a read) in
                  (nodes, e)))
                (λ nodes q.
                  Yields-bind _ _ (store_if_close-Serves clock a nodes)
                    (λ stored q. send_on-Serves clock a r.sender nodes stored)))
              (λ message q. reply-Serves l s0 C _ _))))
      where
        key_ok :
            (proto : AuctionMessage) (a : Auction)
            → map_err invalid_auction (try_from_message l.crates proto) ≡ ok a
            → IsAddress a.key
        key_ok proto a read =
            try_from_message-IsAddress l.crates laws proto a (map_err-ok invalid_auction _ a read)
