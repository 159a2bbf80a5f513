-- ===== src/Rpc/Client/Safe.antt =====
-- g_rpc/client.rs: the steps of the client never panic on a well-formed node, and keep it so.
use kademlia_blockchain_auct.Prelude.{
  ℕ, ◌≡◌, refl, String, List, [], ◌∷◌, All, All-Elem, All-map, inl, inr,
}
use kademlia_blockchain_auct.Prelude.Sync.{done}
use kademlia_blockchain_auct.Prelude.Result.{Result, ok, map_err, map_m, Result-cases}
use kademlia_blockchain_auct.Prelude.Exec.{lift, ◌>>=◌}
use kademlia_blockchain_auct.Prelude.Exec.Yields.{
  OnOk, Anything, OnOk-Anything, Yields, Yields-pure, Yields-lift, Yields-if, Yields-bind,
}
use kademlia_blockchain_auct.Crates.{Crates, CratesLaws}
use kademlia_blockchain_auct.Address.{Address, IsAddress}
use kademlia_blockchain_auct.Peer.{
  NodeInfo, NodeInformation, PeerError, try_from, try_from-IsAddress,
}
use kademlia_blockchain_auct.Routing.Table.{RoutingTable}
use kademlia_blockchain_auct.Routing.Insert.{IsTable, BelongsTo}
use kademlia_blockchain_auct.Routing.Closest.Result.{Candidate}
use kademlia_blockchain_auct.Auction.{Auction}
use kademlia_blockchain_auct.Node.{Node, State, NodeError}
use kademlia_blockchain_auct.Node.Sound.{Sound, store_auction-Sound, insert_node-Sound}
use kademlia_blockchain_auct.Rpc.Message.{Libraries}
use kademlia_blockchain_auct.Rpc.Call.{CallError, invalid_node}
use kademlia_blockchain_auct.Rpc.Client.{
  World, SKademliaClient, ClientError, Client, on_net, remote, locally, call_failed,
}
use kademlia_blockchain_auct.Rpc.Client.Calls.{
  find_value, bootstrap, challenge_resolution, find_node, send_store_to_node,
}
use kademlia_blockchain_auct.Rpc.Client.Publish.{
  node_of, insert_node_at, insert_node, publish_auction,
}

module _ (c : Crates) (laws : CratesLaws c) {E : Type 0} (f : PeerError → E) where
  try_from-OnOk :
      (p : NodeInformation) → OnOk (λ (n : NodeInfo). IsAddress n.id) (map_err f (try_from c p))
  try_from-OnOk p = elim (Result-cases (try_from c p)) [
    | inl (n, e) ↦ rw e (try_from-IsAddress c laws p n e)
    | inr (x, e) ↦ rw e tt
  ]

  try_from-All-OnOk :
      (ps : List NodeInformation)
      → OnOk (All (λ (n : NodeInfo). IsAddress n.id)) (map_err f (map_m (try_from c) ps))
  try_from-All-OnOk [] = tt
  try_from-All-OnOk (p ∷ ps) = elim (Result-cases (try_from c p)) [
    | inr (x, e) ↦ rw e tt
    | inl (n, e) ↦ elim (Result-cases (map_m (try_from c) ps)) [
      | inr (x, e') ↦ rw (e, e') tt
      | inl (ns, e') ↦
          rw (e, e') (try_from-IsAddress c laws p n e, opened e' (try_from-All-OnOk ps))
    ]
  ]
    where
      opened :
          {ns : List NodeInfo}
          → map_m (try_from c) ps ≡ ok ns
          → OnOk (All (λ (n : NodeInfo). IsAddress n.id)) (map_err f (map_m (try_from c) ps))
          → All (λ (n : NodeInfo). IsAddress n.id) ns
      opened e h = rw e at h

-- The state of a client whose node a run from `s0` has led to.
abbrev pub Safe : Libraries → State → {N : Type 0} → SKademliaClient N → Type 0
Safe l s0 s = Sound l.auction_codec l.block_codec l.crates l.block_json s0 s.state

module _ (l : Libraries) (s0 : State) {N : Type 0} where
  abbrev pub Runs : {A : Type 0} → Client N A → Type 0
  Runs m = Yields (Safe l s0) Anything m

  pub on_net-Runs : {A : Type 0} (f : N → A × N) → Runs (on_net f)
  unfolding on_net
  on_net-Runs f = record { runs = λ s h. (_, _, refl, h, tt) }

  pub node_of-Runs : Runs node_of
  unfolding node_of
  node_of-Runs = record { runs = λ s h. (_, _, refl, h, tt) }

  pub lift-Runs : {A : Type 0} (r : Result ClientError A) → Runs (lift r)
  lift-Runs r = Yields-lift r (OnOk-Anything r)

  pub remote-Runs : {A : Type 0} (f : Node → N → Result CallError A × N) → Runs (remote f)
  unfolding remote
  remote-Runs f = record { runs = λ s h. (_, _, refl, h, OnOk-Anything _) }

  pub locally-Runs :
      {A : Type 0} (f : N → State → Result NodeError A × State)
      → ((n : N) (s : State)
          → Sound l.auction_codec l.block_codec l.crates l.block_json s0 s
          → Sound l.auction_codec l.block_codec l.crates l.block_json s0 (f n s).1)
      → Runs (locally f)
  unfolding locally
  locally-Runs f keeps = record {
    runs = λ s h. (_, _, refl, keeps s.net s.state h, OnOk-Anything _);
  }

  module _ (w : World N) (node_ip : String) (node_port : ℕ) where
    pub send_store-Runs : (a : Auction) → Runs (send_store_to_node l w.network node_ip node_port a)
    unfolding send_store_to_node
    send_store-Runs a = Yields-bind _ _ (remote-Runs _) (λ r q. Yields-pure tt tt)

    pub find_value-Runs : (key : Address) → Runs (find_value l w.network node_ip node_port key)
    unfolding find_value
    find_value-Runs key = Yields-bind _ _ (remote-Runs _) (λ r q. Yields-pure _ tt)

    pub bootstrap-Runs : Runs (bootstrap l w.network node_ip node_port)
    unfolding bootstrap
    bootstrap-Runs = Yields-bind _ _ (remote-Runs _) (λ r q. Yields-pure _ tt)

    module _ (laws : CratesLaws l.crates) where
      pub challenge_resolution-Runs :
          (nonce : ℕ)
          → Yields
              (Safe l s0 {N = N})
              (λ r. IsAddress r.1.id)
              (challenge_resolution l w.network node_ip node_port nonce)
      unfolding challenge_resolution
      challenge_resolution-Runs nonce = Yields-bind _ _ (remote-Runs _) (λ r q.
          Yields-bind _ _ (lift-Runs _) (λ sender q.
            Yields-bind _ _
              (Yields-lift _
                (try_from-OnOk l.crates laws (λ e. call_failed (invalid_node e)) sender))
              (λ n hn. Yields-pure _ hn)))

      pub find_node-Runs :
          (target : Address)
          → Yields
              (Safe l s0 {N = N})
              (All (λ (n : NodeInfo). IsAddress n.id))
              (find_node l w.network node_ip node_port target)
      unfolding find_node
      find_node-Runs target = Yields-bind _ _ (remote-Runs _) (λ r q.
          Yields-lift _
            (try_from-All-OnOk l.crates laws (λ e. call_failed (invalid_node e)) r.0.closest_nodes))

  module _ (laws : CratesLaws l.crates) (w : World N) where
    -- Inserting a valid node always ends well.
    pub insert_node-done :
        (n : NodeInfo) (s : SKademliaClient N)
        → IsAddress n.id
        → Safe l s0 s
        → (s' : SKademliaClient N) × (insert_node l w n s ≡ done (ok tt, s')) × Safe l s0 s'
    unfolding insert_node ◌>>=◌ on_net insert_node_at
    insert_node-done n s hn h =
        let (now, net) = w.now s.net in
        let (node, e, h') = insert_node-Sound _ _ _ _ s0 s.state h laws now n hn in
        let s1 : SKademliaClient N = record s { net = net } in
        let inserted : insert_node_at l w now n s1
            ≡ done (ok tt, record s1 { state = record s.state { node = node } }) =
          rw (e, insert_node_at) refl in
        (record s1 { state = record s.state { node = node } }, inserted, h')

    pub insert_node-Runs : (n : NodeInfo) → IsAddress n.id → Runs (insert_node l w n)
    insert_node-Runs n hn = record {
      runs = λ s h. let (s', e, h') = insert_node-done n s hn h in (ok tt, s', e, h', tt);
    }

    pub publish_auction-Runs : (a : Auction) → Runs (publish_auction l w a)
    unfolding publish_auction
    publish_auction-Runs a =
        Yields-bind _ _ (locally-Runs _ (λ n s h. store_auction-Sound _ _ _ _ s0 s h (w.clock n) a))
          (λ b q.
            Yields-bind _ _ node_of-Runs
              (λ node q. Yields-if _ _ _ (Yields-pure tt tt) (send_store-Runs w _ _ a)))

-- The contacts that a search starts from are valid.
pub candidates-valid :
    (l : Libraries) (laws : CratesLaws l.crates) (rt : RoutingTable)
    → IsTable l.crates rt
    → (out : List NodeInfo) → All (Candidate rt []) out
    → All (λ (n : NodeInfo). IsAddress n.id) out
candidates-valid l laws rt table out from = All-map candidate out from
  where
    candidate : (n : NodeInfo) → Candidate rt [] n → IsAddress n.id
    candidate n (inl m) = elim m [ ]
    candidate n (inr ((i, b, at, m), ne)) =
        (All-Elem (BelongsTo l.crates rt i) b.list n (table.bucket i b at).belong m).0
