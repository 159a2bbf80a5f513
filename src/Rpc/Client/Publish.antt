-- ===== src/Rpc/Client/Publish.antt =====
-- g_rpc/client.rs: publishing auctions, and the automation.
use kademlia_blockchain_auct.Prelude.{
  ℕ, zero, suc, ◌+◌, ◌%◌, String, List, [], ◌∷◌, Option, Bool, not, ◌&&◌, ◌==◌, if◌then◌else◌,
  length, get_elem?, filter, u64_mod, leb,
}
use kademlia_blockchain_auct.Prelude.Int.{ℤ}
use kademlia_blockchain_auct.Prelude.Sync.{Outcome, done, panic}
use kademlia_blockchain_auct.Prelude.Result.{ok, err, ok_or}
use kademlia_blockchain_auct.Prelude.Exec.{pure, lift, ask, attempt, ◌>>=◌}
use kademlia_blockchain_auct.Address.{address_eq}
use kademlia_blockchain_auct.Peer.{NodeInfo}
use kademlia_blockchain_auct.Auction.{
  Auction, is_closed, new_with_duration, highest_bid_amount, place_bid,
}
use kademlia_blockchain_auct.Node.{
  Node, store_auction, close_expired_auctions, all_auctions, insert_node_to_routing_table,
}
use kademlia_blockchain_auct.Rpc.Message.{Libraries}
use kademlia_blockchain_auct.Rpc.Client.{
  World, Client, on_net, locally, bid_failed, no_items, no_auction,
}
use kademlia_blockchain_auct.Rpc.Client.Calls.{send_store_to_node}

module _ {N : Type 0} where
  unfoldable pub node_of : Client N Node
  node_of s = done (ok s.state.node, s)

-- `choose` on a slice.
unfoldable pub choose : {N : Type 0} → World N → {A : Type 0} → List A → Client N (Option A)
choose w xs = do i ← on_net (w.draw (length xs)); pure (get_elem? xs i)

-- The auctions to bid on.
unfoldable pub can_bid : Node → Auction → Bool
can_bid node auction =
    not (is_closed auction.status) && not (address_eq auction.seller node.node_info.id)

abbrev pub items : List String
items =
    "Vintage keyboard" ∷ "Mechanical watch" ∷ "Signed poster" ∷ "Film camera" ∷ "Studio headphones"
    ∷ "Arcade cabinet" ∷ "Antique map" ∷ "Handmade chess set" ∷ []

module _ (l : Libraries) {N : Type 0} (w : World N) where
  unfoldable pub insert_node_at : ℤ → NodeInfo → Client N (Unit {0})
  insert_node_at now node_info s =
      elim (insert_node_to_routing_table l.crates now node_info s.state.node) [
        | panic ↦ panic
        | done node ↦ done (ok tt, record s { state = record s.state { node = node } })
      ]

  unfoldable pub insert_node : NodeInfo → Client N (Unit {0})
  insert_node node_info = do now ← on_net w.now; insert_node_at now node_info

  unfoldable pub publish_auction : Auction → Client N (Unit {0})
  publish_auction auction = do
    stored ←
        locally (λ n.
          store_auction l.auction_codec l.block_codec l.crates l.block_json (w.clock n) auction)
    node ← node_of
    if node.node_info.port == node.config.bootstrap_peer_port
        then pure tt
        else send_store_to_node l w.network node.config.bootstrap_peer_ip
            node.config.bootstrap_peer_port auction

  unfoldable pub create_random_auction : Client N (Unit {0})
  create_random_auction = do
    chosen ← choose w items
    object ← lift (ok_or no_items chosen)
    more ← on_net (w.draw 140)
    now ← on_net w.now
    auction ← ask (λ s.
        new_with_duration l.crates now object (10 + more) s.state.node.node_info.id
          s.state.node.config.auction_duration_ms)
    publish_auction auction

  -- `+` on a `u64`.
  unfoldable pub add_u64 : ℕ → ℕ → Outcome ℕ
  add_u64 a b = if w.overflow_checks && leb u64_mod (a + b) then panic else done ((a + b) % u64_mod)

  -- `auctions.choose_mut(..)`, the bid and its publication.
  unfoldable pub bid_on_one_of : List Auction → Client N (Unit {0})
  bid_on_one_of auctions = do
    chosen ← choose w auctions
    auction ← lift (ok_or no_auction chosen)
    more ← on_net (w.draw 24)
    amount ← ask (λ s. add_u64 (highest_bid_amount auction) (1 + more))
    now ← on_net w.now
    node ← node_of
    auction' ← lift (
        let (a, r) = place_bid now node.node_info.id amount auction in
        elim r [ ok _ ↦ ok a | err e ↦ err (bid_failed e) ])
    publish_auction auction'

  unfoldable pub bid_if_any : List Auction → Client N (Unit {0})
  bid_if_any [] = pure tt
  bid_if_any (a ∷ auctions) = bid_on_one_of (a ∷ auctions)

  unfoldable pub bid_on_random_auction : Client N (Unit {0})
  bid_on_random_auction = do
    all ← locally (λ n s. (all_auctions s.node, s))
    node ← node_of
    bid_if_any (filter (can_bid node) all)

  unfoldable pub publish_all : List Auction → Client N (Unit {0})
  publish_all [] = pure tt
  publish_all (a ∷ rest) = do published ← publish_auction a; publish_all rest

  unfoldable pub run_automation_tick : Client N (Unit {0})
  run_automation_tick = do
    now ← on_net w.now
    closed ← locally (λ n.
        close_expired_auctions l.auction_codec l.block_codec l.crates l.block_json (w.clock n) now)
    published ← publish_all closed
    action ← on_net (w.draw 3)
    if action == 0
        then create_random_auction
        else if action == 1
        then bid_on_random_auction
        else pure tt

  -- The first rounds of the endless loop; a tick that fails is logged, and sleeping changes nothing.
  unfoldable pub start : ℕ → Client N (Unit {0})
  start zero = pure tt
  start (suc rounds) = do
    node ← node_of
    ticked ← if node.config.automation_enabled then attempt run_automation_tick else pure (ok tt)
    start rounds
