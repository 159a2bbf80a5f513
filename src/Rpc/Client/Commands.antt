-- ===== src/Rpc/Client/Commands.antt =====
-- g_rpc/client.rs: `run` and `run_command`. `rounds` is the number of rounds of the endless loop that
-- are looked at.
use kademlia_blockchain_auct.Prelude.{ℕ, true, false, ◌==◌, if◌then◌else◌}
use kademlia_blockchain_auct.Prelude.Result.{ok, err, ok_or}
use kademlia_blockchain_auct.Prelude.Exec.{pure, lift, ask, ◌>>=◌}
use kademlia_blockchain_auct.Address.{Address}
use kademlia_blockchain_auct.Auction.{new, place_bid}
use kademlia_blockchain_auct.Command.{Command, serve, create_auction, find_auction, bid}
use kademlia_blockchain_auct.Rpc.Message.{Libraries}
use kademlia_blockchain_auct.Rpc.Client.{World, Client, on_net, auction_not_found, bid_failed}
use kademlia_blockchain_auct.Rpc.Client.Publish.{node_of, publish_auction, start}
use kademlia_blockchain_auct.Rpc.Client.Find.{find_auction_in_network}
use kademlia_blockchain_auct.Rpc.Client.Join.{join_network}

module _ (l : Libraries) {N : Type 0} (w : World N) (fuel rounds : ℕ) where
  unfoldable pub try_bootstrap : Client N (Unit {0})
  try_bootstrap = do joined ← join_network l w fuel fuel true; start l w rounds

  unfoldable pub run : Client N (Unit {0})
  run = do
    node ← node_of
    if node.node_info.port == node.config.bootstrap_peer_port
        then start l w rounds
        else try_bootstrap

  -- A bid on an auction of the network.
  unfoldable pub bid_on : Address → ℕ → Client N (Unit {0})
  bid_on key amount = do
    found ← find_auction_in_network l w fuel key
    auction ← lift (ok_or (auction_not_found key) found)
    now ← on_net w.now
    node ← node_of
    auction' ← lift (
        let (a, r) = place_bid now node.node_info.id amount auction in
        elim r [ ok _ ↦ ok a | err e ↦ err (bid_failed e) ])
    publish_auction l w auction'

  unfoldable pub perform : Command → Client N (Unit {0})
  perform serve = start l w rounds
  perform (create_auction object initial_value) = do
    now ← on_net w.now
    auction ← ask (λ s. new l.crates now object initial_value s.state.node.node_info.id)
    publish_auction l w auction
  perform (find_auction key) = do
    found ← find_auction_in_network l w fuel key
    auction ← lift (ok_or (auction_not_found key) found)
    pure tt
  perform (bid key amount) = bid_on key amount

  unfoldable pub run_command : Command → Client N (Unit {0})
  run_command command = do joined ← join_network l w fuel fuel false; perform command
