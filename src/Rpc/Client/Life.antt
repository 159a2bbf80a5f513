-- ===== src/Rpc/Client/Life.antt =====
-- g_rpc/client.rs: whatever the client does, its node stays well-formed.
use kademlia_blockchain_auct.Prelude.{
  ℕ, zero, suc, ◌+◌, ◌%◌, u64_mod, false, ◌≡◌, refl, String, List, [], ◌∷◌, ◌++◌, Option, none,
  some, any, filter, str_eq, ◌==◌,
}
use kademlia_blockchain_auct.Prelude.Result.{ok}
use kademlia_blockchain_auct.Prelude.Sync.{done}
use kademlia_blockchain_auct.Prelude.Exec.{pure}
use kademlia_blockchain_auct.Prelude.Exec.Yields.{
  Anything, Yields-pure, Yields-ask, Yields-ask_any, Yields-attempt, Yields-if, Yields-bind,
}
use kademlia_blockchain_auct.Crates.{CratesLaws}
use kademlia_blockchain_auct.Address.{Address}
use kademlia_blockchain_auct.Peer.{NodeInfo}
use kademlia_blockchain_auct.Auction.{Auction}
use kademlia_blockchain_auct.Auction.Reach.{new_with_duration_lem}
use kademlia_blockchain_auct.Node.{Node, State}
use kademlia_blockchain_auct.Node.Sound.{close_expired_auctions-Sound}
use kademlia_blockchain_auct.Rpc.Message.{Libraries, FindValueResult, found_value, closest}
use kademlia_blockchain_auct.Rpc.Client.{World}
use kademlia_blockchain_auct.Rpc.Client.Publish.{
  choose, can_bid, items, create_random_auction, add_u64, bid_on_one_of, bid_if_any,
  bid_on_random_auction, publish_all, run_automation_tick, start,
}
use kademlia_blockchain_auct.Rpc.Client.Find.{
  query_key, Answer, auction_found, ask_also, read_answer, query, query_each, search_from,
  find_auction_in_network,
}
use kademlia_blockchain_auct.Rpc.Client.Safe.{
  Runs, on_net-Runs, node_of-Runs, lift-Runs, locally-Runs, find_value-Runs, publish_auction-Runs,
}

module _ (l : Libraries) (laws : CratesLaws l.crates) (s0 : State) {N : Type 0} (w : World N)
    (wraps : w.overflow_checks ≡ false) where
  choose-Runs : {A : Type 0} (xs : List A) → Runs l s0 (choose w xs)
  unfolding choose
  choose-Runs xs = Yields-bind _ _ (on_net-Runs l s0 _) (λ i q. Yields-pure _ tt)

  create_random_auction-Runs : Runs l s0 (create_random_auction l w)
  unfolding create_random_auction
  create_random_auction-Runs = Yields-bind _ _ (choose-Runs items) (λ chosen q.
      Yields-bind _ _ (lift-Runs l s0 _) (λ object q.
        Yields-bind _ _ (on_net-Runs l s0 _) (λ more q.
          Yields-bind _ _ (on_net-Runs l s0 _) (λ now q.
            Yields-bind {Q = Anything} _ _
              (Yields-ask _ (λ s h. (_, new_with_duration_lem l.crates laws _ _ _ _ _, tt)))
              (λ a q. publish_auction-Runs l s0 laws w a)))))

  add_u64_lem : (a b : ℕ) → add_u64 l w a b ≡ done ((a + b) % u64_mod)
  unfolding add_u64
  add_u64_lem a b = rw wraps refl

  bid_on_one_of-Runs : (auctions : List Auction) → Runs l s0 (bid_on_one_of l w auctions)
  unfolding bid_on_one_of
  bid_on_one_of-Runs auctions = Yields-bind _ _ (choose-Runs auctions) (λ chosen q.
      Yields-bind _ _ (lift-Runs l s0 _) (λ a q. Yields-bind _ _ (on_net-Runs l s0 _) (λ more q.
        Yields-bind {Q = Anything} _ _ (Yields-ask_any _ (λ s h. (_, add_u64_lem _ _))) (λ amount q.
          Yields-bind _ _ (on_net-Runs l s0 _) (λ now q.
            Yields-bind _ _ (node_of-Runs l s0) (λ node q.
              Yields-bind _ _ (lift-Runs l s0 _) (λ a' q. publish_auction-Runs l s0 laws w a')))))))

  bid_if_any-Runs : (auctions : List Auction) → Runs l s0 (bid_if_any l w auctions)
  unfolding bid_if_any
  bid_if_any-Runs [] = Yields-pure tt tt
  bid_if_any-Runs (a ∷ rest) = bid_on_one_of-Runs (a ∷ rest)

  bid_on_random_auction-Runs : Runs l s0 (bid_on_random_auction l w)
  unfolding bid_on_random_auction
  bid_on_random_auction-Runs = Yields-bind _ _ (locally-Runs l s0 _ (λ n s h. h)) (λ all q.
      Yields-bind _ _ (node_of-Runs l s0) (λ node q. bid_if_any-Runs (filter (can_bid node) all)))

  publish_all-Runs : (auctions : List Auction) → Runs l s0 (publish_all l w auctions)
  unfolding publish_all
  publish_all-Runs [] = Yields-pure tt tt
  publish_all-Runs (a ∷ rest) =
      Yields-bind _ _ (publish_auction-Runs l s0 laws w a) (λ u q. publish_all-Runs rest)

  run_automation_tick-Runs : Runs l s0 (run_automation_tick l w)
  unfolding run_automation_tick
  run_automation_tick-Runs = Yields-bind _ _ (on_net-Runs l s0 _) (λ now q.
      Yields-bind _ _
        (locally-Runs l s0 _ (λ n s h. close_expired_auctions-Sound _ _ _ _ s0 s h (w.clock n) now))
        (λ closed q. Yields-bind _ _ (publish_all-Runs closed) (λ u q.
          Yields-bind _ _ (on_net-Runs l s0 _) (λ action q.
            Yields-if (action == 0) _ _ create_random_auction-Runs
              (Yields-if (action == 1) _ _ bid_on_random_auction-Runs (Yields-pure tt tt))))))

  pub start-Runs : (rounds : ℕ) → Runs l s0 (start l w rounds)
  unfolding start
  start-Runs zero = Yields-pure tt tt
  start-Runs (suc rounds) = Yields-bind _ _ (node_of-Runs l s0) (λ node q.
      Yields-bind _ _
        (Yields-if node.config.automation_enabled _ _ (Yields-attempt _ run_automation_tick-Runs)
          (Yields-pure (ok tt) tt))
        (λ ticked q. start-Runs rounds))

  read_answer-Runs :
      (node : Node) (result : Option FindValueResult)
      → Runs l s0 {N = N} (read_answer l w node result)
  unfolding read_answer
  read_answer-Runs node none = Yields-pure _ tt
  read_answer-Runs node (some (found_value value)) =
      Yields-bind _ _ (lift-Runs l s0 _)
        (λ proto q. Yields-bind _ _ (lift-Runs l s0 _) (λ a q. Yields-pure _ tt))
  read_answer-Runs node (some (closest nodes)) =
      Yields-bind _ _ (lift-Runs l s0 _) (λ found q. Yields-pure _ tt)

  query-Runs : (key : Address) (n : NodeInfo) → Runs l s0 (query l w key n)
  unfolding query
  query-Runs key n = Yields-bind _ _ (find_value-Runs l s0 w n.ip n.port key) (λ response q.
      Yields-bind _ _ (node_of-Runs l s0) (λ node q. read_answer-Runs node response.result))

  query_each-Runs :
      (fuel : ℕ) (key : Address) (nodes : List NodeInfo) (queried : List String)
      → Runs l s0 (query_each l w fuel key nodes queried)
  unfolding query_each
  query_each-Runs zero key nodes queried = lift-Runs l s0 _
  query_each-Runs (suc fuel) key [] queried = Yields-pure none tt
  query_each-Runs (suc fuel) key (node ∷ rest) queried =
      Yields-if (any (str_eq (query_key node)) queried) _ _ (query_each-Runs fuel key rest queried)
        (Yields-bind _ _ (query-Runs key node) (λ answer q.
          answered answer
            (λ nodes. query_each-Runs fuel key (rest ++ nodes) (query_key node ∷ queried))))
    where
      answered :
          (answer : Answer)
          → ((nodes : List NodeInfo)
              → Runs l s0 (query_each l w fuel key (rest ++ nodes) (query_key node ∷ queried)))
          → Runs l s0 {N = N} (elim answer [
            | auction_found auction ↦ pure (some auction)
            | ask_also nodes ↦ query_each l w fuel key (rest ++ nodes) (query_key node ∷ queried)
          ])
      answered (auction_found a) more = Yields-pure (some a) tt
      answered (ask_also nodes) more = more nodes

  pub find_auction-Runs :
      (fuel : ℕ) (key : Address) → Runs l s0 (find_auction_in_network l w fuel key)
  unfolding find_auction_in_network search_from
  find_auction-Runs fuel key =
      Yields-bind _ _ (locally-Runs l s0 _ (λ n s h. h))
        (λ here q. Yields-bind _ _ (node_of-Runs l s0) (λ node q. look here node))
    where
      look :
          (here : Option Auction) (node : Node)
          → Runs l s0 {N = N} (search_from l w fuel key node here)
      look (some a) node = Yields-pure (some a) tt
      look none node = query_each-Runs fuel key _ []
