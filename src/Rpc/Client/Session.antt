-- ===== src/Rpc/Client/Session.antt =====
-- g_rpc/client.rs: `run` and `run_command` as a whole, whatever the network does.
use mathlib.Core.Path.{subst}
use kademlia_blockchain_auct.Prelude.{
  ℕ, zero, suc, ◌≡◌, refl, sym, false, String, List, ◌++◌, Bool, true,
}
use kademlia_blockchain_auct.Prelude.Sync.{done}
use kademlia_blockchain_auct.Prelude.Result.{Result, ok, err}
use kademlia_blockchain_auct.Prelude.Exec.Yields.{
  Anything, OnOk, Yields, Yields-pure, Yields-ask, Yields-attempt, Yields-if, Yields-bind,
}
use kademlia_blockchain_auct.Crates.{CratesLaws}
use kademlia_blockchain_auct.Address.{Address, IsAddress}
use kademlia_blockchain_auct.Peer.{NodeInfo}
use kademlia_blockchain_auct.Auction.Reach.{new_with_duration_lem}
use kademlia_blockchain_auct.Ledger.{Block}
use kademlia_blockchain_auct.Node.{Node, State}
use kademlia_blockchain_auct.Node.Run.{IsNode, Run-IsNode}
use kademlia_blockchain_auct.Node.Sound.{Sound-start}
use kademlia_blockchain_auct.Command.{
  Command, serve, create_auction, find_auction as find_command, bid,
}
use kademlia_blockchain_auct.Rpc.Message.{Libraries}
use kademlia_blockchain_auct.Rpc.Client.{World, SKademliaClient, ClientError, Client}
use kademlia_blockchain_auct.Rpc.Client.Publish.{node_of}
use kademlia_blockchain_auct.Rpc.Client.Join.{
  welcome, after_response, after_challenge, try_join, join_network,
}
use kademlia_blockchain_auct.Rpc.Client.Commands.{try_bootstrap, run, bid_on, perform, run_command}
use kademlia_blockchain_auct.Rpc.Client.Safe.{
  Safe, Runs, on_net-Runs, node_of-Runs, lift-Runs, bootstrap-Runs, challenge_resolution-Runs,
  insert_node-Runs, publish_auction-Runs,
}
use kademlia_blockchain_auct.Rpc.Client.Discover.{iterative_find_node-Runs}
use kademlia_blockchain_auct.Rpc.Client.Life.{start-Runs, find_auction-Runs}

module _ (l : Libraries) (laws : CratesLaws l.crates) (s0 : State) {N : Type 0} (w : World N) where
  module _ (start_node : IsNode l.auction_codec l.block_codec l.crates l.block_json s0)
      (own : IsAddress s0.node.node_info.id) (wraps : w.overflow_checks ≡ false) where
    node_of-own :
        Yields (Safe l s0 {N = N}) (λ (n : Node). IsAddress n.node_info.id) (node_of {N = N})
    unfolding node_of
    node_of-own = record {
      runs = λ s h.
          let (_, same, _, _) = Run-IsNode _ _ _ _ laws s0 s.state h.run start_node in
          (ok s.state.node, s, refl, h, subst (λ (n : NodeInfo). IsAddress n.id) (sym same) own);
    }

    welcome-Runs :
        (work search : ℕ) (discover_peers : Bool) (n : NodeInfo)
        → IsAddress n.id
        → Runs l s0 (welcome l w work search discover_peers n)
    unfolding welcome
    welcome-Runs work search discover_peers n hn =
        Yields-bind _ _ (insert_node-Runs l s0 laws w n hn) (λ u q.
          Yields-bind _ _ node_of-own (λ node own.
            Yields-if discover_peers _ _
              (iterative_find_node-Runs l laws s0 w search node.node_info.id own)
              (Yields-pure tt tt)))

    after_response-Runs :
        (work search : ℕ) (discover_peers : Bool) (retry : Client N (Unit {0}))
        (response : Result ClientError (Bool × NodeInfo))
        → Runs l s0 retry
        → OnOk (λ (r : Bool × NodeInfo). IsAddress r.1.id) response
        → Runs l s0 (after_response l w work search discover_peers retry response)
    unfolding after_response
    after_response-Runs work search discover_peers retry (err e) again valid = again
    after_response-Runs work search discover_peers retry (ok (accepted, n)) again valid =
        Yields-if accepted _ _ (welcome-Runs work search discover_peers n valid) again

    after_challenge-Runs :
        (work search : ℕ) (discover_peers : Bool) (node : Node) (retry : Client N (Unit {0}))
        (challenge : Result ClientError (String × ℕ))
        → Runs l s0 retry
        → Runs l s0 (after_challenge l w work search discover_peers node retry challenge)
    unfolding after_challenge
    after_challenge-Runs work search discover_peers node retry (err e) again = again
    after_challenge-Runs work search discover_peers node retry (ok (hash, difficulty)) again =
        Yields-bind _ _ (lift-Runs l s0 _) (λ solution q.
          Yields-bind _ _ (Yields-attempt _ (challenge_resolution-Runs l s0 w _ _ laws solution))
            (λ response valid.
              after_response-Runs work search discover_peers retry response again valid))

    try_join-Runs :
        (work search attempts : ℕ) (discover_peers : Bool)
        → Runs l s0 (try_join l w work search attempts discover_peers)
    unfolding try_join
    try_join-Runs work search zero discover_peers = lift-Runs l s0 _
    try_join-Runs work search (suc attempts) discover_peers =
        Yields-bind _ _ (node_of-Runs l s0) (λ node q.
          Yields-bind _ _ (Yields-attempt _ (bootstrap-Runs l s0 w _ _)) (λ challenge q.
            after_challenge-Runs work search discover_peers node _ challenge
              (try_join-Runs work search attempts discover_peers)))

    join_network-Runs :
        (work search : ℕ) (discover_peers : Bool)
        → Runs l s0 (join_network l w work search discover_peers)
    unfolding join_network
    join_network-Runs work search discover_peers = Yields-bind _ _ (node_of-Runs l s0) (λ node q.
        Yields-if _ _ _ (Yields-pure tt tt)
          (try_join-Runs work search node.config.n_max_retries discover_peers))

    bid_on-Runs :
        (fuel rounds : ℕ) (key : Address) (amount : ℕ)
        → Runs l s0 (bid_on l w fuel rounds key amount)
    unfolding bid_on
    bid_on-Runs fuel rounds key amount =
        Yields-bind _ _ (find_auction-Runs l laws s0 w wraps fuel key) (λ found q.
          Yields-bind _ _ (lift-Runs l s0 _) (λ a q. Yields-bind _ _ (on_net-Runs l s0 _) (λ now q.
            Yields-bind _ _ (node_of-Runs l s0) (λ node q.
              Yields-bind _ _ (lift-Runs l s0 _) (λ a' q. publish_auction-Runs l s0 laws w a')))))

    perform-Runs :
        (fuel rounds : ℕ) (command : Command) → Runs l s0 (perform l w fuel rounds command)
    unfolding perform
    perform-Runs fuel rounds serve = start-Runs l laws s0 w wraps rounds
    perform-Runs fuel rounds (create_auction object initial_value) =
        Yields-bind _ _ (on_net-Runs l s0 _) (λ now q.
          Yields-bind {Q = Anything} _ _
            (Yields-ask _ (λ s h. (_, new_with_duration_lem l.crates laws _ _ _ _ _, tt)))
            (λ a q. publish_auction-Runs l s0 laws w a))
    perform-Runs fuel rounds (find_command key) =
        Yields-bind _ _ (find_auction-Runs l laws s0 w wraps fuel key)
          (λ found q. Yields-bind _ _ (lift-Runs l s0 _) (λ a q. Yields-pure tt tt))
    perform-Runs fuel rounds (bid key amount) = bid_on-Runs fuel rounds key amount

    run_command-Runs :
        (fuel rounds : ℕ) (command : Command) → Runs l s0 (run_command l w fuel rounds command)
    unfolding run_command
    run_command-Runs fuel rounds command =
        Yields-bind _ _ (join_network-Runs fuel fuel false)
          (λ u q. perform-Runs fuel rounds command)

    run-Runs : (fuel rounds : ℕ) → Runs l s0 (run l w fuel rounds)
    unfolding run try_bootstrap
    run-Runs fuel rounds = Yields-bind _ _ (node_of-Runs l s0) (λ node q.
        Yields-if _ _ _ (start-Runs l laws s0 w wraps rounds) (
          Yields-bind _ _ (join_network-Runs fuel fuel true)
            (λ u q. start-Runs l laws s0 w wraps rounds)))

module _ (l : Libraries) {N : Type 0} where
  -- What a session leaves of the node that it started from: at its end, or when its fuel is used up
  -- (`out_of_fuel`).
  abbrev pub Stays : SKademliaClient N → Client N (Unit {0}) → Type 0
  Stays s session =
      (r : Result ClientError (Unit {0})) × (s' : SKademliaClient N) × (session s ≡ done (r, s'))
      × IsNode l.auction_codec l.block_codec l.crates l.block_json s'.state
      × (s'.state.node.node_info ≡ s.state.node.node_info)
      × (s'.state.node.config ≡ s.state.node.config)
      × ((new : List Block) × (s'.state.node.ledger.value ≡ s.state.node.ledger.value ++ new))

  -- In a build that wraps around on overflow, from a well-formed node with a valid id behind a healthy
  -- lock of its routing table, whatever the other nodes answer, the clock and the random numbers say,
  -- and the disk fails to do: both kinds of session, the peer's (`run`, any number of rounds) and the
  -- command's (`run_command`, any command), do not panic as far as their fuel goes. Where they end, or
  -- where they stand when the fuel is used up, the node is well-formed, with the same identity and
  -- configuration, and its ledger has only grown at its end.
  pub session-IsNode :
      (laws : CratesLaws l.crates) (w : World N) (fuel rounds : ℕ) (command : Command)
      (s : SKademliaClient N)
      → IsNode l.auction_codec l.block_codec l.crates l.block_json s.state
      → s.state.node.routing_table.table.poisoned ≡ false
      → IsAddress s.state.node.node_info.id
      → w.overflow_checks ≡ false
      → Stays s (run l w fuel rounds) × Stays s (run_command l w fuel rounds command)
  session-IsNode laws w fuel rounds command s h healthy own wraps = (
    stays (run l w fuel rounds) (run-Runs l laws s.state w h own wraps fuel rounds),
    stays (run_command l w fuel rounds command)
        (run_command-Runs l laws s.state w h own wraps fuel rounds command),
  )
    where
      stays : (session : Client N (Unit {0})) → Runs l s.state session → Stays s session
      stays session kept =
          let (r, s', e, sound, _) = kept.runs s (Sound-start _ _ _ _ s.state h healthy) in
          let (_, info, config, grows) = Run-IsNode _ _ _ _ laws s.state s'.state sound.run h in
          (r, s', e, sound.node, info, config, grows)
