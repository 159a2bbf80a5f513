-- ===== src/Rpc/Together/Join.antt =====
-- g_rpc/: `join_network` of a client whose bootstrap node is the server.
use mathlib.Core.Path.{subst}
use kademlia_blockchain_auct.Prelude.{
  ℕ, suc, ◌<◌, u64_mod, Bool, arith, if◌then◌else◌, some, true, false, ◌≡◌, ◌≢◌, refl, ap, sym, ◌∙◌,
  ◌==◌, if_false,
}
use kademlia_blockchain_auct.Prelude.Int.{ℤ, add_i64, ltb_ℤ}
use kademlia_blockchain_auct.Prelude.Sync.{done, done-injective}
use kademlia_blockchain_auct.Prelude.Result.{ok}
use kademlia_blockchain_auct.Prelude.Exec.{pure, lift, attempt, ◌>>=◌}
use kademlia_blockchain_auct.Crates.{CratesLaws, IsHash}
use kademlia_blockchain_auct.Address.{IsAddress}
use kademlia_blockchain_auct.Peer.{NodeInfo, to_information}
use kademlia_blockchain_auct.Crypto.{solves}
use kademlia_blockchain_auct.Crypto.Work.{proof_of_work-least}
use kademlia_blockchain_auct.Node.{
  Node, State, insert_node_to_routing_table, find_node_in_routing_table,
}
use kademlia_blockchain_auct.Rpc.Message.{Libraries}
use kademlia_blockchain_auct.Rpc.Call.{Network, Method, to_bootstrap, to_challenge_resolution}
use kademlia_blockchain_auct.Rpc.Server.{SKademliaServer}
use kademlia_blockchain_auct.Rpc.Server.Handshake.{ten_minutes}
use kademlia_blockchain_auct.Rpc.Client.{World, SKademliaClient, Client, on_net}
use kademlia_blockchain_auct.Rpc.Client.Publish.{node_of, insert_node_at, insert_node}
use kademlia_blockchain_auct.Rpc.Client.Join.{
  welcome, after_response, after_challenge, try_join, join_network,
}
use kademlia_blockchain_auct.Rpc.Together.{HasKeys}
use kademlia_blockchain_auct.Node.Run.{IsNode, Run-IsNode}
use kademlia_blockchain_auct.Node.Sound.{Sound, Sound-start, insert_node-Sound}
use kademlia_blockchain_auct.Rpc.Client.Find.{iterative_find_node}
use kademlia_blockchain_auct.Rpc.Client.Search.{iterative_find_node-Ends}
use kademlia_blockchain_auct.Node.Contact.{find_node-insert_node}
use kademlia_blockchain_auct.Rpc.Together.Handshake.{
  world, Readable, resolved, bootstrap-challenged, resolution-accepted,
}

module _ (l : Libraries) (laws : CratesLaws l.crates) {M : Type 0} (others : Network M) (hash : ℕ)
    (time : Method → ℤ) (clock : ℕ → ℤ) (now : ℤ) (c : SKademliaClient (SKademliaServer M))
    (keys : HasKeys l c.state.node) (server_keys : HasKeys l c.net.state.node)
    (readable : (k : ℕ)
      → k < u64_mod
      → Readable l laws others hash time clock now c.net.state.node.config.challenge_difficulty k)
    (in_time : ltb_ℤ (add_i64 (time to_bootstrap) ten_minutes) (time to_challenge_resolution)
      ≡ false)
    (n fuel : ℕ)
    (solved : solves l.crates
        (l.crates.u256_to_string hash)
        c.net.state.node.config.challenge_difficulty
        n
      ≡ true)
    (small : n < u64_mod) (enough : n < fuel) where
  abbrev w : World (SKademliaServer M)
  w = world l laws others hash time clock now

  -- The attempt ends in the welcome of the server.
  welcomed :
      (attempts : ℕ)
      → (c' : SKademliaClient (SKademliaServer M)) × (c'.state ≡ c.state)
        × ((rounds : ℕ) (discover_peers : Bool)
            → try_join l w fuel rounds (suc attempts) discover_peers c
              ≡ welcome l w fuel rounds discover_peers c.net.state.node.node_info c')
  unfolding try_join after_challenge after_response ◌>>=◌ attempt node_of lift
  welcomed attempts =
      let (least, found, le, good, _) =
        proof_of_work-least l.crates (l.crates.u256_to_string hash)
          c.net.state.node.config.challenge_difficulty n fuel solved small enough in
      let ip = c.state.node.config.bootstrap_peer_ip in
      let port = c.state.node.config.bootstrap_peer_port in
      let e1 =
        bootstrap-challenged l laws others hash time clock now c keys server_keys least
          (readable least (omega arith)) ip port in
      let e2 =
        resolution-accepted l laws others hash time clock now c keys server_keys least
          (readable least (omega arith)) in_time good ip port in
      (
        record c {
          net =
              resolved l laws others hash time clock now c keys server_keys least
                (readable least (omega arith));
        },
        refl,
        λ rounds discover_peers.
            rw (e1, try_join, ◌>>=◌, attempt)
              (rw (found, e2, after_challenge, ◌>>=◌, attempt, lift) refl),
      )

  abbrev server : NodeInfo
  server = c.net.state.node.node_info

  -- The server is in the client's routing table.
  record Inserted (node : Node) : Type 0 where
    pub inserted : insert_node_to_routing_table l.crates now server c.state.node ≡ done node
    pub found :
        find_node_in_routing_table l.crates server.id node
        ≡ done (some (to_information l.crates server))
    pub node_info : node.node_info ≡ c.state.node.node_info
    pub sound :
        Sound l.auction_codec l.block_codec l.crates l.block_json c.state
          (record c.state { node = node })

  inserts :
      IsNode l.auction_codec l.block_codec l.crates l.block_json c.state
      → c.state.node.routing_table.table.poisoned ≡ false
      → server.id ≢ c.state.node.routing_table.id
      → (node : Node) × Inserted node
  inserts h healthy ne =
      let valid : IsAddress server.id =
        subst IsHash (sym server_keys.own) (laws.sha256_law c.net.state.node.config.public_key) in
      let (node, e, f) =
        find_node-insert_node l.crates laws now c.state.node server h.table valid h.room healthy
          ne in
      let (node', e', sound') =
        insert_node-Sound l.auction_codec l.block_codec l.crates l.block_json c.state c.state
          (Sound-start _ _ _ _ c.state h healthy) laws now server valid in
      let sound =
        subst
          (λ (n : Node).
            Sound l.auction_codec l.block_codec l.crates l.block_json c.state
              (record c.state { node = n }))
          (done-injective node' node (sym e' ∙ e)) sound' in
      let (_, info, _, _) =
        Run-IsNode _ _ _ _ laws c.state (record c.state { node = node }) sound.run h in
      (node, record { inserted = e; found = f; node_info = info; sound = sound })

  -- What `welcome` does after the insertion.
  welcome-inserts :
      (rounds : ℕ) (discover_peers : Bool) (c' : SKademliaClient (SKademliaServer M)) (node : Node)
      → c'.state ≡ c.state
      → insert_node_to_routing_table l.crates now server c.state.node ≡ done node
      → welcome l w fuel rounds discover_peers server c'
        ≡ (if discover_peers then iterative_find_node l w rounds node.node_info.id else pure tt)
            (record c' { state = record c'.state { node = node } })
  unfolding welcome insert_node ◌>>=◌ on_net insert_node_at node_of
  welcome-inserts rounds discover_peers c' node same e =
      let e' : insert_node_to_routing_table l.crates now server c'.state.node ≡ done node =
        ap (λ (s : State). insert_node_to_routing_table l.crates now server s.node) same ∙ e in
      rw (e', welcome, insert_node, ◌>>=◌, on_net, insert_node_at) refl

  joins :
      (rounds attempts : ℕ) (discover_peers : Bool)
      → c.state.node.config.n_max_retries ≡ suc attempts
      → (c.state.node.node_info.port == c.state.node.config.bootstrap_peer_port) ≡ false
      → join_network l w fuel rounds discover_peers c
        ≡ try_join l w fuel rounds (suc attempts) discover_peers c
  unfolding join_network ◌>>=◌ node_of
  joins rounds attempts discover_peers retries port =
      ap (λ (m : Client (SKademliaServer M) (Unit {0})). m c) (if_false _ _ port)
      ∙ ap (λ k. try_join l w fuel rounds k discover_peers c) retries

  -- A client whose bootstrap node is the server, each with keys that belong to its id, and messages
  -- with `u64` nonces that are read back: if some `u64` nonce below the fuel solves the challenge,
  -- the server handles the solution before the challenge expires, the client has an attempt, and
  -- another id and port than the bootstrap node's, then `join_network` succeeds: the server has
  -- accepted the nonce that the client found, and is inserted into the client's routing table and
  -- found there under its id. Without a search for peers the client ends there; with one, the search
  -- that follows from there ends within some number of rounds, without a panic or an error, and
  -- leaves a well-formed node.
  pub join_network-joined :
      (rounds attempts : ℕ)
      → c.state.node.config.n_max_retries ≡ suc attempts
      → (c.state.node.node_info.port == c.state.node.config.bootstrap_peer_port) ≡ false
      → IsNode l.auction_codec l.block_codec l.crates l.block_json c.state
      → c.state.node.routing_table.table.poisoned ≡ false
      → server.id ≢ c.state.node.routing_table.id
      → (node : Node) × (insert_node_to_routing_table l.crates now server c.state.node ≡ done node)
        × (find_node_in_routing_table l.crates server.id node
            ≡ done (some (to_information l.crates server)))
        × ((c' : SKademliaClient (SKademliaServer M)) × (join_network l w fuel rounds false c
              ≡ done (ok tt, c'))
            × (c'.state ≡ record c.state { node = node }))
        × ((count : ℕ) × (c1 c2 : SKademliaClient (SKademliaServer M)) × (c1.state
              ≡ record c.state { node = node })
            × (join_network l w fuel count true c
                ≡ iterative_find_node l w count node.node_info.id c1)
            × (join_network l w fuel count true c ≡ done (ok tt, c2))
            × IsNode l.auction_codec l.block_codec l.crates l.block_json c2.state)
  unfolding pure
  join_network-joined rounds attempts retries port h healthy ne =
      let (node, i) = inserts h healthy ne in
      let (c', same, tried) = welcomed attempts in
      let to : SKademliaClient (SKademliaServer M) → SKademliaClient (SKademliaServer M) =
        λ (d : SKademliaClient (SKademliaServer M)). record d {
          state = record d.state { node = node };
        } in
      let state = ap (λ (s : State). record s { node = node }) same in
      let own : IsAddress node.node_info.id =
        subst IsAddress (sym (ap (λ (x : NodeInfo). x.id) i.node_info))
          (subst IsHash (sym keys.own) (laws.sha256_law c.state.node.config.public_key)) in
      let sound =
        subst (λ (s : State). Sound l.auction_codec l.block_codec l.crates l.block_json c.state s)
          (sym state) i.sound in
      let (count, c2, ends, h2) =
        iterative_find_node-Ends l laws w node.node_info.id (to c') sound.node sound.healthy own in
      let goes : (k : ℕ)
          → join_network l w fuel k true c ≡ iterative_find_node l w k node.node_info.id (to c') =
        λ k.
          joins k attempts true retries port
          ∙ tried k true
          ∙ welcome-inserts k true c' node same i.inserted in
      (
        node,
        i.inserted,
        i.found,
        (
          to c',
          joins rounds attempts false retries port
              ∙ tried rounds false
              ∙ welcome-inserts rounds false c' node same i.inserted,
          state,
        ),
        (count, to c', c2, state, goes count, goes count ∙ ends, h2),
      )
