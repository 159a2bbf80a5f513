-- ===== src/Rpc/Together/Handshake.antt =====
-- g_rpc/: a client joins the network of a server.
use mathlib.Core.Path.{subst}
use kademlia_blockchain_auct.Prelude.{
  ℕ, String, some, true, false, ◌≡◌, refl, ap, sym, ◌∙◌, if_true, if_false, str_eq_refl,
}
use kademlia_blockchain_auct.Prelude.Int.{ℤ, add_i64, ltb_ℤ}
use kademlia_blockchain_auct.Prelude.Assoc.{get-insert}
use kademlia_blockchain_auct.Prelude.Sync.{done}
use kademlia_blockchain_auct.Prelude.Result.{ok}
use kademlia_blockchain_auct.Prelude.Exec.{pure, lift, ◌>>=◌}
use kademlia_blockchain_auct.Crates.{CratesLaws, IsHash}
use kademlia_blockchain_auct.Address.{IsAddress}
use kademlia_blockchain_auct.Peer.{to_information, try_from-to_information}
use kademlia_blockchain_auct.Crypto.{solves}
use kademlia_blockchain_auct.Rpc.Message.{Libraries}
use kademlia_blockchain_auct.Rpc.Call.{Network, Method, to_bootstrap, to_challenge_resolution}
use kademlia_blockchain_auct.Rpc.Server.{Challenge, SKademliaServer, reply, receive-sign_and_wrap}
use kademlia_blockchain_auct.Rpc.Server.Handshake.{accepts, ten_minutes}
use kademlia_blockchain_auct.Rpc.Server.Serve.{handler, handle}
use kademlia_blockchain_auct.Rpc.Server.Challenges.{
  pending, new_challenge, after_bootstrap, bootstrap-reply, after_resolution,
  challenge_resolution-reply,
}
use kademlia_blockchain_auct.Rpc.Client.{World, SKademliaClient, remote}
use kademlia_blockchain_auct.Rpc.Client.Calls.{bootstrap, challenge_resolution}
use kademlia_blockchain_auct.Rpc.Together.{HasKeys, beside}
use kademlia_blockchain_auct.Rpc.Together.Exchange.{call-answered}

module _ (l : Libraries) (laws : CratesLaws l.crates) {M : Type 0} (others : Network M) (hash : ℕ)
    (time : Method → ℤ) (clock : ℕ → ℤ) (now : ℤ) where
  abbrev pub world : World (SKademliaServer M)
  world = beside l others hash time clock now

  -- What the messages of the handshake must survive.
  pub record Readable (difficulty nonce : ℕ) : Type 0 where
    pub asks :
        l.wires.bootstrap_request.decode (l.wires.bootstrap_request.encode (record {}))
        ≡ some (record {})
    pub challenge :
        l.wires.bootstrap_response.decode (
          l.wires.bootstrap_response.encode
            (record { hash = l.crates.u256_to_string hash; difficulty = difficulty }))
        ≡ some (record { hash = l.crates.u256_to_string hash; difficulty = difficulty })
    pub solution :
        l.wires.challenge_resolution_request.decode
          (l.wires.challenge_resolution_request.encode (record { nonce = nonce }))
        ≡ some (record { nonce = nonce })
    pub verdict :
        l.wires.challenge_resolution_response.decode
          (l.wires.challenge_resolution_response.encode (record { accepted = true }))
        ≡ some (record { accepted = true })

  module _ (c : SKademliaClient (SKademliaServer M)) (keys : HasKeys l c.state.node)
      (server_keys : HasKeys l c.net.state.node) (nonce : ℕ)
      (readable : Readable c.net.state.node.config.challenge_difficulty nonce) where
    abbrev pub id : String
    id = (to_information l.crates c.state.node.node_info).id

    abbrev pub challenged : SKademliaServer M
    challenged = after_bootstrap l hash (time to_bootstrap) id c.net

    pub bootstrap-challenged :
        (ip : String) (port : ℕ)
        → bootstrap l world.network ip port c
          ≡ done (
            ok (l.crates.u256_to_string hash, c.net.state.node.config.challenge_difficulty),
            record c { net = challenged },
          )
    unfolding bootstrap ◌>>=◌ remote pure handle handler to_information
    bootstrap-challenged ip port =
        let (response, e, _) =
          call-answered l laws others hash time clock now l.wires.bootstrap_request
            l.wires.bootstrap_response to_bootstrap c.state.node ip port (record {})
            (record {
              hash = l.crates.u256_to_string hash;
              difficulty = c.net.state.node.config.challenge_difficulty;
            })
            c.net challenged keys server_keys readable.challenge
            (λ m signed. bootstrap-reply l c.net (time to_bootstrap) hash m _ (
              receive-sign_and_wrap l l.wires.bootstrap_request c.state.node.node_info (record {})
                c.state.node.config.private_key c.state.node.config.public_key m laws keys.own
                keys.pair readable.asks signed)) in
        rw (e, bootstrap, ◌>>=◌, remote) refl

    abbrev pub resolved : SKademliaServer M
    resolved = after_resolution l id challenged

    module _
        (in_time : ltb_ℤ (add_i64 (time to_bootstrap) ten_minutes) (time to_challenge_resolution)
          ≡ false)
        (solved : solves l.crates
            (l.crates.u256_to_string hash)
            c.net.state.node.config.challenge_difficulty
            nonce
          ≡ true) where
      challenge : Challenge
      challenge = new_challenge l hash (time to_bootstrap) c.net

      accepted : accepts l.crates (time to_challenge_resolution) challenge nonce ≡ true
      unfolding accepts solves challenge
      accepted = if_false _ _ in_time ∙ solved

      waits : pending challenged id ≡ some challenge
      unfolding challenge
      waits = get-insert id id challenge c.net.challenges_map ∙ if_true _ _ (str_eq_refl id)

      pub resolution-accepted :
          (ip : String) (port : ℕ)
          → challenge_resolution l world.network ip port nonce (record c { net = challenged })
            ≡ done (ok (true, c.net.state.node.node_info), record c { net = resolved })
      unfolding challenge_resolution ◌>>=◌ remote pure lift handle handler to_information
      resolution-accepted ip port =
          let server = c.net.state.node in
          let valid : IsAddress server.node_info.id =
            subst IsHash (sym server_keys.own) (laws.sha256_law server.config.public_key) in
          let (response, e, named) =
            call-answered l laws others hash time clock now l.wires.challenge_resolution_request
              l.wires.challenge_resolution_response to_challenge_resolution c.state.node ip port
              (record { nonce = nonce }) (record { accepted = true }) challenged resolved keys
              server_keys readable.verdict
              (λ m signed.
                challenge_resolution-reply l challenged (time to_challenge_resolution) m _ challenge
                  (receive-sign_and_wrap l l.wires.challenge_resolution_request
                    c.state.node.node_info (record { nonce = nonce })
                    c.state.node.config.private_key c.state.node.config.public_key m laws keys.own
                    keys.pair readable.solution signed)
                  waits
                ∙ ap
                    (λ b.
                      reply l l.wires.challenge_resolution_response (record { accepted = b })
                        resolved)
                    accepted) in
          rw
            (
              e,
              named,
              try_from-to_information l.crates laws server.node_info valid,
              challenge_resolution,
              ◌>>=◌,
              remote,
            )
            refl
