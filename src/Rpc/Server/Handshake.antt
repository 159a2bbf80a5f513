-- ===== src/Rpc/Server/Handshake.antt =====
-- g_rpc/server.rs: `ping`, and the challenge that a node solves to join.
use kademlia_blockchain_auct.Prelude.{
  ℕ, ◌<>◌, show_u64, Option, none, some, Bool, false, leb, ◌≡◌, refl, if◌then◌else◌,
}
use kademlia_blockchain_auct.Prelude.Int.{ℤ, pos, add_i64, ltb_ℤ}
use kademlia_blockchain_auct.Prelude.Sync.{done}
use kademlia_blockchain_auct.Prelude.Result.{ok}
use kademlia_blockchain_auct.Prelude.Assoc.{get, insert, remove}
use kademlia_blockchain_auct.Prelude.Exec.{pure, lift, ◌>>=◌}
use kademlia_blockchain_auct.Crates.{Crates}
use kademlia_blockchain_auct.Crypto.{hash_data}
use kademlia_blockchain_auct.Signed.{AuthenticatedMessage}
use kademlia_blockchain_auct.Rpc.Message.{Libraries, BootstrapRequest, ChallengeResolutionRequest}
use kademlia_blockchain_auct.Rpc.Server.{
  Challenge, SKademliaServer, Handler, Received, receive, reply,
}

-- `chrono::Duration::minutes(10)` in milliseconds.
abbrev pub ten_minutes : ℤ
ten_minutes = pos 600000

-- The test of a solution, at the time `now`.
unfoldable pub accepts : Crates → ℤ → Challenge → ℕ → Bool
unfolding hash_data
accepts c now challenge nonce =
    if ltb_ℤ challenge.expiration now
    then false
    else leb challenge.difficulty
        (c.leading_zeros (hash_data c (c.u256_to_string challenge.hash <> show_u64 nonce)))

module _ (l : Libraries) {N : Type 0} where
  unfoldable pub ping : AuthenticatedMessage → Handler N AuthenticatedMessage
  ping request = do
    received ← lift (receive l l.wires.ping_request request)
    reply l l.wires.ping_response (record { message = "Pong" })

  -- `challenge_hash` is the random number of `generate_challenge`.
  unfoldable pub save_challenge : ℕ → ℤ → Received BootstrapRequest → Handler N ℕ
  unfolding insert add_i64
  save_challenge challenge_hash now received s =
      let difficulty = s.state.node.config.challenge_difficulty in
      let challenge : Challenge = record {
        hash = challenge_hash;
        difficulty = difficulty;
        expiration = add_i64 now ten_minutes;
      } in
      done (
        ok difficulty,
        record s { challenges_map = insert received.sender_proto.id challenge s.challenges_map },
      )

  unfoldable pub bootstrap : ℕ → ℤ → AuthenticatedMessage → Handler N AuthenticatedMessage
  bootstrap challenge_hash now request = do
    received ← lift (receive l l.wires.bootstrap_request request)
    difficulty ← save_challenge challenge_hash now received
    reply l l.wires.bootstrap_response
        (record { hash = l.crates.u256_to_string challenge_hash; difficulty = difficulty })

  -- `challenges_map` is locked twice: to read it here, and to change it in `remove_challenge`.
  unfoldable pub find_challenge : Received ChallengeResolutionRequest → Handler N (Option Challenge)
  unfolding get
  find_challenge received s = done (ok (get received.sender_proto.id s.challenges_map), s)

  unfoldable pub remove_challenge : Received ChallengeResolutionRequest → Handler N (Unit {0})
  unfolding remove
  remove_challenge received s =
      done (ok tt, record s { challenges_map = remove received.sender_proto.id s.challenges_map })

  -- What follows the lookup: the solution is judged, and the challenge removed.
  unfoldable pub settle_challenge :
      ℤ → Received ChallengeResolutionRequest → Option Challenge → Handler N Bool
  unfolding accepts
  settle_challenge now received none = pure false
  settle_challenge now received (some challenge) = do
    removed ← remove_challenge received
    pure (accepts l.crates now challenge received.payload.nonce)

  unfoldable pub resolve : ℤ → Received ChallengeResolutionRequest → Handler N Bool
  resolve now received = do
    challenge_opt ← find_challenge received
    settle_challenge now received challenge_opt

  unfoldable pub challenge_resolution : ℤ → AuthenticatedMessage → Handler N AuthenticatedMessage
  challenge_resolution now request = do
    received ← lift (receive l l.wires.challenge_resolution_request request)
    accepted ← resolve now received
    reply l l.wires.challenge_resolution_response (record { accepted = accepted })

  -- The two cases of `resolve` when no other handler runs between its two steps.
  pub resolve-none :
      (now : ℤ) (r : Received ChallengeResolutionRequest) (s : SKademliaServer N)
      → get r.sender_proto.id s.challenges_map ≡ none
      → resolve now r s ≡ done (ok false, s)
  unfolding resolve find_challenge settle_challenge ◌>>=◌ pure
  resolve-none now r s e = rw e refl

  pub resolve-some :
      (now : ℤ) (r : Received ChallengeResolutionRequest) (challenge : Challenge)
      (s : SKademliaServer N)
      → get r.sender_proto.id s.challenges_map ≡ some challenge
      → resolve now r s
        ≡ done (
          ok (accepts l.crates now challenge r.payload.nonce),
          record s { challenges_map = remove r.sender_proto.id s.challenges_map },
        )
  unfolding resolve find_challenge settle_challenge remove_challenge ◌>>=◌ pure
  resolve-some now r challenge s e = rw e refl
