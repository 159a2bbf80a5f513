-- ===== src/Rpc/Server/Join.antt =====
-- g_rpc/server.rs: `ping` and the handlers of the handshake return, and keep what holds of the node and of
-- the challenges.
use kademlia_blockchain_auct.Prelude.{◌≡◌, refl, String, List, Option-cases, false, inl, inr}
use kademlia_blockchain_auct.Prelude.Int.{ℤ}
use kademlia_blockchain_auct.Prelude.Result.{ok}
use kademlia_blockchain_auct.Prelude.Assoc.{get, insert, remove}
use kademlia_blockchain_auct.Prelude.Exec.Yields.{
  Anything, OnOk-Anything, Yields, Yields-result, Yields-bind,
}
use kademlia_blockchain_auct.Node.{State}
use kademlia_blockchain_auct.Node.Sound.{Sound}
use kademlia_blockchain_auct.Signed.{AuthenticatedMessage, Wire}
use kademlia_blockchain_auct.Rpc.Message.{Libraries, BootstrapRequest, ChallengeResolutionRequest}
use kademlia_blockchain_auct.Rpc.Call.{to_bootstrap, to_challenge_resolution}
use kademlia_blockchain_auct.Rpc.Server.{
  Challenge, SKademliaServer, Handler, Received, receive, reply,
}
use kademlia_blockchain_auct.Rpc.Server.Handshake.{
  accepts, ping, save_challenge, bootstrap, resolve, resolve-none, resolve-some,
  challenge_resolution,
}
use kademlia_blockchain_auct.Rpc.Server.Serve.{Request}

module _ (l : Libraries) (C : List (String × Challenge) → Type 0) where
  -- A server whose node a run from `s0` has led to, and whose challenges have `C`.
  abbrev pub Good : State → {N : Type 0} → SKademliaServer N → Type 0
  Good s0 s =
      Sound l.auction_codec l.block_codec l.crates l.block_json s0 s.state × C s.challenges_map

  -- The method returns, and leaves such a server.
  abbrev pub Serves : State → {N : Type 0} {A : Type 0} → Handler N A → Type 0
  Serves s0 m = Yields (Good s0) Anything m

  -- The challenge that the request may add, and the one that it may remove, keep `C`.
  pub record Allows (r : Request) : Type 0 where
    pub adds :
        (received : Received BootstrapRequest)
        → r.method ≡ to_bootstrap
        → receive l l.wires.bootstrap_request r.message ≡ ok received
        → (challenge : Challenge) (m : List (String × Challenge)) → C m
        → C (insert received.sender_proto.id challenge m)
    pub drops :
        (received : Received ChallengeResolutionRequest)
        → r.method ≡ to_challenge_resolution
        → receive l l.wires.challenge_resolution_request r.message ≡ ok received
        → (m : List (String × Challenge)) → C m
        → C (remove received.sender_proto.id m)

module _ (l : Libraries) {N : Type 0} (s0 : State) (C : List (String × Challenge) → Type 0) where
  pub reply-Serves :
      {B : Type 0} (w : Wire B) (message : B) → Serves l C s0 {N = N} (reply l w message)
  unfolding reply
  reply-Serves w message = record { runs = λ s h. (_, s, refl, h, OnOk-Anything _) }

  pub ping-Serves : (request : AuthenticatedMessage) → Serves l C s0 {N = N} (ping l request)
  unfolding ping
  ping-Serves request = Yields-bind _ _ (Yields-result _) (λ r e. reply-Serves _ _)

  pub bootstrap-Serves :
      (r : Request)
      → r.method ≡ to_bootstrap
      → Allows l C r
      → Serves l C s0 {N = N} (bootstrap l r.challenge_hash r.now r.message)
  unfolding bootstrap save_challenge
  bootstrap-Serves r e allows = Yields-bind _ _ (Yields-result _) (λ received ok_received.
      Yields-bind {Q = Anything} _ _
        (record {
          runs = λ s h.
              (_, _, refl, (h.0, allows.adds received e ok_received _ s.challenges_map h.1), tt);
        })
        (λ difficulty q. reply-Serves _ _))

  resolve-Serves :
      (now : ℤ) (r : Received ChallengeResolutionRequest)
      → ((m : List (String × Challenge)) → C m → C (remove r.sender_proto.id m))
      → Serves l C s0 {N = N} (resolve l now r)
  resolve-Serves now r drops = record {
    runs = λ s h. elim (Option-cases (get r.sender_proto.id s.challenges_map)) [
      | inl e ↦ (ok false, s, resolve-none l now r s e, h, tt)
      | inr (challenge, e) ↦ (
        ok (accepts l.crates now challenge r.payload.nonce),
        record s { challenges_map = remove r.sender_proto.id s.challenges_map },
        resolve-some l now r challenge s e,
        (h.0, drops s.challenges_map h.1),
        tt,
      )
    ];
  }

  pub challenge_resolution-Serves :
      (r : Request)
      → r.method ≡ to_challenge_resolution
      → Allows l C r
      → Serves l C s0 {N = N} (challenge_resolution l r.now r.message)
  unfolding challenge_resolution
  challenge_resolution-Serves r e allows =
      Yields-bind _ _ (Yields-result _) (λ received ok_received.
        Yields-bind _ _ (resolve-Serves r.now received (allows.drops received e ok_received))
          (λ b q. reply-Serves _ _))
