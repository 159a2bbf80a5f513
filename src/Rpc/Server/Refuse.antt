-- ===== src/Rpc/Server/Refuse.antt =====
-- g_rpc/server.rs: requests that are not signed by their sender.
use kademlia_blockchain_auct.Prelude.{◌≡◌, refl, some, true, inl, inr}
use kademlia_blockchain_auct.Prelude.Sync.{done}
use kademlia_blockchain_auct.Prelude.Result.{err}
use kademlia_blockchain_auct.Prelude.Exec.{bind-lift_err}
use kademlia_blockchain_auct.Crates.{CratesLaws}
use kademlia_blockchain_auct.Crypto.{format_as_hex_string}
use kademlia_blockchain_auct.Peer.{NodeInformation}
use kademlia_blockchain_auct.Signed.{AuthenticatedMessage, Wire, hash_bytes}
use kademlia_blockchain_auct.Signed.Accept.{extract_and_verify_lem}
use kademlia_blockchain_auct.Rpc.Message.{Libraries}
use kademlia_blockchain_auct.Rpc.Call.{
  Network, Method, to_ping, to_store, to_find_node, to_find_value, to_bootstrap,
  to_challenge_resolution,
}
use kademlia_blockchain_auct.Rpc.Server.{SKademliaServer, HandlerError, unverified, receive}
use kademlia_blockchain_auct.Rpc.Server.Handshake.{ping, bootstrap, challenge_resolution}
use kademlia_blockchain_auct.Rpc.Server.Lookup.{store, find_node, find_value}
use kademlia_blockchain_auct.Rpc.Server.Serve.{Request, handler, handle}

module _ (l : Libraries) (laws : CratesLaws l.crates) where
  -- The message verifies under its public key, and its sender's id is the hash of that key.
  abbrev pub IsSigned : AuthenticatedMessage → Type 0
  IsSigned m =
      (l.signatures.verify m.payload m.signature m.public_key ≡ some true)
      × ((sender : NodeInformation) × (m.sender ≡ some sender)
          × (sender.id
              ≡ format_as_hex_string l.crates (hash_bytes l.crates l.signatures m.public_key)))

  receive-unsigned :
      {A : Type 0} (w : Wire A) (m : AuthenticatedMessage)
      → ¬ IsSigned m
      → (e : HandlerError) × (receive l w m ≡ err e)
  unfolding receive
  receive-unsigned w m unsigned = elim (extract_and_verify_lem l.crates laws l.signatures w m) [
    | inl (payload, _, (verified, named, _)) ↦ absurd (unsigned (verified, named))
    | inr (bad, e) ↦ (unverified bad, rw (e, receive) refl)
  ]

  module _ {N : Type 0} (network : Network N) where
    handler-unsigned :
        (method : Method) (r : Request) (s : SKademliaServer N)
        → ¬ IsSigned r.message
        → (e : HandlerError) × (handler l network method r s ≡ done (err e, s))
    unfolding handler ping store find_node find_value bootstrap challenge_resolution
    handler-unsigned to_ping r s unsigned =
        let (x, e) = receive-unsigned l.wires.ping_request r.message unsigned in
        (x, bind-lift_err _ _ x s e)
    handler-unsigned to_store r s unsigned =
        let (x, e) = receive-unsigned l.wires.store_request r.message unsigned in
        (x, bind-lift_err _ _ x s e)
    handler-unsigned to_find_node r s unsigned =
        let (x, e) = receive-unsigned l.wires.find_node_request r.message unsigned in
        (x, bind-lift_err _ _ x s e)
    handler-unsigned to_find_value r s unsigned =
        let (x, e) = receive-unsigned l.wires.find_value_request r.message unsigned in
        (x, bind-lift_err _ _ x s e)
    handler-unsigned to_bootstrap r s unsigned =
        let (x, e) = receive-unsigned l.wires.bootstrap_request r.message unsigned in
        (x, bind-lift_err _ _ x s e)
    handler-unsigned to_challenge_resolution r s unsigned =
        let (x, e) = receive-unsigned l.wires.challenge_resolution_request r.message unsigned in
        (x, bind-lift_err _ _ x s e)

    -- A request that does not verify under its public key, or whose sender's id is not the hash of that
    -- key, is refused by every handler with an error, and the server stays as it was: no
    -- challenge, auction or contact is added, and nothing is sent.
    pub handle-unsigned :
        (r : Request) (s : SKademliaServer N)
        → ¬ IsSigned r.message
        → (e : HandlerError) × (handle l network r s ≡ done (err e, s))
    unfolding handle
    handle-unsigned r s unsigned = handler-unsigned r.method r s unsigned
