-- ===== src/Rpc/Server.antt =====
-- g_rpc/server.rs: the state of `SKademliaServer`, and the beginning and the end that all its handlers
-- share.
pub mod Handshake
pub mod Judge
pub mod Lookup
pub mod Serve
pub mod Join
pub mod Answer
pub mod Run
pub mod Challenges
pub mod Promise
pub mod Waiting
pub mod Refuse
use mathlib.Core.Path.{subst}
use kademlia_blockchain_auct.Prelude.{ℕ, String, List, [], Option, some, ◌≡◌, refl, sym}
use kademlia_blockchain_auct.Prelude.Int.{ℤ}
use kademlia_blockchain_auct.Prelude.Sync.{done}
use kademlia_blockchain_auct.Prelude.Result.{
  Result, ok, map_err, ok_or, ◌>>=◌, bind-ok, map_err-ok, ok_or-ok, ok-injective,
}
use kademlia_blockchain_auct.Prelude.Exec.{Exec}
use kademlia_blockchain_auct.Crates.{CratesLaws, IsHash}
use kademlia_blockchain_auct.Address.{AddressError, IsAddress}
use kademlia_blockchain_auct.Peer.{
  NodeInfo, NodeInformation, PeerError, try_from, try_from-IsAddress, to_information,
  try_from-to_information,
}
use kademlia_blockchain_auct.Auction.Message.{AuctionError}
use kademlia_blockchain_auct.Node.{State, NodeError}
use kademlia_blockchain_auct.Signed.{
  AuthenticatedMessage, Wire, Status, IsKeyPair, sign_and_wrap, extract_and_verify,
}
use kademlia_blockchain_auct.Signed.Accept.{extract_and_verify-sign_and_wrap, sender-sign_and_wrap}
use kademlia_blockchain_auct.Rpc.Message.{Libraries}

-- An entry of `challenges_map`.
pub record Challenge : Type 0 where
  pub hash : ℕ
  pub difficulty : ℕ
  pub expiration : ℤ

-- `node` with its disk, the challenges that wait for a solution, and the network.
pub record SKademliaServer (N : Type 0) : Type 0 where
  pub state : State
  pub challenges_map : List (String × Challenge)
  pub net : N

unfoldable pub new : {N : Type 0} → State → N → SKademliaServer N
new state net = record { state = state; challenges_map = []; net = net }

-- The errors of the handlers.
pub data HandlerError : Type 0 where
  unverified : Status → HandlerError
  missing_sender missing_auction reply_not_signed : HandlerError
  invalid_sender : PeerError → HandlerError
  invalid_auction : AuctionError → HandlerError
  invalid_target invalid_key : AddressError → HandlerError
  auctions_unreadable : NodeError → HandlerError

abbrev pub Handler : Type 0 → Type 0 → Type 0
Handler N A = Exec (SKademliaServer N) HandlerError A

pub record Received (A : Type 0) : Type 0 where
  pub payload : A
  pub sender_proto : NodeInformation
  pub sender : NodeInfo

module _ (l : Libraries) where
  -- The beginning of each handler.
  unfoldable pub receive :
      {A : Type 0} → Wire A → AuthenticatedMessage → Result HandlerError (Received A)
  unfolding extract_and_verify try_from
  receive w request = do
    verified ← map_err unverified (extract_and_verify l.crates l.signatures w request)
    sender_proto ← ok_or missing_sender verified.1.sender
    sender ← map_err invalid_sender (try_from l.crates sender_proto)
    ok (record { payload = verified.0; sender_proto = sender_proto; sender = sender })

  -- The end of each handler.
  unfoldable pub reply : {N : Type 0} {B : Type 0} → Wire B → B → Handler N AuthenticatedMessage
  unfolding sign_and_wrap
  reply w message s =
      let node = s.state.node in
      done (
        map_err (λ e. reply_not_signed)
            (sign_and_wrap l.crates l.signatures w node.node_info message node.config.private_key
              node.config.public_key),
        s,
      )

  -- What a request that passes the beginning shows: it is verified, and names a sender that has a
  -- valid id.
  pub receive-ok :
      {A : Type 0} (w : Wire A) (request : AuthenticatedMessage) (r : Received A)
      → receive w request ≡ ok r
      → (m : AuthenticatedMessage) × (extract_and_verify l.crates l.signatures w request
          ≡ ok (r.payload, m))
        × (m.sender ≡ some r.sender_proto)
        × (try_from l.crates r.sender_proto ≡ ok r.sender)
  unfolding receive
  receive-ok w request r e =
      let (v, verified, e1) =
        bind-ok (map_err unverified (extract_and_verify l.crates l.signatures w request)) _ r e in
      let (p, named, e2) = bind-ok (ok_or missing_sender v.1.sender) _ r e1 in
      let (n, valid, e3) = bind-ok (map_err invalid_sender (try_from l.crates p)) _ r e2 in
      rw (sym (ok-injective {E = HandlerError} _ r e3)) (
        v.1,
        map_err-ok unverified _ v verified,
        ok_or-ok missing_sender _ p named,
        map_err-ok invalid_sender _ n valid,
      )

  pub sender-IsAddress :
      {A : Type 0} (w : Wire A) (request : AuthenticatedMessage) (r : Received A)
      → CratesLaws l.crates
      → receive w request ≡ ok r
      → IsAddress r.sender.id
  sender-IsAddress w request r laws e =
      let (m, _, _, valid) = receive-ok w request r e in
      try_from-IsAddress l.crates laws r.sender_proto r.sender valid

  -- A message that a node with a valid id signs, its id being the hash of its public key, passes the
  -- beginning of a handler.
  pub receive-sign_and_wrap :
      {A : Type 0} (w : Wire A) (n : NodeInfo) (message : A) (private_key public_key : List ℕ)
      (m : AuthenticatedMessage)
      → CratesLaws l.crates
      → n.id.bytes ≡ l.crates.sha256 public_key
      → IsKeyPair l.signatures private_key public_key
      → w.decode (w.encode message) ≡ some message
      → sign_and_wrap l.crates l.signatures w n message private_key public_key ≡ ok m
      → receive w m
        ≡ ok (record { payload = message; sender_proto = to_information l.crates n; sender = n })
  unfolding receive
  receive-sign_and_wrap w n message private_key public_key m laws own pair coded e =
      let valid : IsAddress n.id = subst IsHash (sym own) (laws.sha256_law public_key) in
      rw
        (
          extract_and_verify-sign_and_wrap l.crates laws l.signatures w n message private_key
              public_key m own pair coded e,
          sender-sign_and_wrap l.crates laws l.signatures w n message private_key public_key m e,
          try_from-to_information l.crates laws n valid,
          receive,
        )
        refl
