-- ===== src/Rpc/Call.antt =====
-- One remote call from the caller's side, the same in g_rpc/client.rs and g_rpc/server.rs: connect,
-- sign, send, verify the response.
use kademlia_blockchain_auct.Prelude.{ℕ, String, Option, some, none, Bool, if◌then◌else◌}
use kademlia_blockchain_auct.Prelude.Result.{Result, ok, err}
use kademlia_blockchain_auct.Peer.{PeerError}
use kademlia_blockchain_auct.Crypto.{generate_url}
use kademlia_blockchain_auct.Node.{Node}
use kademlia_blockchain_auct.Signed.{
  AuthenticatedMessage, Wire, Status, sign_and_wrap, extract_and_verify,
}
use kademlia_blockchain_auct.Rpc.Message.{Libraries}

-- The methods of the service.
pub data Method : Type 0 where
  to_ping to_store to_find_node to_find_value to_bootstrap to_challenge_resolution : Method

-- The network with everything behind it: any state, which each use may change. `connect` may fail, and
-- `send` too, also by an error of the remote node. Both are calls that come back: the code awaits them
-- without a timeout, and waits on when the other node never answers.
pub record Network (N : Type 0) : Type 0 where
  pub connect : String → N → Bool × N
  pub send : String → Method → AuthenticatedMessage → N → Option AuthenticatedMessage × N

pub data CallError : Type 0 where
  connect_failed sign_failed send_failed missing_sender : CallError
  refused : Status → CallError
  invalid_node : PeerError → CallError

module _ (l : Libraries) {N : Type 0} (network : Network N) {A : Type 0} {B : Type 0}
    (request : Wire A) (response : Wire B) (method : Method) where
  abbrev verify_response : Option AuthenticatedMessage → Result CallError (B × AuthenticatedMessage)
  verify_response none = err send_failed
  verify_response (some msg) = elim (extract_and_verify l.crates l.signatures response msg) [
    | ok answer ↦ ok answer
    | err status ↦ err (refused status)
  ]

  unfoldable pub call : Node → String → ℕ → A → N → Result CallError (B × AuthenticatedMessage) × N
  unfolding generate_url sign_and_wrap extract_and_verify
  call node node_ip node_port inner_request n =
      let target = generate_url node_ip node_port in
      let (connected, n1) = network.connect target n in
      if connected
      then elim (sign_and_wrap l.crates l.signatures request node.node_info inner_request
          node.config.private_key node.config.public_key) [
            | err _ ↦ (err sign_failed, n1)
            | ok auth_msg ↦
                let (answer, n2) = network.send target method auth_msg n1 in
                (verify_response answer, n2)
          ]
      else (err connect_failed, n1)
