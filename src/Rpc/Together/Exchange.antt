-- ===== src/Rpc/Together/Exchange.antt =====
-- g_rpc/: one call that the server answers.
use kademlia_blockchain_auct.Prelude.{ℕ, String, some, ◌≡◌, refl, ap, ◌∙◌}
use kademlia_blockchain_auct.Prelude.Int.{ℤ}
use kademlia_blockchain_auct.Prelude.Sync.{done}
use kademlia_blockchain_auct.Prelude.Result.{ok, map_err}
use kademlia_blockchain_auct.Crates.{CratesLaws}
use kademlia_blockchain_auct.Peer.{to_information}
use kademlia_blockchain_auct.Node.{Node}
use kademlia_blockchain_auct.Signed.{AuthenticatedMessage, Wire, sign_and_wrap}
use kademlia_blockchain_auct.Signed.Accept.{
  extract_and_verify-sign_and_wrap, sender-sign_and_wrap, is_signed,
}
use kademlia_blockchain_auct.Rpc.Message.{Libraries}
use kademlia_blockchain_auct.Rpc.Call.{Network, Method, call, refused}
use kademlia_blockchain_auct.Rpc.Server.{SKademliaServer, reply}
use kademlia_blockchain_auct.Rpc.Server.Serve.{handle}
use kademlia_blockchain_auct.Rpc.Together.{HasKeys, request, beside}

module _ (l : Libraries) (laws : CratesLaws l.crates) where
  abbrev pub SignsAs : {A : Type 0} → Wire A → Node → A → AuthenticatedMessage → Type 0
  SignsAs w node message m =
      sign_and_wrap l.crates l.signatures w node.node_info message node.config.private_key
        node.config.public_key
      ≡ ok m

  SignsAs-node :
      {A : Type 0} (w : Wire A) (node : Node) (message : A)
      → HasKeys l node
      → (m : AuthenticatedMessage) × SignsAs w node message m
  SignsAs-node w node message keys =
      let (signature, e) = keys.signs (w.encode message) in
      (_, is_signed l.crates laws l.signatures w node.node_info message _ _ signature e)

  module _ {M : Type 0} (others : Network M) (hash : ℕ) (time : Method → ℤ) (clock : ℕ → ℤ)
      (now : ℤ) where
    -- If the handler replies to every form of the signed request in the same way, the caller gets the
    -- reply, signed by the server.
    pub call-answered :
        {A : Type 0} {B : Type 0} (wa : Wire A) (wb : Wire B) (method : Method) (node : Node)
        (node_ip : String) (node_port : ℕ) (a : A) (b : B) (s s1 : SKademliaServer M)
        → HasKeys l node
        → HasKeys l s1.state.node
        → wb.decode (wb.encode b) ≡ some b
        → ((m : AuthenticatedMessage)
            → SignsAs wa node a m
            → handle l others (request l others hash time clock method m) s ≡ reply l wb b s1)
        → (response : AuthenticatedMessage) × (call l
              (beside l others hash time clock now).network
              wa
              wb
              method
              node
              node_ip
              node_port
              a
              s
            ≡ (ok (b, response), s1))
          × (response.sender ≡ some (to_information l.crates s1.state.node.node_info))
    unfolding call reply
    call-answered wa wb method node node_ip node_port a b s s1 keys server_keys coded handles =
        let server = s1.state.node in
        let (m, signed) = SignsAs-node wa node a keys in
        let (response, replied) = SignsAs-node wb server b server_keys in
        let handled : handle l others (request l others hash time clock method m) s
            ≡ done (ok response, s1) =
          handles m signed ∙ rw (replied, reply) refl in
        let verified =
          extract_and_verify-sign_and_wrap l.crates laws l.signatures wb server.node_info b
            server.config.private_key server.config.public_key response server_keys.own
            server_keys.pair coded replied in
        (
          response,
          rw (signed, handled, call) (ap (λ r. (map_err refused r, s1)) verified),
          sender-sign_and_wrap l.crates laws l.signatures wb server.node_info b _ _ response
              replied,
        )
