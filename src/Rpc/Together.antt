-- ===== src/Rpc/Together.antt =====
-- g_rpc/: a client whose network is one server. Exchange is about one call, Handshake about joining.
pub mod Exchange
pub mod Handshake
pub mod Join
use kademlia_blockchain_auct.Prelude.{false, ℕ, String, List, Option, some, none, Bool, true, ◌≡◌}
use kademlia_blockchain_auct.Prelude.Int.{ℤ}
use kademlia_blockchain_auct.Prelude.Sync.{Outcome, done, panic}
use kademlia_blockchain_auct.Prelude.Result.{Result, ok, err}
use kademlia_blockchain_auct.Node.{Node}
use kademlia_blockchain_auct.Signed.{AuthenticatedMessage, IsKeyPair}
use kademlia_blockchain_auct.Rpc.Message.{Libraries}
use kademlia_blockchain_auct.Rpc.Call.{Network, Method}
use kademlia_blockchain_auct.Rpc.Server.{SKademliaServer, HandlerError}
use kademlia_blockchain_auct.Rpc.Server.Serve.{Request, handle}
use kademlia_blockchain_auct.Rpc.Client.{World}

-- The response on the wire: an error of the handler is an error of the call.
abbrev pub deliver :
    {M : Type 0}
    → Outcome (Result HandlerError AuthenticatedMessage × SKademliaServer M)
    → SKademliaServer M
    → Option AuthenticatedMessage × SKademliaServer M
deliver (done (ok response, s')) s = (some response, s')
deliver (done (err e, s')) s = (none, s')
deliver panic s = (none, s)

-- The keys of a node belong to its id, and sign.
pub record HasKeys (l : Libraries) (node : Node) : Type 0 where
  pub own : node.node_info.id.bytes ≡ l.crates.sha256 node.config.public_key
  pub pair : IsKeyPair l.signatures node.config.private_key node.config.public_key
  pub signs :
      (message : List ℕ)
      → (signature : List ℕ) × (l.signatures.sign node.config.private_key message ≡ some signature)

module _ (l : Libraries) {M : Type 0} (others : Network M) (hash : ℕ) (time : Method → ℤ)
    (clock : ℕ → ℤ) where
  abbrev pub request : Method → AuthenticatedMessage → Request
  request method message = record {
    method = method;
    message = message;
    now = time method;
    challenge_hash = hash;
    clock = clock;
  }

  -- The client's world: every connection leads to the server. `hash` is the server's random number,
  -- `time` when it handles a request of each method.
  abbrev pub beside : ℤ → World (SKademliaServer M)
  beside client_time = record {
    network = record {
      connect = λ url s. (true, s);
      send = λ url method message s. deliver (handle l others (request method message) s) s;
    };
    now = λ s. (client_time, s);
    draw = λ bound s. (0, s);
    overflow_checks = false;
    clock = λ s. clock;
  }
