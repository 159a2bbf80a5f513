-- ===== src/Tests/Remote.antt =====
-- Runs of a server and of a client, with the signatures of Messages and messages of one or no number.
use kademlia_blockchain_auct.Prelude.{
  Bool, ◌↔◌, ℕ, ◌≡◌, refl, arith, String, List, [], ◌∷◌, ◌++◌, Option, some, none, true, false,
  length,
}
use kademlia_blockchain_auct.Prelude.{as_bytes, show_u64}
use kademlia_blockchain_auct.Prelude.BigEndian.{big_endian, to_big_endian}
use kademlia_blockchain_auct.Prelude.Int.{pos, add_i64, ltb_ℤ}
use kademlia_blockchain_auct.Prelude.Sync.{done}
use kademlia_blockchain_auct.Prelude.Result.{Result, ok, err}
use kademlia_blockchain_auct.Peer.{NodeInformation, to_information}
use kademlia_blockchain_auct.Crypto.{solves}
use kademlia_blockchain_auct.Address.{address_eq, to_string}
use kademlia_blockchain_auct.Ledger.{Block}
use kademlia_blockchain_auct.Routing.Table.{new_table}
use kademlia_blockchain_auct.Signed.{AuthenticatedMessage, Wire, sign_and_wrap}
use kademlia_blockchain_auct.Rpc.Message.{
  Wires, Libraries, BootstrapRequest, ChallengeResolutionRequest,
}
use kademlia_blockchain_auct.Rpc.Call.{Network, to_bootstrap, to_challenge_resolution, to_find_node}
use kademlia_blockchain_auct.Rpc.Server.{
  SKademliaServer, HandlerError, Received, receive, receive-sign_and_wrap, reply,
}
use kademlia_blockchain_auct.Rpc.Server.Serve.{Request, handle, serve}
use kademlia_blockchain_auct.Rpc.Server.Run.{IsSoundNode, serve-IsNode, nodes_vector-IsAnswer}
use kademlia_blockchain_auct.Prelude.Assoc.{get}
use kademlia_blockchain_auct.Rpc.Server.Handshake.{ten_minutes, bootstrap, challenge_resolution}
use kademlia_blockchain_auct.Rpc.Server.Lookup.{nodes_vector}
use kademlia_blockchain_auct.Rpc.Server.Answer.{IsAnswer}
use kademlia_blockchain_auct.Rpc.Server.Promise.{Solves, handshake_refines}
use kademlia_blockchain_auct.Rpc.Server.Challenges.{pending, issue, settle, new_challenge}
use kademlia_blockchain_auct.Rpc.Server.Waiting.{
  NoBootstrap, NoResolution, challenge_resolution-unissued, challenge_resolution-bootstrap,
}
use kademlia_blockchain_auct.Rpc.Server.Refuse.{IsSigned, handle-unsigned}
use kademlia_blockchain_auct.Tests.Sample.{sample_crates, sample_laws}
use kademlia_blockchain_auct.Tests.Data.{addr, addr-IsAddress, peer}
use kademlia_blockchain_auct.Tests.Nodes.{
  auction_codec, block_codec, block_json, with_poster, with_poster-IsNode,
}
use kademlia_blockchain_auct.Tests.Messages.{repeated, key, key-IsKeyPair, owner}

-- A message without fields, and messages that are never read.
abbrev pub empty : {A : Type 0} → A → Wire A
empty a = record { encode = λ m. []; decode = λ bytes. some a }

abbrev unread : {A : Type 0} → Wire A
unread = record { encode = λ m. []; decode = λ bytes. none }

abbrev nonce_of : List ℕ → Option ChallengeResolutionRequest
nonce_of [] = none
nonce_of (n ∷ bytes) = some (record { nonce = n })

abbrev pub sample_wires : Wires
sample_wires = record {
  ping_request = empty (record {});
  ping_response = unread;
  store_request = unread;
  store_response = unread;
  find_node_request = unread;
  find_node_response =
      empty (record { closest_nodes = to_information sample_crates (peer 9) ∷ [] });
  find_value_request = unread;
  find_value_response = unread;
  bootstrap_request = empty (record {});
  bootstrap_response = unread;
  challenge_resolution_request = record {
    encode = λ (r : ChallengeResolutionRequest). r.nonce ∷ [];
    decode = nonce_of;
  };
  challenge_resolution_response = unread;
  auction = unread;
}

abbrev pub libraries : Libraries
libraries = record {
  crates = sample_crates;
  signatures = repeated;
  wires = sample_wires;
  auction_codec = auction_codec;
  block_codec = block_codec;
  block_json = block_json;
}

-- A network that nobody answers on.
abbrev pub silence : Network (Unit {0})
silence = record { connect = λ url n. (false, n); send = λ url method message n. (none, n) }

abbrev server : SKademliaServer (Unit {0})
server = record { state = with_poster "pow"; challenges_map = []; net = tt }

healthy : server.state.node.routing_table.table.poisoned ≡ false
unfolding new_table
healthy = refl

-- The owner asks to join, and sends the nonce 5.
abbrev asks : AuthenticatedMessage
asks = record {
  sender = some (to_information sample_crates owner);
  public_key = key;
  signature = key;
  payload = [];
}

abbrev solution : AuthenticatedMessage
solution = record {
  sender = some (to_information sample_crates owner);
  public_key = key;
  signature = key ++ 5 ∷ [];
  payload = 5 ∷ [];
}

asks_lem :
    sign_and_wrap sample_crates repeated sample_wires.bootstrap_request owner (record {}) key key
    ≡ ok asks
unfolding sign_and_wrap
asks_lem = refl

solution_lem :
    sign_and_wrap sample_crates repeated sample_wires.challenge_resolution_request owner
      (record { nonce = 5 })
      key
      key
    ≡ ok solution
unfolding sign_and_wrap
solution_lem = refl

asked : Received BootstrapRequest
asked = record {
  payload = record {};
  sender_proto = to_information sample_crates owner;
  sender = owner;
}

asked_lem : receive libraries sample_wires.bootstrap_request asks ≡ ok asked
unfolding asked
asked_lem =
    receive-sign_and_wrap libraries sample_wires.bootstrap_request owner (record {}) key key asks
      sample_laws refl key-IsKeyPair refl asks_lem

solved : Received ChallengeResolutionRequest
solved = record {
  payload = record { nonce = 5 };
  sender_proto = to_information sample_crates owner;
  sender = owner;
}

solved_lem : receive libraries sample_wires.challenge_resolution_request solution ≡ ok solved
unfolding solved
solved_lem =
    receive-sign_and_wrap libraries sample_wires.challenge_resolution_request owner
      (record { nonce = 5 }) key key solution sample_laws refl key-IsKeyPair refl solution_lem

-- An unsigned search, and the two requests of the owner.
abbrev forged : Request
forged = record {
  method = to_find_node;
  message = record asks { signature = [] };
  now = pos 1;
  challenge_hash = 3;
  clock = λ n. pos n;
}

abbrev joining : List Request
joining =
    forged
    ∷ record forged { method = to_bootstrap; message = asks }
    ∷ record forged { method = to_challenge_resolution; message = solution }
    ∷ []

serve-IsNode_example :
    (answers : List (Result HandlerError AuthenticatedMessage)) × (s' : SKademliaServer (Unit {0}))
    × (serve libraries silence joining server ≡ done (answers, s'))
    × (length answers ≡ 3)
    × IsSoundNode libraries silence sample_laws s'.state
    × (s'.state.node.routing_table.table.poisoned ≡ false)
    × (s'.state.node.node_info ≡ server.state.node.node_info)
    × (s'.state.node.config ≡ server.state.node.config)
    × ((new : List Block) × (s'.state.node.ledger.value ≡ server.state.node.ledger.value ++ new))
serve-IsNode_example =
    serve-IsNode libraries silence sample_laws joining server (with_poster-IsNode "pow") healthy

solves_lem : solves sample_crates (sample_crates.u256_to_string 3) 4 5 ≡ true
unfolding solves sample_crates big_endian to_big_endian as_bytes show_u64
solves_lem = refl

handshake_refines_example :
    ((s' : SKademliaServer (Unit {0})) × (bootstrap libraries 3 (pos 1) asks server
        ≡ reply libraries sample_wires.bootstrap_response
            (record { hash = sample_crates.u256_to_string 3; difficulty = 4 })
            s')
      × (pending s'
          ≡ issue asked.sender_proto.id (new_challenge libraries 3 (pos 1) server) (pending server))
      × (s'.state ≡ server.state)
      × (s'.net ≡ server.net))
    × ((accepted : Bool) × (s' : SKademliaServer (Unit {0})) × (challenge_resolution libraries
            (pos 1)
            solution
            server
          ≡ reply libraries sample_wires.challenge_resolution_response
              (record { accepted = accepted })
              s')
        × ((accepted ≡ true)
            ↔ Solves libraries (pos 1) solved.sender_proto.id solved.payload.nonce (pending server))
        × (pending s' ≡ settle solved.sender_proto.id (pending server))
        × (s'.state ≡ server.state)
        × (s'.net ≡ server.net))
handshake_refines_example =
    handshake_refines libraries server (pos 1) 3 asks solution asked solved sample_laws asked_lem
      solved_lem

owner_id : String
owner_id = to_string sample_crates owner.id

same_owner : asked.sender_proto.id ≡ owner_id
unfolding asked owner_id to_information
same_owner = refl

same_owner' : solved.sender_proto.id ≡ owner_id
unfolding solved owner_id to_information
same_owner' = refl

no_challenge : pending server owner_id ≡ none
unfolding get
no_challenge = refl

in_time : ltb_ℤ (add_i64 (pos 1) ten_minutes) (pos 2) ≡ false
unfolding add_i64
in_time = refl

solves_asked :
    solves sample_crates
      (sample_crates.u256_to_string 3)
      server.state.node.config.challenge_difficulty
      solved.payload.nonce
    ≡ true
unfolding solved
solves_asked = solves_lem

-- The search is no request of the handshake.
forged-NoBootstrap : NoBootstrap libraries silence sample_laws owner_id forged
forged-NoBootstrap received e f = absurd cc

forged-NoResolution : NoResolution libraries silence sample_laws owner_id forged
forged-NoResolution received e f = absurd cc

challenge_resolution-unissued_example :
    (answers : List (Result HandlerError AuthenticatedMessage)) × (s1 s2 : SKademliaServer
      (Unit {0}))
    × (serve libraries silence (forged ∷ []) server ≡ done (answers, s1))
    × (challenge_resolution libraries (pos 1) solution s1
        ≡ reply libraries sample_wires.challenge_resolution_response
            (record { accepted = false })
            s2)
challenge_resolution-unissued_example =
    challenge_resolution-unissued libraries silence sample_laws owner_id (forged ∷ []) server
      (pos 1) solution solved (with_poster-IsNode "pow") healthy no_challenge
      (forged-NoBootstrap, tt) solved_lem same_owner'

challenge_resolution-bootstrap_example :
    (answers : List (Result HandlerError AuthenticatedMessage)) × (s1 s2 s3 : SKademliaServer
      (Unit {0}))
    × (bootstrap libraries 3 (pos 1) asks server
        ≡ reply libraries sample_wires.bootstrap_response
            (record { hash = sample_crates.u256_to_string 3; difficulty = 4 })
            s1)
    × (serve libraries silence (forged ∷ []) s1 ≡ done (answers, s2))
    × (challenge_resolution libraries (pos 2) solution s2
        ≡ reply libraries sample_wires.challenge_resolution_response
            (record { accepted = true })
            s3)
challenge_resolution-bootstrap_example =
    challenge_resolution-bootstrap libraries silence sample_laws owner_id (forged ∷ []) server
      (pos 1) (pos 2) 3 asks solution asked solved (with_poster-IsNode "pow") healthy asked_lem
      same_owner ((forged-NoBootstrap, forged-NoResolution), tt) solved_lem same_owner' in_time
      solves_asked

not_signed_lem : ¬ IsSigned libraries sample_laws forged.message
unfolding address_eq
not_signed_lem (verified, _) = clash verified
  where
    clash : repeated.verify [] [] key ≡ some true → ⊥
    clash e = cc

handle-unsigned_example :
    (e : HandlerError) × (handle libraries silence forged server ≡ done (err e, server))
handle-unsigned_example = handle-unsigned libraries sample_laws silence forged server not_signed_lem

nodes_vector-IsAnswer_example :
    (nodes : List NodeInformation) × (nodes_vector libraries (addr 9) server.state.node
      ≡ done nodes)
    × IsAnswer server.state.node.routing_table.config.k_value nodes
nodes_vector-IsAnswer_example =
    nodes_vector-IsAnswer libraries silence sample_laws (addr 9) server
      (addr-IsAddress 9 (omega arith)) (with_poster-IsNode "pow") healthy
