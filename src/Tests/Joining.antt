-- ===== src/Tests/Joining.antt =====
-- A run of a client that joins the network of a server.
use mathlib.Core.Option.{some-injective}
use kademlia_blockchain_auct.Prelude.{
  ℕ, ◌≡◌, ◌≢◌, refl, ap, sym, arith, List, [], ◌∷◌, ◌++◌, some, true, false, as_bytes, show_u64,
}
use kademlia_blockchain_auct.Prelude.Int.{ℤ, pos, add_i64, ltb_ℤ}
use kademlia_blockchain_auct.Prelude.BigEndian.{big_endian, to_big_endian}
use kademlia_blockchain_auct.Prelude.Sync.{done, new_lock}
use kademlia_blockchain_auct.Prelude.Result.{ok}
use kademlia_blockchain_auct.Config.{Config}
use kademlia_blockchain_auct.Address.{address_eq, address_eq_iff}
use kademlia_blockchain_auct.Peer.{NodeInfo, to_information}
use kademlia_blockchain_auct.Crypto.{solves}
use kademlia_blockchain_auct.Routing.Table.{new_table}
use kademlia_blockchain_auct.Routing.Insert.{new_table-IsTable}
use kademlia_blockchain_auct.Node.{
  Node, State, insert_node_to_routing_table, find_node_in_routing_table,
}
use kademlia_blockchain_auct.Node.Run.{IsNode}
use kademlia_blockchain_auct.Signed.{IsKeyPair}
use kademlia_blockchain_auct.Rpc.Message.{Libraries}
use kademlia_blockchain_auct.Rpc.Call.{Method}
use kademlia_blockchain_auct.Rpc.Server.{SKademliaServer}
use kademlia_blockchain_auct.Rpc.Server.Handshake.{ten_minutes}
use kademlia_blockchain_auct.Rpc.Client.{SKademliaClient}
use kademlia_blockchain_auct.Rpc.Client.{World}
use kademlia_blockchain_auct.Rpc.Client.Find.{iterative_find_node}
use kademlia_blockchain_auct.Rpc.Client.Join.{join_network}
use kademlia_blockchain_auct.Rpc.Together.{HasKeys, beside}
use kademlia_blockchain_auct.Rpc.Together.Handshake.{Readable}
use kademlia_blockchain_auct.Rpc.Together.Join.{join_network-joined}
use kademlia_blockchain_auct.Tests.Sample.{sample_crates, sample_laws}
use kademlia_blockchain_auct.Tests.Data.{small_config, empty_disk}
use kademlia_blockchain_auct.Tests.Nodes.{auction_codec, block_codec, block_json}
use kademlia_blockchain_auct.Tests.Messages.{repeated, bytes_of}
use kademlia_blockchain_auct.Tests.Remote.{libraries, sample_wires, empty, silence}

abbrev joining : Libraries
joining = record libraries {
  wires = record sample_wires {
    bootstrap_response = empty (record { hash = sample_crates.u256_to_string 3; difficulty = 4 });
    challenge_resolution_response = empty (record { accepted = true });
  };
}

-- A node of the key, at a port.
abbrev info : List ℕ → ℕ → NodeInfo
info key port = record {
  id = record { bytes = sample_crates.sha256 key };
  ip = "127.0.0.1";
  port = port;
}

abbrev config : List ℕ → Config
config key = record (small_config "pow") { private_key = key; public_key = key }

abbrev fresh_state : List ℕ → ℕ → State
fresh_state key port = record {
  node = record {
    node_info = info key port;
    routing_table = new_table (pos 0) (info key port) (config key);
    config = config key;
    auctions = new_lock [];
    ledger = new_lock [];
  };
  disk = empty_disk;
}

fresh-IsNode :
    (key : List ℕ) (port : ℕ)
    → IsNode auction_codec block_codec sample_crates block_json (fresh_state key port)
unfolding new_table
fresh-IsNode key port = record {
  table =
      new_table-IsTable sample_crates (pos 0) (info key port) (config key)
        (sample_laws.sha256_law key);
  room = omega arith;
  distinct = tt;
  ledger = record { linked = tt; once = λ a. omega arith };
}

key-IsKeyPair : (key : List ℕ) → IsKeyPair repeated key key
key-IsKeyPair key message signature e = ap some (
    (address_eq_iff (bytes_of signature) (bytes_of (key ++ message))).1
      (ap bytes_of (some-injective signature (key ++ message) (sym e))))

fresh-HasKeys : (key : List ℕ) (port : ℕ) → HasKeys joining (fresh_state key port).node
fresh-HasKeys key port = record {
  own = refl;
  pair = key-IsKeyPair key;
  signs = λ message. (key ++ message, refl);
}

abbrev client : SKademliaClient (SKademliaServer (Unit {0}))
client = record {
  state = fresh_state (4 ∷ 5 ∷ []) 9000;
  net = record { state = fresh_state (1 ∷ 2 ∷ 3 ∷ []) 8000; challenges_map = []; net = tt };
}

abbrev time : Method → ℤ
time method = pos 1

abbrev clock : ℕ → ℤ
clock n = pos n

all-Readable : (k : ℕ) → Readable joining sample_laws silence 3 time clock (pos 2) 4 k
all-Readable k = record { asks = refl; challenge = refl; solution = refl; verdict = refl }

in_time : ltb_ℤ (add_i64 (pos 1) ten_minutes) (pos 1) ≡ false
unfolding add_i64
in_time = refl

zero-solves : solves sample_crates (sample_crates.u256_to_string 3) 4 0 ≡ true
unfolding solves sample_crates big_endian to_big_endian as_bytes show_u64
zero-solves = refl

other_id : client.net.state.node.node_info.id ≢ client.state.node.node_info.id
unfolding sample_crates to_big_endian address_eq
other_id e =
    clash ((address_eq_iff client.net.state.node.node_info.id client.state.node.node_info.id).1 e)
  where
    clash : address_eq client.net.state.node.node_info.id client.state.node.node_info.id ≡ true → ⊥
    clash e = cc

healthy : client.state.node.routing_table.table.poisoned ≡ false
unfolding new_table
healthy = refl

other_table : client.net.state.node.node_info.id ≢ client.state.node.routing_table.id
unfolding new_table
other_table = other_id

abbrev around : World (SKademliaServer (Unit {0}))
around = beside joining silence 3 time clock (pos 2)

join_network-joined_example :
    (node : Node) × (insert_node_to_routing_table sample_crates
        (pos 2)
        (info (1 ∷ 2 ∷ 3 ∷ []) 8000)
        client.state.node
      ≡ done node)
    × (find_node_in_routing_table sample_crates (info (1 ∷ 2 ∷ 3 ∷ []) 8000).id node
        ≡ done (some (to_information sample_crates (info (1 ∷ 2 ∷ 3 ∷ []) 8000))))
    × ((c' : SKademliaClient (SKademliaServer (Unit {0}))) × (join_network joining around 1 0 false
            client
          ≡ done (ok tt, c'))
        × (c'.state ≡ record client.state { node = node }))
    × ((count : ℕ) × (c1 c2 : SKademliaClient (SKademliaServer (Unit {0}))) × (c1.state
          ≡ record client.state { node = node })
        × (join_network joining around 1 count true client
            ≡ iterative_find_node joining around count node.node_info.id c1)
        × (join_network joining around 1 count true client ≡ done (ok tt, c2))
        × IsNode auction_codec block_codec sample_crates block_json c2.state)
join_network-joined_example =
    join_network-joined joining sample_laws silence 3 time clock (pos 2) client
      (fresh-HasKeys (4 ∷ 5 ∷ []) 9000) (fresh-HasKeys (1 ∷ 2 ∷ 3 ∷ []) 8000)
      (λ k below. all-Readable k) in_time 0 1 zero-solves (omega arith) (omega arith) 0 0 refl refl
      (fresh-IsNode (4 ∷ 5 ∷ []) 9000) healthy other_table
