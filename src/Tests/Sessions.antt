-- ===== src/Tests/Sessions.antt =====
-- Runs of a client whose network answers every call with one signed message.
use kademlia_blockchain_auct.Prelude.{ℕ, ◌≡◌, refl, arith, [], suc, some, true, false}
use kademlia_blockchain_auct.Prelude.Int.{pos}
use kademlia_blockchain_auct.Prelude.Sync.{done}
use kademlia_blockchain_auct.Prelude.Result.{ok}
use kademlia_blockchain_auct.Peer.{to_information}
use kademlia_blockchain_auct.Routing.Table.{new_table}
use kademlia_blockchain_auct.Node.{Node, insert_node_to_routing_table}
use kademlia_blockchain_auct.Node.Run.{IsNode}
use kademlia_blockchain_auct.Node.Sound.{Sound, Sound-start, insert_node-Sound}
use kademlia_blockchain_auct.Signed.{AuthenticatedMessage}
use kademlia_blockchain_auct.Command.{bid}
use kademlia_blockchain_auct.Rpc.Client.{World, SKademliaClient}
use kademlia_blockchain_auct.Rpc.Client.Commands.{run, run_command}
use kademlia_blockchain_auct.Rpc.Client.Find.{iterative_find_node}
use kademlia_blockchain_auct.Rpc.Client.Search.{iterative_find_node-Ends}
use kademlia_blockchain_auct.Rpc.Client.Session.{Stays, session-IsNode}
use kademlia_blockchain_auct.Tests.Sample.{sample_crates, sample_laws}
use kademlia_blockchain_auct.Tests.Data.{addr, addr-IsAddress, peer, poster}
use kademlia_blockchain_auct.Tests.Nodes.{
  auction_codec, block_codec, block_json, with_poster, with_poster-IsNode,
}
use kademlia_blockchain_auct.Tests.Messages.{key, owner}
use kademlia_blockchain_auct.Tests.Remote.{libraries}

-- The owner answers; the world counts the calls.
abbrev answer : AuthenticatedMessage
answer = record {
  sender = some (to_information sample_crates owner);
  public_key = key;
  signature = key;
  payload = [];
}

abbrev world : World ℕ
world = record {
  network = record {
    connect = λ url n. (true, n);
    send = λ url method message n. (some answer, suc n);
  };
  now = λ n. (pos n, n);
  draw = λ bound n. (0, n);
  overflow_checks = false;
  clock = λ n i. pos n;
}

lone : (with_poster "pow").node.routing_table.table.poisoned ≡ false
unfolding new_table
lone = refl

-- The node after peer 3 was inserted into its routing table.
contacted :
    (node : Node) × (insert_node_to_routing_table sample_crates
        (pos 1)
        (peer 3)
        (with_poster "pow").node
      ≡ done node)
    × Sound auction_codec block_codec sample_crates block_json
        (with_poster "pow")
        (record (with_poster "pow") { node = node })
contacted =
    insert_node-Sound auction_codec block_codec sample_crates block_json (with_poster "pow")
      (with_poster "pow") (Sound-start _ _ _ _ (with_poster "pow") (with_poster-IsNode "pow") lone)
      sample_laws (pos 1) (peer 3) (addr-IsAddress 3 (omega arith))

client : SKademliaClient ℕ
client =
    let (node, _, _) = contacted in
    record { state = record (with_poster "pow") { node = node }; net = 0 }

client-Sound :
    Sound auction_codec block_codec sample_crates block_json (with_poster "pow") client.state
unfolding client
client-Sound = let (_, _, h) = contacted in h

iterative_find_node-Ends_example :
    (fuel : ℕ) × (s' : SKademliaClient ℕ) × (iterative_find_node libraries world fuel
        (addr 5)
        client
      ≡ done (ok tt, s'))
    × IsNode auction_codec block_codec sample_crates block_json s'.state
iterative_find_node-Ends_example =
    iterative_find_node-Ends libraries sample_laws world (addr 5) client client-Sound.node
      client-Sound.healthy (addr-IsAddress 5 (omega arith))

abbrev at_home : SKademliaClient ℕ
at_home = record { state = with_poster "pow"; net = 0 }

session-IsNode_example :
    Stays libraries at_home (run libraries world 9 2)
    × Stays libraries at_home (run_command libraries world 9 2 (bid poster.key 40))
session-IsNode_example =
    session-IsNode libraries sample_laws world 9 2 (bid poster.key 40) at_home
      (with_poster-IsNode "pow") lone (addr-IsAddress 0 (omega arith)) refl
