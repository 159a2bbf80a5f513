-- ===== src/Tests/Nodes.antt =====
-- Runs of a node.
use kademlia_blockchain_auct.Prelude.{
  ℕ, ◌≡◌, ◌≤◌, ◌<◌, ◌↔◌, ◌⊎◌, ◌++◌, refl, arith, String, List, [], ◌∷◌, some, true,
}
use kademlia_blockchain_auct.Prelude.Int.{ℤ, pos}
use kademlia_blockchain_auct.Prelude.Sync.{new_lock}
use kademlia_blockchain_auct.Prelude.Result.{ok}
use kademlia_blockchain_auct.Address.{Address}
use kademlia_blockchain_auct.Routing.Table.{new_table}
use kademlia_blockchain_auct.Routing.Insert.{new_table-IsTable}
use kademlia_blockchain_auct.Auction.{Auction}
use kademlia_blockchain_auct.Ledger.{
  Block, from_config, proof_of_work_mode, proof_of_reputation_mode, has_reputation_to_commit,
}
use kademlia_blockchain_auct.Ledger.Reputation.{all_roles, has_reputation_to_commit_iff}
use kademlia_blockchain_auct.Storage.{Codec}
use kademlia_blockchain_auct.Node.{State, store_auction, find_auction, close_expired_auctions}
use kademlia_blockchain_auct.Node.Store.{find_auction-store_auction}
use kademlia_blockchain_auct.Node.Close.{CloseAllAnswer, close_expired_auctions_lem}
use kademlia_blockchain_auct.Node.Run.{Run, start, stored, closed, IsNode, Run-IsNode, Run-stuck}
use kademlia_blockchain_auct.Tests.Sample.{sample_crates, sample_laws}
use kademlia_blockchain_auct.Tests.Data.{
  addr, addr-IsAddress, peer, small_config, poster, empty_disk,
}

abbrev pub auction_codec : Codec Auction
auction_codec = record { to_string_pretty = λ l. "[]"; parse = λ s. some [] }

abbrev pub block_codec : Codec Block
block_codec = record { to_string_pretty = λ l. "[]"; parse = λ s. some [] }

abbrev pub block_json : Block → String
block_json b = "{}"

abbrev clock : ℕ → ℤ
clock n = pos n

-- A node with an empty ledger and the open auction.
abbrev pub with_poster : String → State
with_poster mode = record {
  node = record {
    node_info = peer 0;
    routing_table = new_table (pos 0) (peer 0) (small_config mode);
    config = small_config mode;
    auctions = new_lock (poster ∷ []);
    ledger = new_lock [];
  };
  disk = empty_disk;
}

room : (mode : String) → 0 < (with_poster mode).node.routing_table.config.max_kbucket_entries
unfolding new_table
room mode = omega arith

pub with_poster-IsNode :
    (mode : String) → IsNode auction_codec block_codec sample_crates block_json (with_poster mode)
with_poster-IsNode mode = record {
  table =
      new_table-IsTable sample_crates (pos 0) (peer 0) (small_config mode)
        (addr-IsAddress 0 (omega arith));
  room = room mode;
  distinct = (tt, tt);
  ledger = record { linked = tt; once = λ a. omega arith };
}

-- The poster is stored again, and the expired auctions are closed at 200.
abbrev after_store : String → State
after_store mode =
    (store_auction auction_codec block_codec sample_crates block_json clock poster
      (with_poster mode)).1

abbrev after_close : String → State
after_close mode =
    (close_expired_auctions auction_codec block_codec sample_crates block_json clock (pos 200)
      (after_store mode)).1

a-Run :
    (mode : String)
    → Run auction_codec block_codec sample_crates block_json (with_poster mode) (after_close mode)
a-Run mode = closed _ _ clock (pos 200) (stored _ _ clock poster (start (with_poster mode)))

Run-IsNode_example :
    IsNode auction_codec block_codec sample_crates block_json (after_close "pow")
    × ((after_close "pow").node.node_info ≡ (with_poster "pow").node.node_info)
    × ((after_close "pow").node.config ≡ (with_poster "pow").node.config)
    × ((new : List Block) × ((after_close "pow").node.ledger.value
          ≡ (with_poster "pow").node.ledger.value ++ new))
Run-IsNode_example =
    Run-IsNode auction_codec block_codec sample_crates block_json sample_laws (with_poster "pow")
      (after_close "pow") (a-Run "pow") (with_poster-IsNode "pow")

por : from_config (small_config "por") ≡ proof_of_reputation_mode
unfolding from_config
por = refl

Run-stuck_example : (after_close "por").node.ledger.value ≡ []
Run-stuck_example =
    Run-stuck auction_codec block_codec sample_crates block_json sample_laws (with_poster "por")
      (after_close "por") (a-Run "por") (with_poster-IsNode "por") por (omega arith) refl

find_auction-store_auction_example :
    (find_auction poster.key
        (store_auction auction_codec block_codec sample_crates block_json clock poster
          (with_poster "pow")).1.node
      ≡ ok (some poster))
    × ((key : Address)
        → (key ≡ poster.key)
          ⊎ (find_auction key
                (store_auction auction_codec block_codec sample_crates block_json clock poster
                  (with_poster "pow")).1.node
              ≡ find_auction key (with_poster "pow").node))
find_auction-store_auction_example =
    find_auction-store_auction auction_codec block_codec sample_crates block_json clock poster
      (with_poster "pow") refl

close_expired_auctions_lem_example :
    CloseAllAnswer auction_codec block_codec sample_crates block_json clock
      (pos 200)
      (with_poster "pow")
      (close_expired_auctions auction_codec block_codec sample_crates block_json clock
        (pos 200)
        (with_poster "pow"))
close_expired_auctions_lem_example =
    close_expired_auctions_lem auction_codec block_codec sample_crates block_json clock (pos 200)
      (with_poster "pow") (tt, tt)

has_reputation_to_commit_iff_example :
    (has_reputation_to_commit (small_config "por") [] (addr 2) ≡ true) ↔ (
      (from_config (small_config "por") ≡ proof_of_work_mode)
      ⊎ ((small_config "por").reputation_threshold ≤ all_roles (addr 2) []))
has_reputation_to_commit_iff_example = has_reputation_to_commit_iff (small_config "por") [] (addr 2)
