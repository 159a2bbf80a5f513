-- ===== src/Tests/Data.antt =====
-- Addresses, a configuration, auctions and a node for the runs.
use Prim.Native.Nat.{◌<◌}
use kademlia_blockchain_auct.Prelude.{ℕ, ◌^◌, refl, arith, String, [], ◌∷◌, some, none, false}
use kademlia_blockchain_auct.Prelude.Int.{pos}
use kademlia_blockchain_auct.Prelude.BigEndian.{
  to_big_endian, length-to_big_endian, All-to_big_endian,
}
use kademlia_blockchain_auct.Config.{Config}
use kademlia_blockchain_auct.Address.{Address, IsAddress}
use kademlia_blockchain_auct.Peer.{NodeInfo}
use kademlia_blockchain_auct.Auction.{Auction, Bid, open_status, closed_status}
use kademlia_blockchain_auct.Auction.Rules.{IsValid}
use kademlia_blockchain_auct.Storage.{Disk}

abbrev pub addr : ℕ → Address
addr n = record { bytes = to_big_endian 32 n }

pub addr-IsAddress : (n : ℕ) → n < 256 ^ 32 → IsAddress (addr n)
addr-IsAddress n h = (length-to_big_endian 32 n, All-to_big_endian 32 n h)

abbrev pub peer : ℕ → NodeInfo
peer n = record { id = addr n; ip = "127.0.0.1"; port = n }

-- One contact in a bucket, and answers of one node.
abbrev pub small_config : String → Config
small_config mode = record {
  port = 8000;
  bootstrap_peer_ip = "127.0.0.1";
  bootstrap_peer_port = 8000;
  max_kbucket_entries = 2;
  k_value = 1;
  private_key = [];
  public_key = [];
  private_key_path = "";
  public_key_path = "";
  data_dir = "./data/8000";
  peer_sync_ms = 10;
  challenge_difficulty = 4;
  n_max_retries = 1;
  consensus_mode = mode;
  reputation_threshold = 1;
  automation_enabled = false;
  automation_interval_ms = 1000;
  auction_duration_ms = pos 1000;
}

abbrev pub a_bid : Bid
a_bid = record { buyer = addr 2; auction = addr 9; amount = 30 }

-- An open auction with a bid of 30, which ends at 100.
abbrev pub poster : Auction
poster = record {
  key = addr 9;
  object = "signed poster";
  initial_value = 25;
  seller = addr 1;
  bids = a_bid ∷ [];
  status = open_status;
  created_at = pos 0;
  ends_at = pos 100;
  winner = none;
  winning_bid = none;
}

-- The same auction closed.
abbrev pub sold : Auction
sold = record poster { status = closed_status; winner = some (addr 2); winning_bid = some 30 }

pub poster-IsValid : IsValid poster
poster-IsValid = record {
  key_ok = addr-IsAddress 9 (omega arith);
  seller_ok = addr-IsAddress 1 (omega arith);
  bids_ok = ((refl, addr-IsAddress 2 (omega arith)), tt);
  rising = (omega arith, tt);
  result = (refl, refl);
}

pub sold-IsValid : IsValid sold
sold-IsValid = record {
  key_ok = addr-IsAddress 9 (omega arith);
  seller_ok = addr-IsAddress 1 (omega arith);
  bids_ok = ((refl, addr-IsAddress 2 (omega arith)), tt);
  rising = (omega arith, tt);
  result = (refl, refl);
}

abbrev pub empty_disk : Disk
empty_disk = record {
  files = λ path. none;
  fails_read = λ path. false;
  fails_create = λ path. false;
  fails_write = λ path. false;
  torn = λ path. none;
}
