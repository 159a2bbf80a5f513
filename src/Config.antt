-- ===== src/Config.antt =====
-- utils/config.rs: the configuration values.
pub mod Read
use kademlia_blockchain_auct.Prelude.{ℕ, String, Bool, List}
use kademlia_blockchain_auct.Prelude.Int.{ℤ}

pub record Config : Type 0 where
  pub port : ℕ
  pub bootstrap_peer_ip : String
  pub bootstrap_peer_port : ℕ
  pub max_kbucket_entries : ℕ
  pub k_value : ℕ
  pub private_key : List ℕ
  pub public_key : List ℕ
  pub private_key_path : String
  pub public_key_path : String
  pub data_dir : String
  pub peer_sync_ms : ℕ
  pub challenge_difficulty : ℕ
  pub n_max_retries : ℕ
  pub consensus_mode : String
  pub reputation_threshold : ℕ
  pub automation_enabled : Bool
  pub automation_interval_ms : ℕ
  pub auction_duration_ms : ℤ
