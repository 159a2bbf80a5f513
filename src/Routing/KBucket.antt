-- ===== src/Routing/KBucket.antt =====
-- routing/kbucket.rs: one bucket, the least recently seen contact first. The clock is an argument.
use kademlia_blockchain_auct.Prelude.{ℕ, List, [], length}
use kademlia_blockchain_auct.Prelude.Int.{ℤ}
use kademlia_blockchain_auct.Peer.{NodeInfo}

pub record KBucket : Type 0 where
  pub last_refresh_time : ℤ
  pub list : List NodeInfo

unfoldable pub new : ℤ → KBucket
new now = record { last_refresh_time = now; list = [] }

unfoldable pub update_last_refresh_time : ℤ → KBucket → KBucket
update_last_refresh_time now bucket = record bucket { last_refresh_time = now }

unfoldable pub bucket_len : KBucket → ℕ
bucket_len bucket = length bucket.list
