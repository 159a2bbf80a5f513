-- ===== src/Routing/Table.antt =====
-- routing/routing_table.rs: the routing table and its operations. `table` is behind an `RwLock`
-- that all clones of the table share; a failed lock and an index out of range are written out.
use kademlia_blockchain_auct.Prelude.{
  ℕ, ◌+◌, ◌-◌, List, [], ◌∷◌, ◌++◌, Option, none, some, ◌==◌, if◌then◌else◌, get_elem?, set, take,
  drop, tail, replicate, find?,
}
use kademlia_blockchain_auct.Prelude.Int.{ℤ}
use kademlia_blockchain_auct.Prelude.Sync.{RwLock, new_lock, Outcome, done, panic}
use kademlia_blockchain_auct.Crates.{Crates}
use kademlia_blockchain_auct.Config.{Config}
use kademlia_blockchain_auct.Address.{Address, address_eq, distance}
use kademlia_blockchain_auct.Peer.{NodeInfo}
use kademlia_blockchain_auct.Routing.KBucket
use kademlia_blockchain_auct.Routing.KBucket.{KBucket, update_last_refresh_time, bucket_len}

pub record RoutingTable : Type 0 where
  pub id : Address
  pub config : Config
  pub table : RwLock (List KBucket)

abbrev pub n_buckets : ℕ
n_buckets = 255

-- `new`; all buckets are clones of one.
unfoldable pub new_table : ℤ → NodeInfo → Config → RoutingTable
unfolding KBucket.new
new_table now node_info config = record {
  id = node_info.id;
  config = config;
  table = new_lock (replicate n_buckets (KBucket.new now));
}

-- The loop of `evict_from_bucket` that looks for the node, from position `i`.
unfoldable pub position_from : ℕ → Address → List NodeInfo → Option ℕ
position_from i node_id [] = none
position_from i node_id (node_info ∷ rest) =
    if address_eq node_info.id node_id then some i else position_from (i + 1) node_id rest

unfoldable pub evict_from_bucket : Address → KBucket → KBucket
unfolding position_from
evict_from_bucket node_id bucket = elim (position_from 0 node_id bucket.list) [
  | none ↦ bucket
  | some idx ↦
      let split_list = drop idx bucket.list in
      record bucket { list = take idx bucket.list ++ tail split_list }
]

-- The part of `insert_contact` that works on the bucket.
unfoldable pub insert_into_bucket : ℤ → ℕ → NodeInfo → KBucket → KBucket
unfolding evict_from_bucket update_last_refresh_time bucket_len
insert_into_bucket now max_kbucket_entries node_info bucket =
    let bucket' = update_last_refresh_time now (evict_from_bucket node_info.id bucket) in
    let list =
      if bucket_len bucket' == max_kbucket_entries then tail bucket'.list else bucket'.list in
    record bucket' { list = list ++ node_info ∷ [] }

module _ (c : Crates) where
  unfoldable pub get_bucket_index : RoutingTable → Address → Option ℕ
  get_bucket_index rt node_id =
      let lz = c.leading_zeros (distance c rt.id node_id) in
      if lz == 256 then none else if lz == 255 then some 0 else some (254 - lz)

  unfoldable pub insert_contact :
      ℤ → RoutingTable → NodeInfo → Outcome (RoutingTable × Option (Unit {0}))
  insert_contact now rt node_info =
      if address_eq node_info.id rt.id
      then done (rt, none)
      else elim (get_bucket_index rt node_info.id) [
        | none ↦ done (rt, none)
        | some idx ↦
            if rt.table.poisoned then done (rt, none) else elim (get_elem? rt.table.value idx) [
              | none ↦ panic
              | some bucket ↦
                  let bucket' =
                    insert_into_bucket now rt.config.max_kbucket_entries node_info bucket in
                  done (
                    record rt {
                      table = record rt.table { value = set rt.table.value idx bucket' };
                    },
                    some tt,
                  )
            ]
      ]

  unfoldable pub find_node_id : RoutingTable → Address → Outcome (Option NodeInfo)
  find_node_id rt node_id =
      if address_eq node_id rt.id then done none else elim (get_bucket_index rt node_id) [
        | none ↦ done none
        | some idx ↦ if rt.table.poisoned then done none else elim (get_elem? rt.table.value idx) [
          | none ↦ panic
          | some bucket ↦ done (find? (λ node. address_eq node.id node_id) bucket.list)
        ]
      ]
