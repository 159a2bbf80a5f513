-- ===== src/Tests/Routes.antt =====
-- Runs of the routing table.
use mathlib.Core.Path.{subst}
use mathlib.Core.Option.{some-injective}
use kademlia_blockchain_auct.Prelude.{
  ℕ, ◌≡◌, ◌≢◌, ◌≤◌, ◌<◌, ◌↔◌, ◌⊎◌, refl, ap, sym, arith, List, [], ◌∷◌, Option, some, none, false,
  true, length, get_elem?, All, Elem,
}
use kademlia_blockchain_auct.Prelude.Int.{pos}
use kademlia_blockchain_auct.Prelude.Sync.{Outcome, done, panic}
use kademlia_blockchain_auct.Prelude.BigEndian.{big_endian, to_big_endian}
use kademlia_blockchain_auct.Prelude.Sort.{IsSortedBy}
use kademlia_blockchain_auct.Address.{IsAddress, distance, address_eq}
use kademlia_blockchain_auct.Peer.{NodeInfo}
use kademlia_blockchain_auct.Routing.KBucket.{KBucket}
use kademlia_blockchain_auct.Routing.Table.{
  RoutingTable, n_buckets, new_table, get_bucket_index, insert_contact, find_node_id,
  insert_into_bucket,
}
use kademlia_blockchain_auct.Routing.Index.{InBucket, get_bucket_index_iff}
use kademlia_blockchain_auct.Routing.Insert.{IsTable, new_table-IsTable, insert_contact-IsTable}
use kademlia_blockchain_auct.Routing.Find.{evicted, find-insert_contact}
use kademlia_blockchain_auct.Routing.Closest.{get_k_closest_nodes, bucket_order}
use kademlia_blockchain_auct.Routing.Closest.Cover.{Covers, bucket_order-Covers}
use kademlia_blockchain_auct.Routing.Closest.Result.{Contact, Candidate, by_distance}
use kademlia_blockchain_auct.Routing.Closest.Answer.{get_k_closest_nodes_sound}
use kademlia_blockchain_auct.Routing.Closest.Exact.{get_k_closest_nodes-exact}
use kademlia_blockchain_auct.Tests.Sample.{sample_crates, sample_laws}
use kademlia_blockchain_auct.Tests.Data.{addr, addr-IsAddress, peer, small_config}

abbrev empty_table : RoutingTable
unfolding new_table
empty_table = new_table (pos 0) (peer 0) (small_config "pow")

empty_table-IsTable : IsTable sample_crates empty_table
unfolding empty_table
empty_table-IsTable =
    new_table-IsTable sample_crates (pos 0) (peer 0) (small_config "pow")
      (addr-IsAddress 0 (omega arith))

abbrev table_of : Outcome (RoutingTable × Option (Unit {0})) → RoutingTable
table_of o = elim o [ panic ↦ empty_table | done (rt, r) ↦ rt ]

-- The table with the contact 5, in bucket 1.
abbrev one_contact : RoutingTable
one_contact = table_of (insert_contact sample_crates (pos 1) empty_table (peer 5))

inserted-IsTable :
    (rt : RoutingTable) (n : NodeInfo)
    → IsTable sample_crates rt
    → 0 < rt.config.max_kbucket_entries
    → (h : IsAddress n.id)
    → IsTable sample_crates (table_of (insert_contact sample_crates (pos 1) rt n))
inserted-IsTable rt n table room h =
    let (rt', r, e, ok_table, _, _, _, _) =
      insert_contact-IsTable sample_crates sample_laws (pos 1) rt n table h room in
    subst (IsTable sample_crates) (sym (ap table_of e)) ok_table

bucket_order-Covers_example : Covers 5 (bucket_order 5 (some 1))
bucket_order-Covers_example = bucket_order-Covers 5 (some 1) (λ t e. inside t e)
  where
    inside : (t : ℕ) → some 1 ≡ some t → t < 5
    inside t e = let same = some-injective 1 t e in omega arith

get_bucket_index_iff_example :
    ((i : ℕ)
      → (get_bucket_index sample_crates empty_table (addr 5) ≡ some i)
        ↔ InBucket i (distance sample_crates empty_table.id (addr 5)))
    × ((get_bucket_index sample_crates empty_table (addr 5) ≡ none)
        ⊎ ((i : ℕ) × (get_bucket_index sample_crates empty_table (addr 5) ≡ some i)
            × (i < n_buckets)))
    × ((get_bucket_index sample_crates empty_table (addr 5) ≡ none) ↔ (empty_table.id ≡ addr 5))
get_bucket_index_iff_example =
    get_bucket_index_iff sample_crates sample_laws empty_table empty_table-IsTable.own (addr 5)
      (addr-IsAddress 5 (omega arith))

inserted_5 : insert_contact sample_crates (pos 1) empty_table (peer 5) ≡ done (one_contact, some tt)
unfolding insert_contact get_bucket_index distance sample_crates big_endian to_big_endian address_eq
    empty_table
inserted_5 = refl

one_contact-IsTable : IsTable sample_crates one_contact
unfolding empty_table
one_contact-IsTable =
    inserted-IsTable empty_table (peer 5) empty_table-IsTable (omega arith)
      (addr-IsAddress 5 (omega arith))

insert_contact-IsTable_example :
    (rt' : RoutingTable) × (r : Option (Unit {0})) × (insert_contact sample_crates
        (pos 2)
        one_contact
        (peer 6)
      ≡ done (rt', r))
    × IsTable sample_crates rt'
    × (rt'.id ≡ one_contact.id)
    × (rt'.config ≡ one_contact.config)
    × (rt'.table.poisoned ≡ one_contact.table.poisoned)
    × ((r ≡ some tt)
        ⊎ ((r ≡ none)
            × (rt' ≡ one_contact)
            × (((peer 6).id ≡ one_contact.id) ⊎ (one_contact.table.poisoned ≡ true))))
unfolding insert_contact get_bucket_index distance sample_crates big_endian to_big_endian address_eq
    empty_table
insert_contact-IsTable_example =
    insert_contact-IsTable sample_crates sample_laws (pos 2) one_contact (peer 6)
      one_contact-IsTable (addr-IsAddress 6 (omega arith)) (omega arith)

find-insert_contact_example :
    (((addr 5) ≡ (peer 5).id)
      × (find_node_id sample_crates one_contact (addr 5) ≡ done (some (peer 5))))
    ⊎ (((addr 5) ≢ (peer 5).id)
        × (evicted sample_crates empty_table (peer 5) ≡ some (addr 5))
        × (find_node_id sample_crates one_contact (addr 5) ≡ done none))
    ⊎ (((addr 5) ≢ (peer 5).id)
        × (evicted sample_crates empty_table (peer 5) ≢ some (addr 5))
        × (find_node_id sample_crates one_contact (addr 5)
            ≡ find_node_id sample_crates empty_table (addr 5)))
find-insert_contact_example =
    find-insert_contact sample_crates sample_laws empty_table empty_table-IsTable (pos 1) (peer 5)
      (addr-IsAddress 5 (omega arith)) one_contact (addr 5) (addr-IsAddress 5 (omega arith))
      inserted_5

healthy : one_contact.table.poisoned ≡ false
unfolding insert_contact get_bucket_index distance sample_crates big_endian to_big_endian address_eq
    empty_table
healthy = refl

get_k_closest_nodes_sound_example :
    (out : List NodeInfo) × (get_k_closest_nodes sample_crates one_contact (addr 4) (peer 0 ∷ [])
      ≡ done out)
    × (length out ≤ one_contact.config.k_value)
    × IsSortedBy (by_distance sample_crates (addr 4)) out
    × All (Candidate one_contact (peer 0 ∷ [])) out
    × ((length out ≡ one_contact.config.k_value)
        ⊎ ((n : NodeInfo) → Candidate one_contact (peer 0 ∷ []) n → Elem n out))
get_k_closest_nodes_sound_example =
    get_k_closest_nodes_sound sample_crates sample_laws one_contact one_contact-IsTable healthy
      (addr 4) (addr-IsAddress 4 (omega arith)) (peer 0 ∷ [])

-- Bucket 1, which holds the contact.
abbrev bucket_1 : KBucket
bucket_1 = record { list = peer 5 ∷ []; last_refresh_time = pos 1 }

at_1 : get_elem? one_contact.table.value 1 ≡ some bucket_1
unfolding insert_contact get_bucket_index distance sample_crates big_endian to_big_endian address_eq
    empty_table insert_into_bucket
at_1 = refl

near_4 : get_bucket_index sample_crates one_contact (addr 4) ≡ some 1
unfolding insert_contact get_bucket_index distance sample_crates big_endian to_big_endian address_eq
    empty_table
near_4 = refl

full_enough : one_contact.config.k_value ≤ length bucket_1.list
unfolding insert_contact get_bucket_index distance sample_crates big_endian to_big_endian address_eq
    empty_table
full_enough = omega arith

get_k_closest_nodes-exact_example :
    (out : List NodeInfo) × (get_k_closest_nodes sample_crates one_contact (addr 4) (peer 0 ∷ [])
      ≡ done out)
    × ((x y : NodeInfo)
        → Elem x out
        → Contact one_contact y
        → Elem y out
          ⊎ (distance sample_crates x.id (addr 4) ≤ distance sample_crates y.id (addr 4)))
get_k_closest_nodes-exact_example =
    get_k_closest_nodes-exact sample_crates sample_laws one_contact one_contact-IsTable 1 bucket_1
      at_1 healthy (addr 4) (addr-IsAddress 4 (omega arith)) near_4 (peer 0 ∷ []) full_enough
