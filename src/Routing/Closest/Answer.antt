-- ===== src/Routing/Closest/Answer.antt =====
-- The answer of `get_k_closest_nodes`, whatever the table holds.
use native.Mathlib.Decide.{dec_lt}
use kademlia_blockchain_auct.Prelude.{
  ℕ, ◌≤◌, ◌<◌, ◌≡◌, ◌⊎◌, false, List, arith, ltb, if◌then◌else◌, inl, inr, length, length-take,
  get_elem?-some_lt, take, take_all, All, All-take, Elem,
}
use kademlia_blockchain_auct.Prelude.Sync.{done}
use kademlia_blockchain_auct.Prelude.Sort.{
  sort_by_key, IsSortedBy, sort_by_key-IsSortedBy, take-IsSortedBy, length-sort_by_key,
  All-sort_by_key, Elem-sort_by_key,
}
use kademlia_blockchain_auct.Crates.{Crates, CratesLaws}
use kademlia_blockchain_auct.Address.{Address, IsAddress}
use kademlia_blockchain_auct.Peer.{NodeInfo}
use kademlia_blockchain_auct.Routing.Table.{RoutingTable, get_bucket_index}
use kademlia_blockchain_auct.Routing.Index.{InBucket-of_index}
use kademlia_blockchain_auct.Routing.Insert.{IsTable}
use kademlia_blockchain_auct.Routing.Closest.{bucket_order, collect, get_k_closest_nodes}
use kademlia_blockchain_auct.Routing.Closest.Cover.{count, bucket_order-Covers}
use kademlia_blockchain_auct.Routing.Closest.Result.{by_distance, Candidate, Collected, collect_lem}

module _ (c : Crates) (laws : CratesLaws c) (rt : RoutingTable) (table : IsTable c rt)
    (healthy : rt.table.poisoned ≡ false) (target : Address) (ht : IsAddress target) where
  abbrev pub order : List ℕ
  order = bucket_order (length rt.table.value) (get_bucket_index c rt target)

  count-order : (j : ℕ) → count j order ≡ (if ltb j (length rt.table.value) then 1 else 0)
  count-order = bucket_order-Covers (length rt.table.value) (get_bucket_index c rt target) (λ t at.
      let (_, lt, _) = InBucket-of_index c laws rt table.own target ht t at in
      omega (arith, table.size))

  -- The answer is the first `k_value` of what was collected, sorted.
  pub get_k_closest_nodes_lem :
      (result out : List NodeInfo)
      → collect rt order result ≡ done out
      → get_k_closest_nodes c rt target result
        ≡ done (take rt.config.k_value (sort_by_key (by_distance c target) out))
  unfolding get_k_closest_nodes bucket_order sort_by_key get_bucket_index
  get_k_closest_nodes_lem result out e = rw (healthy, e, get_k_closest_nodes)

  -- On a well-formed table behind a healthy lock, for any valid target and any nodes already in
  -- `result`: the call returns without a panic; the answer has at most `k_value` nodes, sorted by
  -- their XOR distance to the target; each is a node that was in `result` or a contact of the table
  -- other than the node itself; and if there are fewer than `k_value`, all of these are there.
  pub get_k_closest_nodes_sound :
      (result : List NodeInfo)
      → (out : List NodeInfo) × (get_k_closest_nodes c rt target result ≡ done out)
        × (length out ≤ rt.config.k_value)
        × IsSortedBy (by_distance c target) out
        × All (Candidate rt result) out
        × ((length out ≡ rt.config.k_value) ⊎ ((n : NodeInfo) → Candidate rt result n → Elem n out))
  get_k_closest_nodes_sound result =
      let (found, e, h) = collect_lem rt order result (λ j pos. ground (arith, count-order j)) in
      let k = rt.config.k_value in
      let sorted = sort_by_key (by_distance c target) found in
      (
        take k sorted,
        get_k_closest_nodes_lem result found e,
        omega (arith, length-take k sorted),
        take-IsSortedBy (by_distance c target) k sorted (sort_by_key-IsSortedBy _ found),
        All-take (Candidate rt result) k sorted
            (All-sort_by_key _ (Candidate rt result) found h.found),
        elim (dec_lt (length (take k sorted)) k) [
          | yes short ↦ inr (λ n m. whole found h short n m)
          | no full ↦ inl (omega (arith, length-take k sorted))
        ],
      )
    where
      present :
          (found : List NodeInfo)
          → Collected rt order result found
          → length found < rt.config.k_value
          → (n : NodeInfo) → Candidate rt result n
          → Elem n found
      present found h few n (inl m) = h.keeps n m
      present found h few n (inr ((i, b, at, m), ne)) =
          h.complete few i b n
            (ground (arith, count-order i, get_elem?-some_lt rt.table.value i b at)) at m ne

      whole :
          (found : List NodeInfo)
          → Collected rt order result found
          → length (take rt.config.k_value (sort_by_key (by_distance c target) found))
            < rt.config.k_value
          → (n : NodeInfo) → Candidate rt result n
          → Elem n (take rt.config.k_value (sort_by_key (by_distance c target) found))
      whole found h short n m =
          let few : length found < rt.config.k_value = omega (
            arith,
            length-take rt.config.k_value (sort_by_key (by_distance c target) found),
            length-sort_by_key (by_distance c target) found,
          ) in
          rw
            (take_all rt.config.k_value (sort_by_key (by_distance c target) found)
              (omega (arith, length-sort_by_key (by_distance c target) found)))
            (Elem-sort_by_key (by_distance c target) n found (present found h few n m))
