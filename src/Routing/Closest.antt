-- ===== src/Routing/Closest.antt =====
-- routing/routing_table.rs: `get_k_closest_nodes`. `Closest/Cover` is about the order in which the
-- buckets are visited, `Closest/Result` about what is returned.
pub mod Cover
pub mod Result
pub mod Answer
pub mod Exact
use kademlia_blockchain_auct.Prelude.{
  ℕ, zero, suc, ◌+◌, ◌-◌, Bool, true, false, ◌&&◌, not, List, [], ◌∷◌, ◌++◌, Option, none, some,
  ltb, leb, if◌then◌else◌, length, get_elem?, set, take, replicate, filter,
}
use kademlia_blockchain_auct.Prelude.Sync.{Outcome, done, panic}
use kademlia_blockchain_auct.Prelude.Sort.{sort_by_key}
use kademlia_blockchain_auct.Crates.{Crates}
use kademlia_blockchain_auct.Address.{Address, address_eq, distance}
use kademlia_blockchain_auct.Peer.{NodeInfo}
use kademlia_blockchain_auct.Routing.Table.{RoutingTable, get_bucket_index}

-- The variables of the loop that orders the buckets.
pub record Scan : Type 0 where
  pub visited : List Bool
  pub bucket_indices : List ℕ

-- `visited[x]`; both uses stand behind a test that `x` is in range.
abbrev pub visited_at : List Bool → ℕ → Bool
visited_at visited x = elim (get_elem? visited x) [ some v ↦ v | none ↦ true ]

module _ (len : ℕ) where
  unfoldable pub visit_bucket : ℕ → Scan → Scan
  visit_bucket x s =
      if ltb x len && not (visited_at s.visited x)
      then record { visited = set s.visited x true; bucket_indices = s.bucket_indices ++ x ∷ [] }
      else s

  -- `checked_sub`
  abbrev pub checked_sub : ℕ → ℕ → Option ℕ
  checked_sub a b = if leb b a then some (a - b) else none

  unfoldable pub visit_lower : ℕ → ℕ → Scan → Scan
  visit_lower target_idx i s = elim (checked_sub target_idx i) [
    | some l ↦ visit_bucket l s
    | none ↦ s
  ]

  -- The loop from round `i`, with `n` rounds to go.
  unfoldable pub scan_from : ℕ → ℕ → ℕ → Scan → Scan
  scan_from zero target_idx i s = s
  scan_from (suc n) target_idx i s =
      let s' = visit_bucket (target_idx + i) (visit_lower target_idx i s) in
      let rest = scan_from n target_idx (i + 1) s' in
      if leb len (length s'.bucket_indices) then s' else rest

  pub range_from : ℕ → ℕ → List ℕ
  range_from zero i = []
  range_from (suc n) i = i ∷ range_from n (i + 1)

  -- `bucket_indices` at the end of the scan.
  unfoldable pub bucket_order : Option ℕ → List ℕ
  unfolding scan_from range_from visit_bucket visit_lower
  bucket_order (some target_idx) =
      (scan_from (len - 1) target_idx 1
        (record { visited = replicate len false; bucket_indices = target_idx ∷ [] })).bucket_indices
  bucket_order none = range_from len 0

-- The loop that collects nodes from the buckets, until there are `k_value`.
unfoldable pub collect : RoutingTable → List ℕ → List NodeInfo → Outcome (List NodeInfo)
collect rt [] result = done result
collect rt (idx ∷ rest) result = elim (get_elem? rt.table.value idx) [
  | none ↦ panic
  | some bucket ↦
      let result' = result ++ filter (λ node. not (address_eq node.id rt.id)) bucket.list in
      let more = collect rt rest result' in
      if leb rt.config.k_value (length result') then done result' else more
]

module _ (c : Crates) where
  -- The new contents of `result`. The `unwrap` of the lock panics if it is poisoned.
  unfoldable pub get_k_closest_nodes :
      RoutingTable → Address → List NodeInfo → Outcome (List NodeInfo)
  unfolding collect
  get_k_closest_nodes rt target_id result =
      if rt.table.poisoned
      then panic
      else elim (collect rt (bucket_order (length rt.table.value) (get_bucket_index c rt target_id))
          result) [
            | panic ↦ panic
            | done found ↦
                done (
                  take rt.config.k_value (sort_by_key (λ node. distance c node.id target_id) found))
          ]
