-- ===== src/Routing/Closest/Exact.antt =====
-- When the bucket of the target is full of candidates, the answer is exact.
use native.Mathlib.Decide.{ℕ_discrete}
use mathlib.Core.Option.{some-injective}
use kademlia_blockchain_auct.Prelude.{
  Elem-append_right, ℕ, zero, suc, ◌+◌, ◌-◌, ◌≤◌, ◌<◌, ◌≡◌, ◌⊎◌, refl, ap, sym, ◌∙◌, true, false,
  List, [], ◌∷◌, ◌++◌, some, arith, inl, inr, Option-cases, ltb, leb, le→leb, not, Bool, ◌&&◌,
  append-nil, length-append, if◌then◌else◌, length, append_assoc, get_elem?, take, drop, filter,
  filter-All, All, All-map, All-Elem, All-of_Elem, Elem, Elem-take-drop,
}
use kademlia_blockchain_auct.Prelude.Sync.{done}
use kademlia_blockchain_auct.Prelude.Sort.{
  sort_by_key, sort_by_key-IsSortedBy, count_below-append, count_below-sort_by_key, take_below,
  take-le-drop, Elem-sort_by_key,
}
use kademlia_blockchain_auct.Crates.{Crates, CratesLaws}
use kademlia_blockchain_auct.Address.{Address, IsAddress, distance}
use kademlia_blockchain_auct.Peer.{NodeInfo}
use kademlia_blockchain_auct.Routing.KBucket.{KBucket}
use kademlia_blockchain_auct.Routing.Table.{RoutingTable, get_bucket_index}
use kademlia_blockchain_auct.Routing.Index.{
  InBucket-of_index, distance-lt-near, near, near-le-distance, InBucket-of_index,
}
use kademlia_blockchain_auct.Routing.Insert.{IsTable, BelongsTo}
use kademlia_blockchain_auct.Routing.Closest.{
  Scan, visited_at, checked_sub, visit_bucket, visit_lower, scan_from, bucket_order, collect,
  get_k_closest_nodes,
}
use kademlia_blockchain_auct.Routing.Closest.Result.{Contact, by_distance, other, other_of_ne}
use kademlia_blockchain_auct.Routing.Closest.Answer.{order, get_k_closest_nodes_lem}

-- `l` continues `p`.
abbrev Extends : List ℕ → List ℕ → Type 0
Extends p l = (q : List ℕ) × (l ≡ p ++ q)

Extends-trans : (a b d : List ℕ) → Extends a b → Extends b d → Extends a d
Extends-trans a b d (q, e) (r, f) = (q ++ r, f ∙ ap (λ z. z ++ r) e ∙ append_assoc a q r)

Extends-same : (a : List ℕ) → Extends a a
Extends-same a = ([], sym (append-nil a))

Extends-if :
    (p : List ℕ) (b : Bool) (x y : Scan)
    → Extends p x.bucket_indices
    → Extends p y.bucket_indices
    → Extends p (if b then x else y).bucket_indices
Extends-if p true x y hx hy = hx
Extends-if p false x y hx hy = hy

module _ (len t : ℕ) where
  visit_bucket-Extends :
      (x : ℕ) (s : Scan) → Extends s.bucket_indices (visit_bucket len x s).bucket_indices
  unfolding visit_bucket
  visit_bucket-Extends x s =
      Extends-if s.bucket_indices (ltb x len && not (visited_at s.visited x)) _ s (x ∷ [], refl)
        (Extends-same s.bucket_indices)

  visit_lower-Extends :
      (i : ℕ) (s : Scan) → Extends s.bucket_indices (visit_lower len t i s).bucket_indices
  unfolding visit_lower
  visit_lower-Extends i s = elim (Option-cases (checked_sub len t i)) [
    | inr (l, e) ↦ rw (e, visit_lower) (visit_bucket-Extends l s)
    | inl e ↦ rw (e, visit_lower) (Extends-same s.bucket_indices)
  ]

  scan_from-Extends :
      (n i : ℕ) (s : Scan) → Extends s.bucket_indices (scan_from len n t i s).bucket_indices
  unfolding scan_from
  scan_from-Extends zero i s = Extends-same s.bucket_indices
  scan_from-Extends (suc n) i s =
      let s' = visit_bucket len (t + i) (visit_lower len t i s) in
      let here =
        Extends-trans s.bucket_indices (visit_lower len t i s).bucket_indices s'.bucket_indices
          (visit_lower-Extends i s) (visit_bucket-Extends (t + i) (visit_lower len t i s)) in
      Extends-if s.bucket_indices (leb len (length s'.bucket_indices)) s' _ here
        (Extends-trans s.bucket_indices s'.bucket_indices _ here (scan_from-Extends n (i + 1) s'))

  bucket_order_first : (q : List ℕ) × (bucket_order len (some t) ≡ t ∷ q)
  unfolding bucket_order
  bucket_order_first = scan_from-Extends (len - 1) 1 _

module _ (c : Crates) (laws : CratesLaws c) (rt : RoutingTable) (table : IsTable c rt) where
  module _ (t : ℕ) (b : KBucket) (at : get_elem? rt.table.value t ≡ some b) where
    all_others : filter (other rt) b.list ≡ b.list
    all_others = filter-All (other rt) b.list (
        All-map
          (λ n belongs.
            let (_, _, ne) = InBucket-of_index c laws rt table.own n.id belongs.0 t belongs.1 in
            other_of_ne rt n (λ e. ne (sym e)))
          b.list (table.bucket t b at).belong)

    -- A full bucket ends the loop at once.
    collect_full :
        (q : List ℕ) (result : List NodeInfo)
        → rt.config.k_value ≤ length b.list
        → collect rt (t ∷ q) result ≡ done (result ++ b.list)
    unfolding collect
    collect_full q result full =
        let enough : leb rt.config.k_value (length (result ++ b.list)) ≡ true =
          le→leb _ _ (omega (arith, length-append result b.list)) in
        rw (at, collect, all_others, enough)

    module _ (healthy : rt.table.poisoned ≡ false) (target : Address) (ht : IsAddress target)
        (here : get_bucket_index c rt target ≡ some t) where
      -- On a well-formed table behind a healthy lock, if the bucket of the target holds at least
      -- `k_value` contacts: for any nodes already in `result`, the call returns an answer that
      -- leaves out no contact of the whole table that is nearer to the target, by XOR distance,
      -- than any node in it.
      pub get_k_closest_nodes-exact :
          (result : List NodeInfo)
          → rt.config.k_value ≤ length b.list
          → (out : List NodeInfo) × (get_k_closest_nodes c rt target result ≡ done out)
            × ((x y : NodeInfo)
                → Elem x out
                → Contact rt y
                → Elem y out ⊎ (distance c x.id target ≤ distance c y.id target))
      get_k_closest_nodes-exact result full =
          let (q, first) = bucket_order_first (length rt.table.value) t in
          let e : collect rt (order c laws rt table healthy target ht) result ≡ done found =
            ap (λ o. collect rt (bucket_order (length rt.table.value) o) result) here
            ∙ ap (λ l. collect rt l result) first
            ∙ collect_full q result full in
          (
            take rt.config.k_value (sort_by_key key found),
            get_k_closest_nodes_lem c laws rt table healthy target ht result found e,
            λ x y in_x there. nearest full x y in_x there,
          )
        where
          key : NodeInfo → ℕ
          key = by_distance c target

          found : List NodeInfo
          found = result ++ b.list

          sorted : List NodeInfo
          sorted = sort_by_key key found

          belongs :
              (i : ℕ) (d : KBucket) (n : NodeInfo)
              → get_elem? rt.table.value i ≡ some d
              → Elem n d.list
              → BelongsTo c rt i n
          belongs i d n at_i m =
              All-Elem (BelongsTo c rt i) d.list n (table.bucket i d at_i).belong m

          below_near : All (λ n. key n < near t) b.list
          below_near = All-of_Elem _ b.list (λ n m.
              let (hn, at_n) = belongs t b n at m in
              distance-lt-near c laws rt table.own n.id target hn ht t t at_n here refl)

          nearest :
              rt.config.k_value ≤ length b.list
              → (x y : NodeInfo) → Elem x (take rt.config.k_value sorted)
              → Contact rt y
              → Elem y (take rt.config.k_value sorted) ⊎ (key x ≤ key y)
          nearest full x y in_x (i, d, at_i, m) = elim (ℕ_discrete i t) [
            | yes e ↦
                let same : d ≡ b =
                  some-injective d b (sym at_i ∙ ap (get_elem? rt.table.value) e ∙ at) in
                elim (Elem-take-drop y rt.config.k_value sorted (
                  Elem-sort_by_key key y found
                    (Elem-append_right y result b.list (rw same at m)))) [
                      | inl kept ↦ inl kept
                      | inr cut ↦ inr (
                          All-Elem _ (drop rt.config.k_value sorted) y
                            (All-Elem _ (take rt.config.k_value sorted) x
                              (take-le-drop key rt.config.k_value sorted
                                (sort_by_key-IsSortedBy key found))
                              in_x)
                            cut)
                    ]
            | no ne ↦
                let (hy, at_y) = belongs i d y at_i m in
                let far = near-le-distance c laws rt table.own y.id target hy ht i t at_y here ne in
                let close : key x < near t =
                  All-Elem _ (take rt.config.k_value sorted) x
                    (take_below key (near t) rt.config.k_value sorted
                      (sort_by_key-IsSortedBy key found)
                      (omega (
                        arith,
                        count_below-sort_by_key key (near t) found,
                        count_below-append key (near t) result b.list below_near,
                      )))
                    in_x in
                inr (omega arith)
          ]
