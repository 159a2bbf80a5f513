-- ===== src/Routing/Find.antt =====
-- What `find_node_id` finds after `insert_contact`.
use native.Mathlib.Decide.{ℕ_discrete}
use mathlib.Core.Option.{some-injective}
use kademlia_blockchain_auct.Prelude.{
  ℕ, ◌<◌, ◌≡◌, ◌⊎◌, ◌≢◌, refl, ap, sym, ◌∙◌, [], ◌∷◌, ◌++◌, Option, none, some, arith, false,
  if_true, if_false, inl, inr, Bool-cases, Option-cases, length, All-map, get_elem?,
  get_elem?-set_self, get_elem?-set_ne, get_elem?-lt,
}
use kademlia_blockchain_auct.Prelude.Int.{ℤ}
use kademlia_blockchain_auct.Prelude.Sync.{done, done-injective}
use kademlia_blockchain_auct.Crates.{Crates, CratesLaws}
use kademlia_blockchain_auct.Address.{
  Address, IsAddress, address_eq, address_eq_iff, address_eq_refl,
}
use kademlia_blockchain_auct.Peer.{NodeInfo}
use kademlia_blockchain_auct.Routing.KBucket.{KBucket}
use kademlia_blockchain_auct.Routing.Table.{
  RoutingTable, get_bucket_index, insert_into_bucket, insert_contact, find_node_id,
}
use kademlia_blockchain_auct.Routing.Index.{get_bucket_index_iff, InBucket-of_index}
use kademlia_blockchain_auct.Routing.Evict.{kept, list-insert_into_bucket}
use kademlia_blockchain_auct.Routing.FindId.{
  find_id, given_up, address_eq-false, find_id_new, find_id_old, find_id-kept, find_id-kept_given,
  given_up_of_All,
}
use kademlia_blockchain_auct.Routing.Kept.{kept-DistinctIds}
use kademlia_blockchain_auct.Routing.Insert.{IsTable, put_bucket, insert_contact_lem}

module _ (c : Crates) (rt : RoutingTable) (healthy : rt.table.poisoned ≡ false) where
  pub find_own : find_node_id c rt rt.id ≡ done none
  unfolding find_node_id
  find_own = if_true _ _ (address_eq_refl rt.id)

  pub find_in_bucket :
      (id : Address) (i : ℕ) (b : KBucket)
      → id ≢ rt.id
      → get_bucket_index c rt id ≡ some i
      → get_elem? rt.table.value i ≡ some b
      → find_node_id c rt id ≡ done (find_id id b.list)
  unfolding find_node_id
  find_in_bucket id i b ne at found = ground (arith, address_eq-false id rt.id)

-- The contact that gives way when `n` comes into a full bucket.
pub evicted : Crates → RoutingTable → NodeInfo → Option Address
evicted c rt n = elim (get_bucket_index c rt n.id) [
  | none ↦ none
  | some i ↦ elim (get_elem? rt.table.value i) [
    | none ↦ none
    | some b ↦ given_up rt.config.max_kbucket_entries n.id b.list
  ]
]

evicted-given_up :
    (c : Crates) (rt : RoutingTable) (n : NodeInfo) (i : ℕ) (b : KBucket)
    → get_bucket_index c rt n.id ≡ some i
    → get_elem? rt.table.value i ≡ some b
    → evicted c rt n ≡ given_up rt.config.max_kbucket_entries n.id b.list
unfolding evicted
evicted-given_up c rt n i b at found = rw (at, evicted) (rw (found, evicted))

module _ (c : Crates) (laws : CratesLaws c) (rt : RoutingTable) (table : IsTable c rt) where
  pub bucket_of :
      (id : Address)
      → IsAddress id
      → id ≢ rt.id
      → (i : ℕ) × (b : KBucket) × (get_bucket_index c rt id ≡ some i)
        × (get_elem? rt.table.value i ≡ some b)
        × (i < length rt.table.value)
  bucket_of id h ne = elim (Option-cases (get_bucket_index c rt id)) [
    | inl missing ↦ absurd (ne (sym ((get_bucket_index_iff c laws rt table.own id h).2.0 missing)))
    | inr (i, at) ↦
        let (_, lt, _) = InBucket-of_index c laws rt table.own id h i at in
        let inside : i < length rt.table.value = omega (arith, table.size) in
        let (b, found) = get_elem?-lt rt.table.value i inside in (i, b, at, found, inside)
  ]

  module _ (healthy : rt.table.poisoned ≡ false) (now : ℤ) (n : NodeInfo) (i : ℕ) (b : KBucket)
      (at_n : get_bucket_index c rt n.id ≡ some i) (found : get_elem? rt.table.value i ≡ some b)
      (inside : i < length rt.table.value) where
    abbrev room : ℕ
    room = rt.config.max_kbucket_entries

    abbrev bucket' : KBucket
    bucket' = insert_into_bucket now room n b

    abbrev rt_after : RoutingTable
    rt_after = put_bucket rt i bucket'

    -- Addresses of the bucket are looked up in its new contents.
    find_inside :
        (id : Address)
        → id ≢ rt.id
        → get_bucket_index c rt id ≡ some i
        → find_node_id c rt_after id ≡ done (find_id id (kept room n.id b.list ++ n ∷ []))
    unfolding get_bucket_index
    find_inside id ne at =
        find_in_bucket c rt_after healthy id i bucket' ne at
          (get_elem?-set_self rt.table.value i bucket' inside)
        ∙ ap (λ l. done (find_id id l)) (list-insert_into_bucket now room n b)

    -- Addresses of other buckets are looked up where they were.
    find_outside :
        (id : Address) (j : ℕ)
        → id ≢ rt.id
        → i ≢ j
        → get_bucket_index c rt id ≡ some j
        → IsAddress id
        → find_node_id c rt_after id ≡ find_node_id c rt id
    unfolding get_bucket_index
    find_outside id j ne other at h =
        let (k, d, at_k, found_k, _) = bucket_of id h ne in
        let same : k ≡ j = some-injective k j (sym at_k ∙ at) in
        find_in_bucket c rt_after healthy id k d ne at_k
          (get_elem?-set_ne rt.table.value i k bucket' (λ e. other (e ∙ same)) ∙ found_k)
        ∙ sym (find_in_bucket c rt healthy id k d ne at_k found_k)

    given_index :
        (id : Address) → given_up room n.id b.list ≡ some id → get_bucket_index c rt id ≡ some i
    given_index id =
        given_up_of_All (λ a. get_bucket_index c rt a ≡ some i) id room n.id b.list
          (All-map (λ m h. h.1) b.list (table.bucket i b found).belong)

    find_in_same :
        (id : Address)
        → IsAddress id
        → id ≢ n.id
        → id ≢ rt.id
        → get_bucket_index c rt id ≡ some i
        → (given_up room n.id b.list ≢ some id → find_node_id c rt_after id ≡ find_node_id c rt id)
          × (given_up room n.id b.list ≡ some id → find_node_id c rt_after id ≡ done none)
    find_in_same id h ne other at =
        let ne' : n.id ≢ id = λ e. ne (sym e) in
        let after =
          find_inside id other at ∙ ap done (find_id_old id (kept room n.id b.list) n ne') in
        (
          (λ spared.
              after
              ∙ ap done (find_id-kept id room n.id b.list ne' spared)
              ∙ sym (find_in_bucket c rt healthy id i b other at found)),
          (λ given.
              after
              ∙ ap done (
                  find_id-kept_given id room n.id b.list ne' (table.bucket i b found).distinct
                    given)),
        )

    find_others :
        (id : Address)
        → IsAddress id
        → id ≢ n.id
        → (given_up room n.id b.list ≢ some id → find_node_id c rt_after id ≡ find_node_id c rt id)
          × (given_up room n.id b.list ≡ some id → find_node_id c rt_after id ≡ done none)
    find_others id h ne = elim (Bool-cases (address_eq id rt.id)) [
      | inl own ↦
          let e : rt.id ≡ id = sym ((address_eq_iff id rt.id).0 own) in
          let after = find_own c rt_after healthy in
          rw (← e) ((λ _. after ∙ sym (find_own c rt healthy)), (λ _. after))
      | inr own ↦
          let other : id ≢ rt.id = λ e. cc (own, (address_eq_iff id rt.id).1 e) in
          let (j, d, at, found_d, _) = bucket_of id h other in
          elim (ℕ_discrete i j) [
            | yes same ↦ find_in_same id h ne other (at ∙ ap some (sym same))
            | no apart ↦ (
              (λ _. find_outside id j other apart at h),
              (λ e. absurd (apart (some-injective i j (sym (given_index id e) ∙ at)))),
            )
          ]
    ]

    -- For a well-formed table with a healthy lock, and a node that comes into its bucket: looking
    -- the node up finds it.
    find_new : n.id ≢ rt.id → find_node_id c rt_after n.id ≡ done (some n)
    find_new ne =
        find_inside n.id ne at_n
        ∙ ap done (
            find_id_new n.id (kept room n.id b.list) n
              (kept-DistinctIds room n.id b.list (table.bucket i b found).distinct).1 refl)

module _ (c : Crates) (laws : CratesLaws c) (rt : RoutingTable) (table : IsTable c rt) (now : ℤ)
    (n : NodeInfo) (hn : IsAddress n.id) where
  own_rejected : n.id ≡ rt.id → insert_contact c now rt n ≡ done (rt, none)
  unfolding insert_contact
  own_rejected e = if_true _ _ ((address_eq_iff n.id rt.id).1 e)

  -- Only another node behind a healthy lock is let in.
  inserted :
      (rt' : RoutingTable)
      → insert_contact c now rt n ≡ done (rt', some tt)
      → (n.id ≢ rt.id) × (rt.table.poisoned ≡ false)
  inserted rt' e = (
    not_own,
    elim (Bool-cases rt.table.poisoned) [
      | inl p ↦
          let (i, b, at, found, result) = insert_contact_lem c laws now rt n table hn not_own in
          absurd (refused (result ∙ if_true _ _ p))
      | inr p ↦ p
    ],
  )
    where
      refused : insert_contact c now rt n ≡ done (rt, none) → ⊥
      refused r =
          let answer = ap (λ p. p.1) (done-injective (rt', some tt) (rt, none) (sym e ∙ r)) in cc

      not_own : n.id ≢ rt.id
      not_own same = refused (own_rejected same)

  find-insert_contact_cases :
      (rt' : RoutingTable) (id : Address)
      → IsAddress id
      → insert_contact c now rt n ≡ done (rt', some tt)
      → (id ≡ n.id → find_node_id c rt' id ≡ done (some n))
        × (id ≢ n.id → evicted c rt n ≡ some id → find_node_id c rt' id ≡ done none)
        × (id ≢ n.id → evicted c rt n ≢ some id → find_node_id c rt' id ≡ find_node_id c rt id)
  find-insert_contact_cases rt' id h e =
      let (ne, healthy) = inserted rt' e in
      let (i, b, at, found, result) = insert_contact_lem c laws now rt n table hn ne in
      let inside : i < length rt.table.value =
        let (_, lt, _) = InBucket-of_index c laws rt table.own n.id hn i at in
        omega (arith, table.size) in
      let same : rt' ≡ rt_after c laws rt table healthy now n i b at found inside =
        ap (λ p. p.0) (done-injective _ _ (sym e ∙ result ∙ if_false _ _ healthy)) in
      let others = find_others c laws rt table healthy now n i b at found inside id h in
      let new = find_new c laws rt table healthy now n i b at found inside ne in
      rw (same, evicted-given_up c rt n i b at found)
        ((λ e. rw e new), (λ ne given. (others ne).1 given), (λ ne spared. (others ne).0 spared))

  -- For a well-formed table and a node with a valid address whose insertion succeeds: afterwards
  -- its address is found with exactly the new contact; the address that a full bucket gave up for
  -- it is not found any more; and every other address is looked up with the same result as before.
  pub find-insert_contact :
      (rt' : RoutingTable) (id : Address)
      → IsAddress id
      → insert_contact c now rt n ≡ done (rt', some tt)
      → ((id ≡ n.id) × (find_node_id c rt' id ≡ done (some n)))
        ⊎ ((id ≢ n.id) × (evicted c rt n ≡ some id) × (find_node_id c rt' id ≡ done none))
        ⊎ ((id ≢ n.id)
            × (evicted c rt n ≢ some id)
            × (find_node_id c rt' id ≡ find_node_id c rt id))
  find-insert_contact rt' id h e =
      let (new, gone, others) = find-insert_contact_cases rt' id h e in
      elim (Bool-cases (address_eq id n.id)) [
        | inl same ↦ let s = (address_eq_iff id n.id).0 same in inl (s, new s)
        | inr differ ↦
            let ne : id ≢ n.id = λ s. cc (differ, (address_eq_iff id n.id).1 s) in
            elim (Option-cases (evicted c rt n)) [
              | inl no_one ↦
                  let apart : evicted c rt n ≢ some id = λ s. cc (no_one, s) in
                  inr (inr (ne, apart, others ne apart))
              | inr (old, is_old) ↦ elim (Bool-cases (address_eq old id)) [
                | inl same ↦
                    let s = is_old ∙ ap some ((address_eq_iff old id).0 same) in
                    inr (inl (ne, s, gone ne s))
                | inr other ↦
                    let apart : evicted c rt n ≢ some id = λ s.
                      cc (
                        other,
                        (address_eq_iff old id).1 (some-injective old id (sym is_old ∙ s)),
                      ) in
                    inr (inr (ne, apart, others ne apart))
              ]
            ]
      ]
