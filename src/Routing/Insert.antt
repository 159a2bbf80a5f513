-- ===== src/Routing/Insert.antt =====
-- The invariant of the routing table, and what `insert_contact` and `find_node_id` do.
use mathlib.Core.Path.{subst}
use Prim.Native.Nat.{zero-le}
use native.Mathlib.Decide.{ℕ_discrete}
use kademlia_blockchain_auct.Prelude.{
  ℕ, ◌≤◌, ◌<◌, ◌≡◌, ◌≢◌, ◌⊎◌, refl, sym, ◌∙◌, List, [], ◌∷◌, ◌++◌, Option, none, some, arith, true,
  if_true, if_false, inl, inr, Bool-cases, Option-cases, if◌then◌else◌, length, length-append,
  length-set, All, All-append, get_elem?, set, get_elem?-set_inv, get_elem?-set_ne, get_elem?-lt,
  get_elem?-replicate_inv, length-replicate,
}
use kademlia_blockchain_auct.Prelude.Int.{ℤ}
use kademlia_blockchain_auct.Prelude.Sync.{done}
use kademlia_blockchain_auct.Crates.{Crates, CratesLaws}
use kademlia_blockchain_auct.Config.{Config}
use kademlia_blockchain_auct.Address.{IsAddress, address_eq, address_eq_iff}
use kademlia_blockchain_auct.Peer.{NodeInfo}
use kademlia_blockchain_auct.Routing.KBucket
use kademlia_blockchain_auct.Routing.KBucket.{KBucket}
use kademlia_blockchain_auct.Routing.Table.{
  RoutingTable, n_buckets, new_table, get_bucket_index, insert_into_bucket, insert_contact,
}
use kademlia_blockchain_auct.Routing.Index.{get_bucket_index_iff, InBucket-of_index}
use kademlia_blockchain_auct.Routing.Evict.{
  DistinctIds, kept, list-insert_into_bucket, DistinctIds-append,
}
use kademlia_blockchain_auct.Routing.Kept.{kept-All, kept-DistinctIds, kept-lt-room}

module _ (c : Crates) where
  -- A contact of bucket `i`.
  abbrev pub BelongsTo : RoutingTable → ℕ → NodeInfo → Type 0
  BelongsTo rt i n = IsAddress n.id × (get_bucket_index c rt n.id ≡ some i)

  -- Bucket `i` holds only contacts that belong there, each address once, within the capacity.
  pub record IsBucket (rt : RoutingTable) (i : ℕ) (l : List NodeInfo) : Type 0 where
    pub belong : All (BelongsTo rt i) l
    pub distinct : DistinctIds l
    pub bounded : length l ≤ rt.config.max_kbucket_entries

  pub record IsTable (rt : RoutingTable) : Type 0 where
    pub own : IsAddress rt.id
    pub size : length rt.table.value ≡ n_buckets
    pub bucket : (i : ℕ) (b : KBucket) → get_elem? rt.table.value i ≡ some b → IsBucket rt i b.list

  pub new_table-IsTable :
      (now : ℤ) (n : NodeInfo) (config : Config) → IsAddress n.id → IsTable (new_table now n config)
  unfolding new_table
  new_table-IsTable now n config h = record {
    own = h;
    size = length-replicate n_buckets (KBucket.new now);
    bucket = λ i b e.
        let same : b ≡ KBucket.new now = get_elem?-replicate_inv n_buckets i _ b e in
        rw same (record { belong = tt; distinct = tt; bounded = zero-le });
  }

-- The table with bucket `i` replaced.
abbrev pub put_bucket : RoutingTable → ℕ → KBucket → RoutingTable
put_bucket rt i b = record rt { table = record rt.table { value = set rt.table.value i b } }

module _ (c : Crates) (laws : CratesLaws c) (now : ℤ) (rt : RoutingTable) (n : NodeInfo)
    (table : IsTable c rt) (hn : IsAddress n.id) where
  abbrev after : ℕ → KBucket → RoutingTable
  after i b = put_bucket rt i (insert_into_bucket now rt.config.max_kbucket_entries n b)

  -- Another node than the table's own has a bucket, and a healthy lock lets it in.
  pub insert_contact_lem :
      n.id ≢ rt.id
      → (i : ℕ) × (b : KBucket) × (get_bucket_index c rt n.id ≡ some i)
        × (get_elem? rt.table.value i ≡ some b)
        × (insert_contact c now rt n
            ≡ (if rt.table.poisoned then done (rt, none) else done (after i b, some tt)))
  unfolding insert_contact
  insert_contact_lem ne = elim (Option-cases (get_bucket_index c rt n.id)) [
    | inl missing ↦
        absurd (ne (sym ((get_bucket_index_iff c laws rt table.own n.id hn).2.0 missing)))
    | inr (i, at) ↦
        let (_, lt, _) = InBucket-of_index c laws rt table.own n.id hn i at in
        let (b, found) = get_elem?-lt rt.table.value i (omega (arith, table.size)) in
        (i, b, at, found, ground (arith, address_eq_iff n.id rt.id))
  ]

  insert_into-IsBucket :
      (i : ℕ) (l : List NodeInfo)
      → 0 < rt.config.max_kbucket_entries
      → get_bucket_index c rt n.id ≡ some i
      → IsBucket c rt i l
      → IsBucket c rt i (kept rt.config.max_kbucket_entries n.id l ++ n ∷ [])
  insert_into-IsBucket i l pos at h =
      let room = rt.config.max_kbucket_entries in
      let (distinct, lacks) = kept-DistinctIds room n.id l h.distinct in
      record {
        belong =
            All-append (BelongsTo c rt i) (kept room n.id l) (n ∷ [])
              (kept-All room n.id l (BelongsTo c rt i) h.belong) ((hn, at), tt);
        distinct = DistinctIds-append (kept room n.id l) n distinct lacks;
        bounded = omega (
          arith,
          length-append (kept room n.id l) (n ∷ []),
          kept-lt-room room n.id l pos h.bounded,
        );
      }

  moved-IsBucket :
      (i j : ℕ) (l : KBucket) (m : List NodeInfo)
      → IsBucket c rt j m
      → IsBucket c (put_bucket rt i l) j m
  unfolding get_bucket_index
  moved-IsBucket i j l m h = record {
    belong = h.belong;
    distinct = h.distinct;
    bounded = h.bounded;
  }

  put_bucket-IsTable :
      (i : ℕ) (l : KBucket) → IsBucket c rt i l.list → IsTable c (put_bucket rt i l)
  put_bucket-IsTable i l h = record {
    own = table.own;
    size = length-set rt.table.value i l ∙ table.size;
    bucket = λ j b e. elim (ℕ_discrete i j) [
      | yes same ↦
          let there : b ≡ l =
            get_elem?-set_inv rt.table.value i l b
              (subst (λ k. get_elem? (set rt.table.value i l) k ≡ some b) (sym same) e) in
          rw (← same, there) (moved-IsBucket i i l l.list h)
      | no other ↦
          moved-IsBucket i j l b.list
            (table.bucket j b (sym (get_elem?-set_ne rt.table.value i j l other) ∙ e))
    ];
  }

  -- On a well-formed table with room for at least one contact in a bucket, inserting any node
  -- returns without a panic, and leaves a well-formed table with the same address, configuration
  -- and lock state. Only a node with the table's own address or a failed lock is turned away, with
  -- the table unchanged.
  pub insert_contact-IsTable :
      0 < rt.config.max_kbucket_entries
      → (rt' : RoutingTable) × (r : Option (Unit {0})) × (insert_contact c now rt n ≡ done (rt', r))
        × IsTable c rt'
        × (rt'.id ≡ rt.id)
        × (rt'.config ≡ rt.config)
        × (rt'.table.poisoned ≡ rt.table.poisoned)
        × ((r ≡ some tt)
            ⊎ ((r ≡ none) × (rt' ≡ rt) × ((n.id ≡ rt.id) ⊎ (rt.table.poisoned ≡ true))))
  insert_contact-IsTable pos = elim (Bool-cases (address_eq n.id rt.id)) [
    | inl same ↦ (
      rt,
      none,
      rejected same,
      table,
      refl,
      refl,
      refl,
      inr (refl, refl, inl ((address_eq_iff n.id rt.id).0 same)),
    )
    | inr other ↦
        let ne : n.id ≢ rt.id = λ e. cc (other, (address_eq_iff n.id rt.id).1 e) in
        let (i, b, at, found, result) = insert_contact_lem ne in
        elim (Bool-cases rt.table.poisoned) [
          | inl p ↦
              (rt, none, result ∙ if_true _ _ p, table, refl, refl, refl, inr (refl, refl, inr p))
          | inr p ↦ (
            after i b,
            some tt,
            result ∙ if_false _ _ p,
            put_bucket-IsTable i _ (
                rw (list-insert_into_bucket now rt.config.max_kbucket_entries n b)
                  (insert_into-IsBucket i b.list pos at (table.bucket i b found))),
            refl,
            refl,
            refl,
            inl refl,
          )
        ]
  ]
    where
      rejected : address_eq n.id rt.id ≡ true → insert_contact c now rt n ≡ done (rt, none)
      rejected e = unfold insert_contact in rw e
