-- ===== src/Routing/Closest/Result.antt =====
-- What `get_k_closest_nodes` returns.
use native.Mathlib.Decide.{ℕ_discrete}
use mathlib.Core.Option.{some-injective}
use kademlia_blockchain_auct.Prelude.{
  ℕ, ◌≤◌, ◌<◌, ◌≡◌, ◌≢◌, ◌⊎◌, refl, ap, sym, ◌∙◌, Bool, true, not, List, [], ◌∷◌, ◌++◌, some, arith,
  inl, inr, Bool-cases, leb, leb→le, if◌then◌else◌, if_true, if_false, length, get_elem?,
  get_elem?-lt, filter, All, All-append, Elem, All-of_Elem, All-Elem, Elem-append_left,
  Elem-append_right, Elem-filter, Elem-filter_inv, All-map,
}
use kademlia_blockchain_auct.Prelude.Sync.{done}
use kademlia_blockchain_auct.Crates.{Crates}
use kademlia_blockchain_auct.Address.{Address, address_eq, address_eq_iff, distance}
use kademlia_blockchain_auct.Peer.{NodeInfo}
use kademlia_blockchain_auct.Routing.KBucket.{KBucket}
use kademlia_blockchain_auct.Routing.Table.{RoutingTable}
use kademlia_blockchain_auct.Routing.Closest.{collect}
use kademlia_blockchain_auct.Routing.Closest.Cover.{count}

-- A node that some bucket holds.
abbrev pub Contact : RoutingTable → NodeInfo → Type 0
Contact rt n = (i : ℕ) × (b : KBucket) × (get_elem? rt.table.value i ≡ some b) × Elem n b.list

abbrev pub by_distance : Crates → Address → NodeInfo → ℕ
by_distance c target = λ node. distance c node.id target

module _ (rt : RoutingTable) where
  abbrev pub other : NodeInfo → Bool
  other = λ node. not (address_eq node.id rt.id)

  other_ne : (n : NodeInfo) → other n ≡ true → n.id ≢ rt.id
  other_ne n h = λ e. cc (h, ap not ((address_eq_iff n.id rt.id).1 e))

  pub other_of_ne : (n : NodeInfo) → n.id ≢ rt.id → other n ≡ true
  other_of_ne n ne = elim (Bool-cases (address_eq n.id rt.id)) [
    | inl e ↦ absurd (ne ((address_eq_iff n.id rt.id).0 e))
    | inr e ↦ rw e
  ]

  -- The nodes that the answer may hold.
  abbrev pub Candidate : List NodeInfo → NodeInfo → Type 0
  Candidate result n = Elem n result ⊎ (Contact rt n × (n.id ≢ rt.id))

  -- What the loop leaves in `out`: candidates, with the whole of `result` among them; if it is short
  -- of `k_value`, it holds every other node of each bucket on its way.
  pub record Collected (indices : List ℕ) (result out : List NodeInfo) : Type 0 where
    pub found : All (Candidate result) out
    pub keeps : (n : NodeInfo) → Elem n result → Elem n out
    pub complete :
        length out < rt.config.k_value
        → (j : ℕ) (b : KBucket) (n : NodeInfo) → 0 < count j indices
        → get_elem? rt.table.value j ≡ some b
        → Elem n b.list
        → n.id ≢ rt.id
        → Elem n out

  added : List NodeInfo → KBucket → List NodeInfo
  added result b = result ++ filter other b.list

  module _ (idx : ℕ) (b : KBucket) (at : get_elem? rt.table.value idx ≡ some b)
      (result : List NodeInfo) where
    added-Candidate : All (Candidate result) (added result b)
    unfolding added
    added-Candidate =
        All-append (Candidate result) result (filter other b.list)
          (All-of_Elem (Candidate result) result (λ n m. inl m))
          (All-of_Elem (Candidate result) (filter other b.list) (λ n m.
            let (there, ok) = Elem-filter_inv other n b.list m in
            inr ((idx, b, at, there), other_ne n ok)))

    added_holds : (n : NodeInfo) → Elem n b.list → n.id ≢ rt.id → Elem n (added result b)
    unfolding added
    added_holds n m ne =
        Elem-append_right n result (filter other b.list)
          (Elem-filter other n b.list m (other_of_ne n ne))

    Collected-stop :
        (rest : List ℕ)
        → rt.config.k_value ≤ length (added result b)
        → Collected (idx ∷ rest) result (added result b)
    Collected-stop rest enough = record {
      found = added-Candidate;
      keeps = λ n m. unfold added in Elem-append_left n result (filter other b.list) m;
      complete = λ short j d n. absurd (omega arith);
    }

    Collected-more :
        (rest : List ℕ) (out : List NodeInfo)
        → Collected rest (added result b) out
        → Collected (idx ∷ rest) result out
    Collected-more rest out h = record {
      found =
          All-map
            (λ n c. elim c [
              | inl m ↦ All-Elem (Candidate result) (added result b) n added-Candidate m
              | inr m ↦ inr m
            ])
            out h.found;
      keeps = λ n m. h.keeps n (unfold added in Elem-append_left n result (filter other b.list) m);
      complete = λ short j d n pos at_j m ne. elim (ℕ_discrete j idx) [
        | yes e ↦
            let same : d ≡ b =
              some-injective d b (sym at_j ∙ ap (get_elem? rt.table.value) e ∙ at) in
            h.keeps n (added_holds n (rw same at m) ne)
        | no e ↦ h.complete short j d n (ground arith) at_j m ne
      ];
    }

    collect-step :
        (rest : List ℕ)
        → collect rt (idx ∷ rest) result ≡ (
            if leb rt.config.k_value (length (added result b))
            then done (added result b)
            else collect rt rest (added result b))
    unfolding collect added
    collect-step rest = rw (at, collect)

  pub collect_lem :
      (indices : List ℕ) (result : List NodeInfo)
      → ((j : ℕ) → 0 < count j indices → j < length rt.table.value)
      → (out : List NodeInfo) × (collect rt indices result ≡ done out)
        × Collected indices result out
  collect_lem [] result inside = (
    result,
    unfold collect in refl,
    record {
      found = All-of_Elem (Candidate result) result (λ n m. inl m);
      keeps = λ n m. m;
      complete = λ short j b n pos. absurd (omega arith);
    },
  )
  collect_lem (idx ∷ rest) result inside =
      let (b, at) = get_elem?-lt rt.table.value idx (inside idx (ground arith)) in
      elim (Bool-cases (leb rt.config.k_value (length (added result b)))) [
        | inl enough ↦ (
          added result b,
          collect-step idx b at result rest ∙ if_true _ _ enough,
          Collected-stop idx b at result rest (leb→le _ _ enough),
        )
        | inr short ↦
            let (out, e, h) =
              collect_lem rest (added result b) (λ j pos. inside j (ground arith)) in
            (
              out,
              collect-step idx b at result rest ∙ if_false _ _ short ∙ e,
              Collected-more idx b at result rest out h,
            )
      ]
