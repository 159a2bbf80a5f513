-- ===== src/Routing/Evict.antt =====
-- Eviction from a bucket, against its description: the first contact with the address goes.
use kademlia_blockchain_auct.Prelude.{
  ℕ, suc, ◌+◌, ◌≤◌, ◌≡◌, ◌≢◌, refl, sym, List, [], ◌∷◌, ◌++◌, none, some, arith, inl, inr,
  Bool-cases, Option-cases, if◌then◌else◌, ◌==◌, length, take, drop, tail, All, All-append,
}
use kademlia_blockchain_auct.Prelude.Int.{ℤ}
use kademlia_blockchain_auct.Address.{Address, address_eq, address_eq_iff}
use kademlia_blockchain_auct.Peer.{NodeInfo}
use kademlia_blockchain_auct.Routing.KBucket.{KBucket}
use kademlia_blockchain_auct.Routing.Table.{position_from, evict_from_bucket, insert_into_bucket}

unfoldable pub erase_id : Address → List NodeInfo → List NodeInfo
erase_id id [] = []
erase_id id (n ∷ l) = if address_eq n.id id then l else n ∷ erase_id id l

-- No contact of the list has the address.
abbrev pub Lacks : Address → List NodeInfo → Type 0
Lacks id = All (λ n. n.id ≢ id)

-- No address occurs twice.
abbrev pub DistinctIds : List NodeInfo → Type 0
DistinctIds [] = Unit
DistinctIds (n ∷ l) = Lacks n.id l × DistinctIds l

module _ (id : Address) where
  position_miss : (i : ℕ) (l : List NodeInfo) → position_from i id l ≡ none → erase_id id l ≡ l
  unfolding position_from erase_id
  position_miss i [] h = refl
  position_miss i (n ∷ l) h = ground (arith, position_miss (i + 1) l)

  position_hit :
      (i : ℕ) (l : List NodeInfo) (k : ℕ)
      → position_from i id l ≡ some k
      → (m : ℕ) × (k ≡ i + m) × (take m l ++ tail (drop m l) ≡ erase_id id l)
  unfolding position_from erase_id
  position_hit i [] k h = cc
  position_hit i (n ∷ l) k h = elim (Bool-cases (address_eq n.id id)) [
    | inl e ↦ (0, ground arith, ground arith)
    | inr e ↦
        let (m, at_k, rest) = position_hit (i + 1) l k (ground arith) in
        (suc m, omega arith, rw (e, rest))
  ]

  pub list-evict_from_bucket : (b : KBucket) → (evict_from_bucket id b).list ≡ erase_id id b.list
  unfolding evict_from_bucket
  list-evict_from_bucket b = elim (Option-cases (position_from 0 id b.list)) [
    | inl e ↦ rw (e, evict_from_bucket) (sym (position_miss 0 b.list e))
    | inr (k, e) ↦
        let (m, at_k, rest) = position_hit 0 b.list k e in
        let same : k ≡ m = omega arith in rw (e, evict_from_bucket) (rw same rest)
  ]

  module _ {ℓ} (P : NodeInfo → Type ℓ) where
    pub All-erase_id : (l : List NodeInfo) → All P l → All P (erase_id id l)
    unfolding erase_id
    All-erase_id [] h = tt
    All-erase_id (n ∷ l) h = elim (Bool-cases (address_eq n.id id)) [
      | inl e ↦ rw e h.1
      | inr e ↦ rw e (h.0, All-erase_id l h.1)
    ]

  pub length-erase_id-le : (l : List NodeInfo) → length (erase_id id l) ≤ length l
  unfolding erase_id
  length-erase_id-le [] = omega arith
  length-erase_id-le (n ∷ l) = ground (arith, length-erase_id-le l)

  pub erase_id-DistinctIds : (l : List NodeInfo) → DistinctIds l → DistinctIds (erase_id id l)
  unfolding erase_id
  erase_id-DistinctIds [] h = tt
  erase_id-DistinctIds (n ∷ l) h = elim (Bool-cases (address_eq n.id id)) [
    | inl e ↦ rw e h.1
    | inr e ↦ rw e (All-erase_id (λ m. m.id ≢ n.id) l h.0, erase_id-DistinctIds l h.1)
  ]

  pub erase_id-Lacks : (l : List NodeInfo) → DistinctIds l → Lacks id (erase_id id l)
  unfolding erase_id
  erase_id-Lacks [] h = tt
  erase_id-Lacks (n ∷ l) h = elim (Bool-cases (address_eq n.id id)) [
    | inl e ↦ rw (e, ← (address_eq_iff n.id id).0 e) h.0
    | inr e ↦ rw e ((λ same. cc (e, (address_eq_iff n.id id).1 same)), erase_id-Lacks l h.1)
  ]

pub DistinctIds-append :
    (l : List NodeInfo) (n : NodeInfo) → DistinctIds l → Lacks n.id l → DistinctIds (l ++ n ∷ [])
DistinctIds-append [] n h k = (tt, tt)
DistinctIds-append (m ∷ l) n h k = (
  All-append (λ x. x.id ≢ m.id) l (n ∷ []) h.0 ((λ e. k.0 (sym e)), tt),
  DistinctIds-append l n h.1 k.1,
)

-- The contacts that stay when `n` comes into a bucket of at most `room`.
abbrev pub kept : ℕ → Address → List NodeInfo → List NodeInfo
kept room id l = let rest = erase_id id l in if length rest == room then tail rest else rest

pub list-insert_into_bucket :
    (now : ℤ) (room : ℕ) (n : NodeInfo) (b : KBucket)
    → (insert_into_bucket now room n b).list ≡ kept room n.id b.list ++ n ∷ []
unfolding insert_into_bucket
list-insert_into_bucket now room n b = rw (list-evict_from_bucket n.id b)
