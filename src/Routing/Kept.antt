-- ===== src/Routing/Kept.antt =====
-- Which contacts stay when one comes into a bucket.
use native.Mathlib.Decide.{ℕ_discrete}
use kademlia_blockchain_auct.Prelude.{
  ℕ, suc, ◌<◌, ◌≤◌, ◌≡◌, ◌≢◌, ◌⊎◌, refl, List, [], ◌∷◌, arith, inl, inr, length, tail, All,
}
use kademlia_blockchain_auct.Address.{Address}
use kademlia_blockchain_auct.Peer.{NodeInfo}
use kademlia_blockchain_auct.Routing.Evict.{
  erase_id, Lacks, DistinctIds, kept, All-erase_id, length-erase_id-le, erase_id-DistinctIds,
  erase_id-Lacks,
}

tail-All {ℓ} : (P : NodeInfo → Type ℓ) (l : List NodeInfo) → All P l → All P (tail l)
tail-All P [] h = tt
tail-All P (n ∷ l) h = h.1

tail-DistinctIds : (l : List NodeInfo) → DistinctIds l → DistinctIds (tail l)
tail-DistinctIds [] h = tt
tail-DistinctIds (n ∷ l) h = h.1

length-tail : (l : List NodeInfo) → 0 < length l → suc (length (tail l)) ≡ length l
length-tail [] h = elim h [ ]
length-tail (n ∷ l) h = refl

module _ (room : ℕ) (id : Address) (l : List NodeInfo) where
  kept_cases :
      ((length (erase_id id l) ≡ room) × (kept room id l ≡ tail (erase_id id l)))
      ⊎ ((length (erase_id id l) ≢ room) × (kept room id l ≡ erase_id id l))
  kept_cases = elim (ℕ_discrete (length (erase_id id l)) room) [
    | yes p ↦ inl (p, ground arith)
    | no p ↦ inr (p, ground arith)
  ]

  pub kept-All {ℓ} : (P : NodeInfo → Type ℓ) → All P l → All P (kept room id l)
  kept-All P h = elim kept_cases [
    | inl (_, e) ↦ rw e (tail-All P _ (All-erase_id id P l h))
    | inr (_, e) ↦ rw e (All-erase_id id P l h)
  ]

  pub kept-DistinctIds : DistinctIds l → DistinctIds (kept room id l) × Lacks id (kept room id l)
  kept-DistinctIds h = elim kept_cases [
    | inl (_, e) ↦
        rw e
          (tail-DistinctIds _ (erase_id-DistinctIds id l h), tail-All _ _ (erase_id-Lacks id l h))
    | inr (_, e) ↦ rw e (erase_id-DistinctIds id l h, erase_id-Lacks id l h)
  ]

  pub kept-lt-room : 0 < room → length l ≤ room → length (kept room id l) < room
  kept-lt-room pos fits = elim kept_cases [
    | inl (full, e) ↦ rw e (omega (arith, length-tail (erase_id id l) (omega arith)))
    | inr (other, e) ↦ rw e (omega (arith, length-erase_id-le id l))
  ]
