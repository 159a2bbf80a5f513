-- ===== src/Routing/FindId.antt =====
-- Looking an address up in a bucket, before and after a contact comes in.
use mathlib.Core.Path.{subst}
use mathlib.Core.Option.{some-injective}
use kademlia_blockchain_auct.Prelude.{
  ℕ, ◌≡◌, ◌≢◌, refl, ap, sym, ◌∙◌, List, [], ◌∷◌, ◌++◌, Option, none, some, false, if_true,
  if_false, inl, inr, Bool-cases, if◌then◌else◌, ◌==◌, length, All, tail, find?,
}
use kademlia_blockchain_auct.Address.{Address, address_eq, address_eq_iff}
use kademlia_blockchain_auct.Peer.{NodeInfo}
use kademlia_blockchain_auct.Routing.Evict.{
  erase_id, All-erase_id, Lacks, DistinctIds, kept, erase_id-DistinctIds,
}

-- The first contact of a bucket with the address.
abbrev pub find_id : Address → List NodeInfo → Option NodeInfo
find_id id = find? (λ n. address_eq n.id id)

abbrev pub oldest_id : List NodeInfo → Option Address
oldest_id [] = none
oldest_id (n ∷ l) = some n.id

-- The address that a full bucket gives up when `id` comes in.
abbrev pub given_up : ℕ → Address → List NodeInfo → Option Address
given_up room id l =
    let rest = erase_id id l in if length rest == room then oldest_id rest else none

pub address_eq-false : (a b : Address) → a ≢ b → address_eq a b ≡ false
address_eq-false a b ne = elim (Bool-cases (address_eq a b)) [
  | inl e ↦ absurd (ne ((address_eq_iff a b).0 e))
  | inr e ↦ e
]

module _ (id : Address) where
  pub find_id_new :
      (l : List NodeInfo) (n : NodeInfo)
      → Lacks id l
      → n.id ≡ id
      → find_id id (l ++ n ∷ []) ≡ some n
  find_id_new [] n h e = if_true _ _ ((address_eq_iff n.id id).1 e)
  find_id_new (m ∷ l) n h e = if_false _ _ (address_eq-false m.id id h.0) ∙ find_id_new l n h.1 e

  pub find_id_old :
      (l : List NodeInfo) (n : NodeInfo) → n.id ≢ id → find_id id (l ++ n ∷ []) ≡ find_id id l
  find_id_old [] n ne = if_false _ _ (address_eq-false n.id id ne)
  find_id_old (m ∷ l) n ne = rw (find_id_old l n ne)

  find_id-erase_id :
      (gone : Address) (l : List NodeInfo) → gone ≢ id → find_id id (erase_id gone l) ≡ find_id id l
  unfolding erase_id
  find_id-erase_id gone [] ne = refl
  find_id-erase_id gone (n ∷ l) ne = elim (Bool-cases (address_eq n.id gone)) [
    | inl e ↦
        let other : n.id ≢ id = λ same. ne (sym ((address_eq_iff n.id gone).0 e) ∙ same) in
        rw (e, address_eq-false n.id id other)
    | inr e ↦ rw (e, find_id-erase_id gone l ne)
  ]

  find_id_lacking : (l : List NodeInfo) → Lacks id l → find_id id l ≡ none
  find_id_lacking [] h = refl
  find_id_lacking (n ∷ l) h = if_false _ _ (address_eq-false n.id id h.0) ∙ find_id_lacking l h.1

  find_id-tail : (l : List NodeInfo) → oldest_id l ≢ some id → find_id id (tail l) ≡ find_id id l
  find_id-tail [] h = refl
  find_id-tail (n ∷ l) h = sym (if_false _ _ (address_eq-false n.id id (λ e. h (ap some e))))

  find_id-tail_oldest :
      (l : List NodeInfo) → DistinctIds l → oldest_id l ≡ some id → find_id id (tail l) ≡ none
  find_id-tail_oldest [] d h = refl
  find_id-tail_oldest (n ∷ l) d h = find_id_lacking l (rw (some-injective n.id id h) at d.0)

  module _ (room : ℕ) (new : Address) (l : List NodeInfo) (ne : new ≢ id) where
    pub find_id-kept_given :
        DistinctIds l → given_up room new l ≡ some id → find_id id (kept room new l) ≡ none
    find_id-kept_given d h = elim (Bool-cases (length (erase_id new l) == room)) [
      | inl full ↦
          rw full
            (find_id-tail_oldest (erase_id new l) (erase_id-DistinctIds new l d) (rw full at h))
      | inr spare ↦ absurd (cc (rw spare at h))
    ]

    pub find_id-kept : given_up room new l ≢ some id → find_id id (kept room new l) ≡ find_id id l
    find_id-kept h = elim (Bool-cases (length (erase_id new l) == room)) [
      | inl full ↦
          rw full (find_id-tail (erase_id new l) (rw full at h) ∙ find_id-erase_id new l ne)
      | inr spare ↦ rw spare (find_id-erase_id new l ne)
    ]

module _ {ℓ} (P : Address → Type ℓ) (id : Address) where
  oldest_id_of_All : (l : List NodeInfo) → All (λ n. P n.id) l → oldest_id l ≡ some id → P id
  oldest_id_of_All [] h e = cc
  oldest_id_of_All (n ∷ l) h e = subst P (some-injective n.id id e) h.0

  -- What holds of all addresses of the bucket holds of the one that is given up.
  pub given_up_of_All :
      (room : ℕ) (new : Address) (l : List NodeInfo)
      → All (λ n. P n.id) l
      → given_up room new l ≡ some id
      → P id
  given_up_of_All room new l h e = elim (Bool-cases (length (erase_id new l) == room)) [
    | inl full ↦
        oldest_id_of_All (erase_id new l) (All-erase_id new (λ n. P n.id) l h) (rw full at e)
    | inr spare ↦ absurd (cc (rw spare at e))
  ]
