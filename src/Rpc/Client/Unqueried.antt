-- ===== src/Rpc/Client/Unqueried.antt =====
-- g_rpc/client.rs: the measure of `iterative_find_node`, the number of addresses not yet queried.
use kademlia_blockchain_auct.Prelude.{
  ℕ, ◌^◌, ◌<◌, ◌≡◌, refl, ap, sym, ◌∙◌, false, true, not, List, [], ◌∷◌, Bool, All, any, inl, inr,
  ◌==◌, arith, Bool-cases, if_true, if_false,
}
use kademlia_blockchain_auct.Prelude.Count.{count_below, count_below-lt}
use kademlia_blockchain_auct.Crates.{Crates, CratesLaws}
use kademlia_blockchain_auct.Address.{Address, IsAddress, address_eq, address_eq_iff, as_u256}
use kademlia_blockchain_auct.Address.Metric.{as_u256-IsU256, as_u256-injective}

module _ (c : Crates) (laws : CratesLaws c) where
  -- The addresses that have not been queried, as numbers.
  pub unqueried : List Address → ℕ → Bool
  unqueried queried v = not (any (λ a. v == as_u256 c a) queried)

  abbrev pub remaining : List Address → ℕ
  remaining queried = count_below (unqueried queried) (2 ^ 256)

  unqueried-new :
      (a : Address) (queried : List Address)
      → IsAddress a
      → All IsAddress queried
      → any (address_eq a) queried ≡ false
      → unqueried queried (as_u256 c a) ≡ true
  unfolding unqueried
  unqueried-new a [] ha hq new = refl
  unqueried-new a (b ∷ rest) ha hq new = elim (Bool-cases (address_eq a b)) [
    | inl same ↦ absurd (clash (sym (if_true _ _ same) ∙ new))
    | inr other ↦
        let differ : (as_u256 c a == as_u256 c b) ≡ false =
          ground (arith, as_u256-injective c laws a b ha hq.0, address_eq_iff a b) in
        rw differ (unqueried-new a rest ha hq.1 (sym (if_false _ _ other) ∙ new))
  ]
    where
      clash : true ≡ false → ⊥
      clash e = cc

  pub remaining-lt :
      (a : Address) (queried : List Address)
      → IsAddress a
      → All IsAddress queried
      → any (address_eq a) queried ≡ false
      → remaining (a ∷ queried) < remaining queried
  unfolding unqueried
  remaining-lt a queried ha hq new =
      count_below-lt (unqueried queried) (unqueried (a ∷ queried)) fewer (2 ^ 256) (as_u256 c a)
        (as_u256-IsU256 c laws a ha) (unqueried-new a queried ha hq new) marked
    where
      clash : false ≡ true → ⊥
      clash e = cc

      fewer : (u : ℕ) → unqueried (a ∷ queried) u ≡ true → unqueried queried u ≡ true
      fewer u e = elim (Bool-cases (u == as_u256 c a)) [
        | inl same ↦ absurd (clash (rw same at e))
        | inr other ↦ (rw other at e)
      ]

      marked : unqueried (a ∷ queried) (as_u256 c a) ≡ false
      marked = ap not (if_true {b = as_u256 c a == as_u256 c a} _ _ (ground arith))
