-- ===== src/Prelude/Count.antt =====
-- How many numbers below a bound pass a test: the measure of a search that marks what it has seen.
use Prim.Native.Nat.{ℕ, zero, suc, ◌+◌, ◌≤◌, ◌<◌}
use mathlib.Core.Path.{◌≡◌, sym, ap, ◌∙◌}
use mathlib.Core.Logic.{inl, inr}
use mathlib.Core.Bool.{Bool, true, false}
use native.Mathlib.Omega.{arith}
use native.Mathlib.Decide.{ℕ_discrete}
use kademlia_blockchain_auct.Prelude.Tests.{if◌then◌else◌, Bool-cases}

pub count_below : (ℕ → Bool) → ℕ → ℕ
count_below p zero = 0
count_below p (suc n) = (if p n then 1 else 0) + count_below p n

module _ (p q : ℕ → Bool) (fewer : (u : ℕ) → q u ≡ true → p u ≡ true) where
  clash : (u : ℕ) → q u ≡ true → p u ≡ false → ⊥
  clash u e f = cc (fewer u e, f)

  count-le : (n : ℕ) → count_below q n ≤ count_below p n
  unfolding count_below
  count-le zero = omega arith
  count-le (suc n) = elim (Bool-cases (q n)) [
    | inl e ↦ rw (e, fewer n e) (omega (arith, count-le n))
    | inr e ↦ elim (Bool-cases (p n)) [
      | inl f ↦ rw (e, f) (omega (arith, count-le n))
      | inr f ↦ rw (e, f) (omega (arith, count-le n))
    ]
  ]

  -- If a number below the bound passes the first test and not the second, the second has fewer.
  pub count_below-lt :
      (n v : ℕ) → v < n → p v ≡ true → q v ≡ false → count_below q n < count_below p n
  unfolding count_below
  count_below-lt zero v lt pv qv = absurd (omega arith)
  count_below-lt (suc n) v lt pv qv = elim (ℕ_discrete v n) [
    | yes same ↦
        let pn : p n ≡ true = ap p (sym same) ∙ pv in
        let qn : q n ≡ false = ap q (sym same) ∙ qv in rw (pn, qn) (omega (arith, count-le n))
    | no ne ↦
        let less = count_below-lt n v (omega arith) pv qv in
        elim (Bool-cases (q n)) [
          | inl e ↦ rw (e, fewer n e) (omega arith)
          | inr e ↦ elim (Bool-cases (p n)) [
            | inl f ↦ rw (e, f) (omega arith)
            | inr f ↦ rw (e, f) (omega arith)
          ]
        ]
  ]
