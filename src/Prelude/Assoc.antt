-- ===== src/Prelude/Assoc.antt =====
-- `HashMap<String, V>` as the list of its entries, each key once.
use mathlib.Core.Path.{◌≡◌, refl, sym, ◌∙◌}
use mathlib.Core.Logic.{inl, inr}
use mathlib.Core.Bool.{true, false}
use mathlib.Core.Option.{Option, none, some}
use mathlib.Core.List.{List, [], ◌∷◌}
use Prim.Native.String.{String}
use kademlia_blockchain_auct.Prelude.Tests.{if◌then◌else◌, if_true, if_false, Bool-cases}
use kademlia_blockchain_auct.Prelude.Text.{str_eq, str_eq_iff}

pub str_ne : (a b : String) → ¬ (a ≡ b) → str_eq a b ≡ false
str_ne a b ne = elim (Bool-cases (str_eq a b)) [
  | inl e ↦ absurd (ne ((str_eq_iff a b).0 e))
  | inr e ↦ e
]

module _ {ℓ} {V : Type ℓ} where
  unfoldable pub get : String → List (String × V) → Option V
  get key [] = none
  get key ((k, v) ∷ rest) = if str_eq k key then some v else get key rest

  unfoldable pub remove : String → List (String × V) → List (String × V)
  remove key [] = []
  remove key ((k, v) ∷ rest) =
      let others = remove key rest in if str_eq k key then others else (k, v) ∷ others

  unfoldable pub insert : String → V → List (String × V) → List (String × V)
  unfolding remove
  insert key v entries = (key, v) ∷ remove key entries

  pub get-remove :
      (key k : String) (m : List (String × V))
      → get key (remove k m) ≡ (if str_eq k key then none else get key m)
  unfolding get remove
  get-remove key k [] = elim (Bool-cases (str_eq k key)) [ inl e ↦ rw e refl | inr e ↦ rw e refl ]
  get-remove key k ((k', v) ∷ m) = elim (Bool-cases (str_eq k' k)) [
    | inl same ↦ elim (Bool-cases (str_eq k key)) [
      | inl e ↦ rw (same, e) (get-remove key k m ∙ if_true _ _ e)
      | inr e ↦
          let other : str_eq k' key ≡ false =
            str_ne k' key
              (λ f. clash (sym e ∙ (str_eq_iff k key).1 (sym ((str_eq_iff k' k).0 same) ∙ f))) in
          rw (same, e, other) (get-remove key k m ∙ if_false _ _ e)
    ]
    | inr differ ↦ elim (Bool-cases (str_eq k' key)) [
      | inl found ↦
          let other : str_eq k key ≡ false =
            str_ne k key (λ f.
              clash (sym differ ∙ (str_eq_iff k' k).1 ((str_eq_iff k' key).0 found ∙ sym f))) in
          rw (differ, found, other) refl
      | inr e ↦ rw (differ, e) (get-remove key k m)
    ]
  ]
    where
      clash : false ≡ true → ⊥
      clash e = cc

  pub get-insert :
      (key k : String) (v : V) (m : List (String × V))
      → get key (insert k v m) ≡ (if str_eq k key then some v else get key m)
  unfolding get insert
  get-insert key k v m = elim (Bool-cases (str_eq k key)) [
    | inl e ↦ rw e refl
    | inr e ↦ rw e (get-remove key k m ∙ if_false _ _ e)
  ]
