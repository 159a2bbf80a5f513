-- ===== src/Prelude/Sort.antt =====
-- `sort_by_key` of the standard library, a stable sort: equal keys keep their order.
use Prim.Native.Nat.{ℕ, zero, suc, ◌≤◌, ◌<◌}
use mathlib.Core.Path.{◌≡◌, refl}
use mathlib.Core.Logic.{◌⊎◌, inl, inr}
use mathlib.Core.List.{List, [], ◌∷◌, ◌++◌, Perm}
use mathlib.Core.List.Perm
use native.Mathlib.Omega.{arith}
use kademlia_blockchain_auct.Prelude.Tests.{leb, ltb, ltb→lt, if◌then◌else◌, Bool-cases, leb→le}
use kademlia_blockchain_auct.Prelude.Lists.{
  length, All, take, drop, All-map, All-take, All-drop, Elem,
}

module _ {ℓ} {A : Type ℓ} (key : A → ℕ) where
  insert_by : A → List A → List A
  insert_by x [] = x ∷ []
  insert_by x (y ∷ ys) = if leb (key x) (key y) then x ∷ y ∷ ys else y ∷ insert_by x ys

  unfoldable pub sort_by_key : List A → List A
  unfolding insert_by
  sort_by_key [] = []
  sort_by_key (x ∷ xs) = insert_by x (sort_by_key xs)

  abbrev pub IsSortedBy : List A → Type 0
  IsSortedBy [] = Unit
  IsSortedBy (x ∷ xs) = All (λ y. key x ≤ key y) xs × IsSortedBy xs

  module _ {κ} (P : A → Type κ) where
    All-insert_by : (x : A) (l : List A) → P x → All P l → All P (insert_by x l)
    unfolding insert_by
    All-insert_by x [] p h = (p, tt)
    All-insert_by x (y ∷ ys) p h = elim (Bool-cases (leb (key x) (key y))) [
      | inl e ↦ rw e (p, h)
      | inr e ↦ rw e (h.0, All-insert_by x ys p h.1)
    ]

    pub All-sort_by_key : (l : List A) → All P l → All P (sort_by_key l)
    unfolding sort_by_key
    All-sort_by_key [] h = h
    All-sort_by_key (x ∷ xs) h = All-insert_by x (sort_by_key xs) h.0 (All-sort_by_key xs h.1)

  insert_by-IsSortedBy : (x : A) (l : List A) → IsSortedBy l → IsSortedBy (insert_by x l)
  unfolding insert_by
  insert_by-IsSortedBy x [] s = (tt, tt)
  insert_by-IsSortedBy x (y ∷ ys) s = elim (Bool-cases (leb (key x) (key y))) [
    | inl e ↦
        let le = leb→le (key x) (key y) e in rw e ((le, All-map (λ z h. omega arith) ys s.0), s)
    | inr e ↦
        rw e (
          All-insert_by (λ z. key y ≤ key z) x ys (ground arith) s.0,
          insert_by-IsSortedBy x ys s.1,
        )
  ]

  pub sort_by_key-IsSortedBy : (l : List A) → IsSortedBy (sort_by_key l)
  unfolding sort_by_key
  sort_by_key-IsSortedBy [] = tt
  sort_by_key-IsSortedBy (x ∷ xs) =
      insert_by-IsSortedBy x (sort_by_key xs) (sort_by_key-IsSortedBy xs)

  insert_by-perm : (x : A) (l : List A) → Perm (insert_by x l) (x ∷ l)
  unfolding insert_by
  insert_by-perm x [] = Perm.rfl
  insert_by-perm x (y ∷ ys) = elim (Bool-cases (leb (key x) (key y))) [
    | inl e ↦ rw e Perm.rfl
    | inr e ↦ rw e (Perm.trans (Perm.cons y (insert_by-perm x ys)) (Perm.swap x y ys))
  ]

  pub sort_by_key-perm : (l : List A) → Perm (sort_by_key l) l
  unfolding sort_by_key
  sort_by_key-perm [] = Perm.rfl
  sort_by_key-perm (x ∷ xs) =
      Perm.trans (insert_by-perm x (sort_by_key xs)) (Perm.cons x (sort_by_key-perm xs))

  length-insert_by : (x : A) (l : List A) → length (insert_by x l) ≡ suc (length l)
  unfolding insert_by
  length-insert_by x [] = refl
  length-insert_by x (y ∷ ys) = ground (arith, length-insert_by x ys)

  pub length-sort_by_key : (l : List A) → length (sort_by_key l) ≡ length l
  unfolding sort_by_key
  length-sort_by_key [] = refl
  length-sort_by_key (x ∷ xs) =
      omega (arith, length-insert_by x (sort_by_key xs), length-sort_by_key xs)

  -- What a cut leaves behind has no smaller key than what it keeps.
  pub take-le-drop :
      (n : ℕ) (l : List A)
      → IsSortedBy l
      → All (λ x. All (λ y. key x ≤ key y) (drop n l)) (take n l)
  take-le-drop zero l s = tt
  take-le-drop (suc n) [] s = tt
  take-le-drop (suc n) (x ∷ xs) s = (All-drop (λ y. key x ≤ key y) n xs s.0, take-le-drop n xs s.1)

  Elem-insert_by : (x a : A) (l : List A) → (a ≡ x) ⊎ Elem a l → Elem a (insert_by x l)
  unfolding insert_by
  Elem-insert_by x a [] m = m
  Elem-insert_by x a (y ∷ ys) m = elim (Bool-cases (leb (key x) (key y))) [
    | inl e ↦ rw e m
    | inr e ↦ rw e (elim m [
      | inl same ↦ inr (Elem-insert_by x a ys (inl same))
      | inr (inl first) ↦ inl first
      | inr (inr rest) ↦ inr (Elem-insert_by x a ys (inr rest))
    ])
  ]

  pub Elem-sort_by_key : (a : A) (l : List A) → Elem a l → Elem a (sort_by_key l)
  unfolding sort_by_key
  Elem-sort_by_key a [] m = m
  Elem-sort_by_key a (x ∷ xs) (inl e) = Elem-insert_by x a (sort_by_key xs) (inl e)
  Elem-sort_by_key a (x ∷ xs) (inr m) =
      Elem-insert_by x a (sort_by_key xs) (inr (Elem-sort_by_key a xs m))

  -- How many elements have a key below the bound.
  abbrev pub count_below : ℕ → List A → ℕ
  count_below b [] = 0
  count_below b (x ∷ xs) = if ltb (key x) b then suc (count_below b xs) else count_below b xs

  count_below-insert_by :
      (b : ℕ) (x : A) (l : List A) → count_below b (insert_by x l) ≡ count_below b (x ∷ l)
  unfolding insert_by
  count_below-insert_by b x [] = refl
  count_below-insert_by b x (y ∷ ys) = ground (arith, count_below-insert_by b x ys)

  pub count_below-sort_by_key :
      (b : ℕ) (l : List A) → count_below b (sort_by_key l) ≡ count_below b l
  unfolding sort_by_key
  count_below-sort_by_key b [] = refl
  count_below-sort_by_key b (x ∷ xs) =
      ground (arith, count_below-insert_by b x (sort_by_key xs), count_below-sort_by_key b xs)

  count_below-zero : (b : ℕ) (l : List A) → All (λ y. b ≤ key y) l → count_below b l ≡ 0
  count_below-zero b [] h = refl
  count_below-zero b (x ∷ xs) h = ground (arith, count_below-zero b xs h.1)

  pub count_below-append :
      (b : ℕ) (xs ys : List A) → All (λ y. key y < b) ys → length ys ≤ count_below b (xs ++ ys)
  count_below-append b [] [] h = omega arith
  count_below-append b [] (y ∷ ys) h = ground (arith, h.0, count_below-append b [] ys h.1)
  count_below-append b (x ∷ xs) ys h = ground (arith, count_below-append b xs ys h)

  -- If `n` elements lie below a bound, so do the first `n` of the sorted list.
  pub take_below :
      (b n : ℕ) (l : List A) → IsSortedBy l → n ≤ count_below b l → All (λ x. key x < b) (take n l)
  take_below b zero l s h = tt
  take_below b (suc n) [] s h = tt
  take_below b (suc n) (x ∷ xs) s h = elim (Bool-cases (ltb (key x) b)) [
    | inl e ↦ (ltb→lt (key x) b e, take_below b n xs s.1 (ground arith))
    | inr e ↦
        let none : count_below b xs ≡ 0 =
          count_below-zero b xs (All-map (λ y le. ground arith) xs s.0) in
        absurd (ground arith)
  ]

  pub take-IsSortedBy : (n : ℕ) (l : List A) → IsSortedBy l → IsSortedBy (take n l)
  take-IsSortedBy zero l s = tt
  take-IsSortedBy (suc n) [] s = tt
  take-IsSortedBy (suc n) (x ∷ xs) s =
      (All-take (λ y. key x ≤ key y) n xs s.0, take-IsSortedBy n xs s.1)
