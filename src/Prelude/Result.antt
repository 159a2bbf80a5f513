-- ===== src/Prelude/Result.antt =====
-- `Result` of the source, over an error type, with `?` as `>>=`.
use mathlib.Core.Path.{◌≡◌, refl, ap}
use mathlib.Core.Logic.{◌⊎◌, inl, inr}
use mathlib.Core.Option.{Option, none, some}
use mathlib.Core.List.{List, [], ◌∷◌, map}

pub data Result {ℓ κ} (E : Type κ) (A : Type ℓ) : Type (ℓ ⊔ κ) where
  ok : A → Result E A
  err : E → Result E A

infixl 5 ◌>>=◌
abbrev pub ◌>>=◌ {ℓ κ μ} :
    {E : Type μ} {A : Type ℓ} {B : Type κ} → Result E A → (A → Result E B) → Result E B
ok a >>= f = f a
err e >>= f = err e

-- `map_err`
abbrev pub map_err {ℓ κ μ} :
    {E : Type μ} {F : Type κ} {A : Type ℓ} → (E → F) → Result E A → Result F A
map_err f (ok a) = ok a
map_err f (err e) = err (f e)

-- `Option::ok_or`
abbrev pub ok_or {ℓ κ} : {E : Type κ} {A : Type ℓ} → E → Option A → Result E A
ok_or e none = err e
ok_or e (some a) = ok a

pub ok-injective {ℓ κ} :
    {E : Type κ} {A : Type ℓ} (a b : A) → ◌≡◌ {A = Result E A} (ok a) (ok b) → a ≡ b
ok-injective {E = E} {A = A} a b e = ap (λ (r : Result E A). elim r [ ok x ↦ x | err _ ↦ a ]) e

pub Result-cases {ℓ κ} :
    {E : Type κ} {A : Type ℓ} (r : Result E A) → ((a : A) × (r ≡ ok a)) ⊎ ((e : E) × (r ≡ err e))
Result-cases (ok a) = inl (a, refl)
Result-cases (err e) = inr (e, refl)

-- `.map(f).collect::<Result<Vec<_>>>()`: the first error, or every result in order
abbrev pub map_m {ℓ κ μ} :
    {E : Type μ} {A : Type ℓ} {B : Type κ} → (A → Result E B) → List A → Result E (List B)
map_m f [] = ok []
map_m f (x ∷ xs) = do y ← f x; ys ← map_m f xs; ok (y ∷ ys)

pub map_m-map {ℓ κ μ} :
    {E : Type μ} {A : Type ℓ} {B : Type κ} (f : A → Result E B) (g : B → A)
    → (xs : List B) → ((x : B) → f (g x) ≡ ok x)
    → map_m f (map g xs) ≡ ok xs
map_m-map f g [] h = refl
map_m-map f g (x ∷ xs) h = rw (h x, map_m-map f g xs h)

-- What a chain that ends well went through.
module _ {ℓ κ μ} {E : Type μ} {A : Type ℓ} {B : Type κ} where
  pub bind-ok :
      (r : Result E A) (f : A → Result E B) (b : B)
      → (r >>= f) ≡ ok b
      → (a : A) × (r ≡ ok a) × (f a ≡ ok b)
  bind-ok (ok a) f b e = (a, refl, e)
  bind-ok (err x) f b e = absurd cc

  pub map_err-ok : (f : E → B) (r : Result E A) (a : A) → map_err f r ≡ ok a → r ≡ ok a
  map_err-ok f (ok x) a e = ap ok (ok-injective {E = B} x a e)
  map_err-ok f (err x) a e = absurd cc

module _ {ℓ κ} {E : Type κ} {A : Type ℓ} where
  pub ok_or-ok : (x : E) (o : Option A) (a : A) → ok_or x o ≡ ok a → o ≡ some a
  ok_or-ok x none a e = absurd cc
  ok_or-ok x (some y) a e = ap some (ok-injective {E = E} y a e)
