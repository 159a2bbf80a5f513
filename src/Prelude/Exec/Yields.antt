-- ===== src/Prelude/Exec/Yields.antt =====
-- Methods that return, keep a property of the state, and whose values have a property.
use mathlib.Core.Path.{◌≡◌, refl, ap, ◌∙◌}
use mathlib.Core.Bool.{Bool, true, false}
use kademlia_blockchain_auct.Prelude.Sync.{Outcome, done}
use kademlia_blockchain_auct.Prelude.Result.{Result, ok, err}
use kademlia_blockchain_auct.Prelude.Tests.{if◌then◌else◌}
use kademlia_blockchain_auct.Prelude.Exec.{Exec, pure, lift, ask, attempt, and_then, ◌>>=◌}

-- The value, if there is one, has `Q`.
abbrev pub OnOk {ℓ κ ν} : {E : Type κ} {A : Type ℓ} → (A → Type ν) → Result E A → Type ν
OnOk Q (ok a) = Q a
OnOk Q (err e) = Unit

-- Nothing is said of the value.
abbrev pub Anything {ℓ} : {A : Type ℓ} → A → Type 0
Anything a = Unit

pub OnOk-Anything {ℓ κ} : {E : Type κ} {A : Type ℓ} (r : Result E A) → OnOk Anything r
OnOk-Anything (ok a) = tt
OnOk-Anything (err e) = tt

-- From each state with `P`, the method does not panic, leaves a state with `P`, and ends in an error or a
-- value with `Q`.
pub record Yields {ℓ κ μ ν ο} {S : Type ℓ} {E : Type κ} {A : Type μ} (P : S → Type ν)
    (Q : A → Type ο) (m : Exec S E A) : Type (ℓ ⊔ κ ⊔ μ ⊔ ν ⊔ ο) where
  pub runs : (s : S) → P s → (r : Result E A) × (s' : S) × (m s ≡ done (r, s')) × P s' × OnOk Q r

module _ {ℓ κ μ ν} {S : Type ℓ} {E : Type κ} {A : Type μ} {P : S → Type ν} where
  -- What the rest of a method may use of a result: that it is the value.
  pub Yields-result : (r : Result E A) → Yields P (λ a. r ≡ ok a) (lift r)
  unfolding lift
  Yields-result (ok a) = record { runs = λ s h. (ok a, s, refl, h, refl) }
  Yields-result (err e) = record { runs = λ s h. (err e, s, refl, h, tt) }

  pub Yields-ask_any :
      (f : S → Outcome A)
      → ((s : S) → P s → (a : A) × (f s ≡ done a))
      → Yields P Anything (ask {E = E} f)
  unfolding ask
  Yields-ask_any f answers = record {
    runs = λ s h. let (a, e) = answers s h in (ok a, s, rw (e, ask) refl, h, tt);
  }

module _ {ℓ κ μ ν ο} {S : Type ℓ} {E : Type κ} {A : Type μ} {P : S → Type ν} {Q : A → Type ο} where
  pub Yields-pure : (a : A) → Q a → Yields {E = E} P Q (pure a)
  unfolding pure
  Yields-pure a q = record { runs = λ s h. (ok a, s, refl, h, q) }

  pub Yields-lift : (r : Result E A) → OnOk Q r → Yields P Q (lift r)
  unfolding lift
  Yields-lift r q = record { runs = λ s h. (r, s, refl, h, q) }

  pub Yields-ask :
      (f : S → Outcome A)
      → ((s : S) → P s → (a : A) × (f s ≡ done a) × Q a)
      → Yields P Q (ask {E = E} f)
  unfolding ask
  Yields-ask f answers = record {
    runs = λ s h. let (a, e, q) = answers s h in (ok a, s, rw (e, ask) refl, h, q);
  }

  pub Yields-attempt {φ} :
      {F : Type φ} (m : Exec S E A) → Yields P Q m → Yields P (OnOk Q) (attempt {F = F} m)
  unfolding attempt
  Yields-attempt m ym = record {
    runs = λ s h. let (r, s', e, h', q) = ym.runs s h in (ok r, s', rw (e, attempt) refl, h', q);
  }

  pub Yields-if :
      (b : Bool) (m n : Exec S E A) → Yields P Q m → Yields P Q n → Yields P Q (if b then m else n)
  Yields-if true m n ym yn = ym
  Yields-if false m n ym yn = yn

module _ {ℓ κ μ ν ο φ χ} {S : Type ℓ} {E : Type κ} {A : Type μ} {B : Type φ} {P : S → Type ν}
    {Q : A → Type ο} {R : B → Type χ} where
  -- The rest of the method may use what holds of the value.
  pub Yields-bind :
      (m : Exec S E A) (f : A → Exec S E B)
      → Yields P Q m
      → ((a : A) → Q a → Yields P R (f a))
      → Yields P R (m >>= f)
  unfolding ◌>>=◌ lift
  Yields-bind m f ym yf = record {
    runs = λ s h.
        let (r, s', e, h', q) = ym.runs s h in
        let (b, t, e', h'', q') = rest r s' h' q in (b, t, ap (and_then f) e ∙ e', h'', q');
  }
    where
      rest :
          (r : Result E A) (s' : S)
          → P s'
          → OnOk Q r
          → (b : Result E B) × (t : S) × ((lift r >>= f) s' ≡ done (b, t)) × P t × OnOk R b
      rest (ok a) s' h q = (yf a q).runs s' h
      rest (err e) s' h q = (err e, s', refl, h, tt)
