-- ===== src/Prelude/Exec.antt =====
-- Methods that read and change a state, and may fail with `?` or panic: an error leaves the state that
-- was reached.
pub mod Yields
use mathlib.Core.Path.{◌≡◌, ap}
use mathlib.Core.Option.{Option, some}
use kademlia_blockchain_auct.Prelude.Sync.{Outcome, done, panic}
use kademlia_blockchain_auct.Prelude.Result.{Result, ok, err, ok_or}

abbrev pub Exec {ℓ κ μ} : Type ℓ → Type κ → Type μ → Type (ℓ ⊔ κ ⊔ μ)
Exec S E A = S → Outcome (Result E A × S)

module _ {ℓ κ μ} {S : Type ℓ} {E : Type κ} {A : Type μ} where
  unfoldable pub pure : A → Exec S E A
  pure a s = done (ok a, s)

  -- A result that does not touch the state.
  unfoldable pub lift : Result E A → Exec S E A
  lift r s = done (r, s)

  -- A call that may panic and only reads the state.
  unfoldable pub ask : (S → Outcome A) → Exec S E A
  ask f s = elim (f s) [ done a ↦ done (ok a, s) | panic ↦ panic ]

  -- `if let Err(error) = .. { warn!(..) }`, and `let _ = ..`: the result is kept as a value.
  unfoldable pub attempt {ν} : {F : Type ν} → Exec S E A → Exec S F (Result E A)
  attempt m s = elim (m s) [ done (r, s') ↦ done (ok r, s') | panic ↦ panic ]

module _ {ℓ κ μ ν} {S : Type ℓ} {E : Type κ} {A : Type μ} {B : Type ν} where
  -- What follows a call that ended.
  abbrev pub and_then : (A → Exec S E B) → Outcome (Result E A × S) → Outcome (Result E B × S)
  and_then f (done (ok a, s)) = f a s
  and_then f (done (err e, s)) = done (err e, s)
  and_then f panic = panic

  infixl 5 ◌>>=◌
  -- opening this opens the others
  unfoldable pub ◌>>=◌ : Exec S E A → (A → Exec S E B) → Exec S E B
  unfolding pure lift ask attempt
  ◌>>=◌ m f s = and_then f (m s)

  -- A chain that begins with an error ends there.
  pub bind-lift_err :
      (r : Result E A) (f : A → Exec S E B) (e : E) (s : S)
      → r ≡ err e
      → (lift r >>= f) s ≡ done (err e, s)
  unfolding ◌>>=◌ lift
  bind-lift_err r f e s h = ap (λ x. and_then f (done (x, s))) h

  -- A chain goes on after a call that returned.
  pub bind-done :
      (m : Exec S E A) (f : A → Exec S E B) (s : S) (a : A) (s' : S)
      → m s ≡ done (ok a, s')
      → (m >>= f) s ≡ f a s'
  unfolding ◌>>=◌
  bind-done m f s a s' h = ap (and_then f) h

  -- An `expect` on a value that is there.
  pub bind-some :
      (e : E) (o : Option A) (f : A → Exec S E B) (s : S) (a : A)
      → o ≡ some a
      → (lift (ok_or e o) >>= f) s ≡ f a s
  unfolding ◌>>=◌ lift
  bind-some e o f s a h = ap (λ x. and_then f (done (ok_or e x, s))) h
