-- ===== src/Prelude/Sync.antt =====
-- `std::sync::RwLock` as the value that it guards and the poison flag, and calls that may panic.
use mathlib.Core.Bool.{Bool, false}
use mathlib.Core.Path.{◌≡◌, ap}

-- A panic while a guard is held for writing poisons the lock; from then on `read` and `write` fail.
pub record RwLock {ℓ} (A : Type ℓ) : Type ℓ where
  pub value : A
  pub poisoned : Bool

abbrev pub new_lock {ℓ} : {A : Type ℓ} → A → RwLock A
new_lock a = record { value = a; poisoned = false }

-- The end of a call: a return, or a panic.
pub data Outcome {ℓ} (A : Type ℓ) : Type ℓ where
  done : A → Outcome A
  panic : Outcome A

pub done-injective {ℓ} : {A : Type ℓ} (a b : A) → done a ≡ done b → a ≡ b
done-injective {A} a b e = ap (λ (o : Outcome A). elim o [ done x ↦ x | panic ↦ a ]) e
