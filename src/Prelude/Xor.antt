-- ===== src/Prelude/Xor.antt =====
-- Exclusive or of the binary digits of native numbers: the laws that the XOR metric needs, by
-- induction on a number of digits that holds both operands.
use Prim.Native.Nat.{
  ℕ, zero, suc, ◌+◌, ◌*◌, ◌/◌, ◌%◌, ◌^◌, ◌≤◌, ◌<◌, bit_xor, digits, differ, bit_xor-bitwise,
}
use mathlib.Core.Path.{◌≡◌, refl, ◌∙◌}
use native.Mathlib.Decide.{ℕ_discrete}
use native.Mathlib.Nat.{le_refl, pow-suc}
use native.Mathlib.Omega.{arith}

-- The digits of the exclusive or, computed on some fuel.
abbrev xor_digits : ℕ → ℕ → ℕ → ℕ
xor_digits fuel x y = digits (λ rest. rest) differ fuel x y

one_more : (fuel x y : ℕ) → x ≤ fuel → xor_digits (suc fuel) x y ≡ xor_digits fuel x y
one_more zero zero y h = refl
one_more (suc fuel) zero y h = refl
one_more zero (suc x) y h = elim h [ ]
one_more (suc fuel) (suc x) y h = rw (one_more fuel (suc x / 2) (y / 2) (omega arith))

-- From `x` on, the fuel makes no difference.
enough : (fuel more x y : ℕ) → x ≤ fuel → fuel ≤ more → xor_digits more x y ≡ xor_digits fuel x y
enough zero zero x y h le = refl
enough (suc fuel) zero x y h le = elim le [ ]
enough fuel (suc more) x y h le = elim (ℕ_discrete fuel (suc more)) [
  | yes same ↦ rw same refl
  | no ne ↦ one_more more x y (omega arith) ∙ enough fuel more x y h (omega arith)
]

differ_bits : (x y : ℕ) → x < 2 → y < 2 → differ x y ≡ (x + y) % 2
differ_bits zero y p q = omega arith
differ_bits (suc zero) zero p q = refl
differ_bits (suc zero) (suc zero) p q = refl
differ_bits (suc zero) (suc (suc y)) p q = absurd (omega arith)
differ_bits (suc (suc x)) y p q = absurd (omega arith)

pub zero-xor : (b : ℕ) → bit_xor 0 b ≡ b
zero-xor b = bit_xor-bitwise 0 b

-- The lowest digit, and the digits above it.
pub xor_step : (a b : ℕ) → bit_xor a b ≡ bit_xor (a / 2) (b / 2) * 2 + (a % 2 + b % 2) % 2
xor_step zero b = omega (arith, zero-xor b, zero-xor (b / 2))
xor_step (suc a) b = omega (
  arith,
  bit_xor-bitwise (suc a) b,
  bit_xor-bitwise (suc a / 2) (b / 2),
  enough (suc a / 2) a (suc a / 2) (b / 2) (le_refl (suc a / 2)) (omega arith),
  differ_bits (suc a % 2) (b % 2) (omega arith) (omega arith),
)

pub xor_self : (k a : ℕ) → a < 2 ^ k → bit_xor a a ≡ 0
xor_self zero zero h = refl
xor_self zero (suc a) h = absurd (omega arith)
xor_self (suc k) a h =
    omega (arith, xor_step a a, pow-suc 2 k, xor_self k (a / 2) (omega (arith, pow-suc 2 k)))

pub xor_comm : (k a b : ℕ) → a < 2 ^ k → b < 2 ^ k → bit_xor a b ≡ bit_xor b a
xor_comm zero zero zero h g = refl
xor_comm zero zero (suc b) h g = absurd (omega arith)
xor_comm zero (suc a) b h g = absurd (omega arith)
xor_comm (suc k) a b h g = omega (
  arith,
  xor_step a b,
  xor_step b a,
  xor_comm k (a / 2) (b / 2) (omega (arith, pow-suc 2 k)) (omega (arith, pow-suc 2 k)),
)

-- Only equal numbers have no differing digit.
pub eq_of_xor-zero : (k a b : ℕ) → a < 2 ^ k → b < 2 ^ k → bit_xor a b ≡ 0 → a ≡ b
eq_of_xor-zero zero zero zero h g e = refl
eq_of_xor-zero zero zero (suc b) h g e = absurd (omega arith)
eq_of_xor-zero zero (suc a) b h g e = absurd (omega arith)
eq_of_xor-zero (suc k) a b h g e =
    let halves =
      eq_of_xor-zero k (a / 2) (b / 2) (omega (arith, pow-suc 2 k)) (omega (arith, pow-suc 2 k))
        (omega (arith, xor_step a b)) in
    omega (arith, xor_step a b, halves)

pub xor-lt : (k a b : ℕ) → a < 2 ^ k → b < 2 ^ k → bit_xor a b < 2 ^ k
xor-lt zero zero zero h g = omega (arith, zero-xor 0)
xor-lt zero zero (suc b) h g = absurd (omega arith)
xor-lt zero (suc a) b h g = absurd (omega arith)
xor-lt (suc k) a b h g = omega (
  arith,
  xor_step a b,
  pow-suc 2 k,
  xor-lt k (a / 2) (b / 2) (omega (arith, pow-suc 2 k)) (omega (arith, pow-suc 2 k)),
)

module _ (s a b : ℕ)
    (ih : bit_xor (bit_xor (s / 2) (a / 2)) (bit_xor (s / 2) (b / 2))
      ≡ bit_xor (a / 2) (b / 2)) where
  half_xor : (c : ℕ) → bit_xor s c / 2 ≡ bit_xor (s / 2) (c / 2)
  half_xor c = omega (arith, xor_step s c)

  halves_cancel : bit_xor (bit_xor s a / 2) (bit_xor s b / 2) ≡ bit_xor (a / 2) (b / 2)
  halves_cancel = rw (half_xor a, half_xor b) ih

  xor_cancel_step : bit_xor (bit_xor s a) (bit_xor s b) ≡ bit_xor a b
  xor_cancel_step = omega (
    arith,
    xor_step s a,
    xor_step s b,
    xor_step a b,
    xor_step (bit_xor s a) (bit_xor s b),
    halves_cancel,
  )

-- A third number cancels: differences to it determine the difference of the two.
pub xor_cancel :
    (k s a b : ℕ)
    → s < 2 ^ k
    → a < 2 ^ k
    → b < 2 ^ k
    → bit_xor (bit_xor s a) (bit_xor s b) ≡ bit_xor a b
xor_cancel zero zero a b p h g = rw (zero-xor a, zero-xor b)
xor_cancel zero (suc s) a b p h g = absurd (omega arith)
xor_cancel (suc k) s a b p h g = xor_cancel_step s a b (
    xor_cancel k (s / 2) (a / 2) (b / 2) (omega (arith, pow-suc 2 k)) (omega (arith, pow-suc 2 k))
      (omega (arith, pow-suc 2 k)))

-- Two numbers with the same highest digit: the difference lies below it.
pub xor-lt_same_top :
    (m a b : ℕ) → 2 ^ m ≤ a → a < 2 ^ suc m → 2 ^ m ≤ b → b < 2 ^ suc m → bit_xor a b < 2 ^ m
xor-lt_same_top zero a b p q r s =
    let one_a : a ≡ 1 = omega arith in
    let one_b : b ≡ 1 = omega arith in rw (one_a, one_b) (omega (arith, xor_self 1 1 (omega arith)))
xor-lt_same_top (suc m) a b p q r s = omega (
  arith,
  xor_step a b,
  pow-suc 2 m,
  pow-suc 2 (suc m),
  xor-lt_same_top m (a / 2) (b / 2) (omega (arith, pow-suc 2 m))
      (omega (arith, pow-suc 2 m, pow-suc 2 (suc m))) (omega (arith, pow-suc 2 m))
      (omega (arith, pow-suc 2 m, pow-suc 2 (suc m))),
)

-- A digit that only one of the two reaches stays in the difference.
pub le-xor_of_top : (m a b : ℕ) → a < 2 ^ m → 2 ^ m ≤ b → 2 ^ m ≤ bit_xor a b
le-xor_of_top zero zero b p q = omega (arith, zero-xor b)
le-xor_of_top zero (suc a) b p q = absurd (omega arith)
le-xor_of_top (suc m) a b p q = omega (
  arith,
  xor_step a b,
  pow-suc 2 m,
  le-xor_of_top m (a / 2) (b / 2) (omega (arith, pow-suc 2 m)) (omega (arith, pow-suc 2 m)),
)

pub xor-le-add : (k a b : ℕ) → a < 2 ^ k → b < 2 ^ k → bit_xor a b ≤ a + b
xor-le-add zero zero b h g = omega (arith, zero-xor b)
xor-le-add zero (suc a) b h g = absurd (omega arith)
xor-le-add (suc k) a b h g = omega (
  arith,
  xor_step a b,
  xor-le-add k (a / 2) (b / 2) (omega (arith, pow-suc 2 k)) (omega (arith, pow-suc 2 k)),
)

xor-zero_fuel : (n a : ℕ) → a ≤ n → bit_xor a 0 ≡ a
xor-zero_fuel n zero h = zero-xor 0
xor-zero_fuel zero (suc a) h = absurd (omega arith)
xor-zero_fuel (suc n) (suc a) h =
    omega (arith, xor_step (suc a) 0, xor-zero_fuel n (suc a / 2) (omega arith))

pub xor-zero : (a : ℕ) → bit_xor a 0 ≡ a
xor-zero a = xor-zero_fuel a a (le_refl a)

pub le-xor_of_top_left : (m a b : ℕ) → 2 ^ m ≤ a → b < 2 ^ m → 2 ^ m ≤ bit_xor a b
le-xor_of_top_left zero a zero p q = omega (arith, xor-zero a)
le-xor_of_top_left zero a (suc b) p q = absurd (omega arith)
le-xor_of_top_left (suc m) a b p q = omega (
  arith,
  xor_step a b,
  pow-suc 2 m,
  le-xor_of_top_left m (a / 2) (b / 2) (omega (arith, pow-suc 2 m)) (omega (arith, pow-suc 2 m)),
)
