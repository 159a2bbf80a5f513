-- ===== src/Prelude/Int.antt =====
-- Signed 64-bit integers (`i64`): time stamps in milliseconds.
use Prim.Native.Nat.{ℕ, zero, suc, ◌+◌, ◌-◌, ◌%◌, ◌^◌, ◌≤◌, ◌<◌}
use mathlib.Core.Path.{◌≡◌, refl}
use mathlib.Core.Bool.{Bool, true, false}
use native.Mathlib.Omega.{arith}
use kademlia_blockchain_auct.Prelude.Tests.{ltb, leb, if◌then◌else◌}

-- `negsuc n` is -(n + 1).
pub data ℤ : Type 0 where
  pos : ℕ → ℤ
  negsuc : ℕ → ℤ

abbrev pub pos_part : ℤ → ℕ
pos_part (pos n) = n
pos_part (negsuc n) = 0

abbrev pub neg_part : ℤ → ℕ
neg_part (pos n) = 0
neg_part (negsuc n) = suc n

-- A magnitude with its sign, `true` for minus.
abbrev pub of_sign : Bool × ℕ → ℤ
of_sign (false, n) = pos n
of_sign (true, zero) = pos 0
of_sign (true, suc n) = negsuc n

-- The integer that a bit pattern below 2 ^ 64 stands for.
abbrev of_bits : ℕ → ℤ
of_bits w = if ltb w (2 ^ 63) then pos w else negsuc (2 ^ 64 - w - 1)

-- The sum of two `i64`, reduced to 64 bits in two's complement, as a release build does.
unfoldable pub add_i64 : ℤ → ℤ → ℤ
add_i64 a b =
    of_bits ((pos_part a + pos_part b + (2 ^ 64 - neg_part a) + (2 ^ 64 - neg_part b)) % 2 ^ 64)

infix 50 ◌≤ℤ◌ ◌<ℤ◌
abbrev pub ◌≤ℤ◌ : ℤ → ℤ → Type 0
a ≤ℤ b = pos_part a + neg_part b ≤ pos_part b + neg_part a

abbrev pub ◌<ℤ◌ : ℤ → ℤ → Type 0
a <ℤ b = pos_part a + neg_part b < pos_part b + neg_part a

abbrev pub ltb_ℤ : ℤ → ℤ → Bool
ltb_ℤ a b = ltb (pos_part a + neg_part b) (pos_part b + neg_part a)

abbrev pub leb_ℤ : ℤ → ℤ → Bool
leb_ℤ a b = leb (pos_part a + neg_part b) (pos_part b + neg_part a)

pub leb_ℤ→le : (a b : ℤ) → leb_ℤ a b ≡ true → a ≤ℤ b
leb_ℤ→le a b h = ground arith

pub ltb_ℤ→lt : (a b : ℤ) → ltb_ℤ a b ≡ true → a <ℤ b
ltb_ℤ→lt a b h = ground arith

wrap_around : add_i64 (pos 9223372036854775807) (pos 1) ≡ negsuc 9223372036854775807
unfolding add_i64
wrap_around = refl

cross_zero : add_i64 (pos 5) (negsuc 9) ≡ negsuc 4
unfolding add_i64
cross_zero = refl
