-- ===== src/Prelude/BigEndian.antt =====
-- Byte strings as big-endian numbers.
use Prim.Native.Nat.{ℕ, zero, suc, ◌+◌, ◌*◌, ◌/◌, ◌%◌, ◌^◌, ◌<◌}
use mathlib.Core.Path.{◌≡◌, refl, sym, ap, ap₂, ◌∙◌}
use mathlib.Core.List.{List, [], ◌∷◌}
use native.Mathlib.Nat.{
  pow-suc, one-le-pow, mod-lt, div-add-mod, div-lt_iff_lt-mul, div-eq_of_lt-le,
}
use native.Mathlib.Omega.{arith}
use kademlia_blockchain_auct.Prelude.Lists.{length, All}

abbrev pub IsByte : ℕ → Type 0
IsByte b = b < 256

-- The number that the bytes spell, the most significant first.
unfoldable pub big_endian : List ℕ → ℕ
big_endian [] = 0
big_endian (b ∷ bs) = b * 256 ^ length bs + big_endian bs

-- The `n` bytes of a number below `256 ^ n`.
unfoldable pub to_big_endian : ℕ → ℕ → List ℕ
to_big_endian zero v = []
to_big_endian (suc n) v = v / 256 ^ n ∷ to_big_endian n (v % 256 ^ n)

pub big_endian-lt : (bs : List ℕ) → All IsByte bs → big_endian bs < 256 ^ length bs
unfolding big_endian
big_endian-lt [] h = omega arith
big_endian-lt (b ∷ bs) (hb, h) = grind (arith, pow-suc 256 (length bs), big_endian-lt bs h)

split_byte :
    (n b v : ℕ)
    → v < 256 ^ n
    → ((b * 256 ^ n + v) / 256 ^ n ≡ b) × ((b * 256 ^ n + v) % 256 ^ n ≡ v)
split_byte n b v h =
    let q : (b * 256 ^ n + v) / 256 ^ n ≡ b =
      div-eq_of_lt-le (256 ^ n) (omega arith) (grind arith) in
    (q, grind (arith, q, div-add-mod (b * 256 ^ n + v) (256 ^ n)))

pub to_big_endian-big_endian :
    (bs : List ℕ) → All IsByte bs → to_big_endian (length bs) (big_endian bs) ≡ bs
unfolding big_endian to_big_endian
to_big_endian-big_endian [] h = refl
to_big_endian-big_endian (b ∷ bs) (hb, h) =
    let (q, r) = split_byte (length bs) b (big_endian bs) (big_endian-lt bs h) in
    rw (q, r) (ap (◌∷◌ b) (to_big_endian-big_endian bs h))

pub length-to_big_endian : (n v : ℕ) → length (to_big_endian n v) ≡ n
unfolding to_big_endian
length-to_big_endian zero v = refl
length-to_big_endian (suc n) v = ap suc (length-to_big_endian n (v % 256 ^ n))

div_byte : (n v : ℕ) → v < 256 ^ suc n → v / 256 ^ n < 256
div_byte n v h =
    (div-lt_iff_lt-mul (one-le-pow n 256 (omega arith))).1 (omega (arith, pow-suc 256 n))

pub All-to_big_endian : (n v : ℕ) → v < 256 ^ n → All IsByte (to_big_endian n v)
unfolding to_big_endian
All-to_big_endian zero v h = tt
All-to_big_endian (suc n) v h =
    (div_byte n v h, All-to_big_endian n (v % 256 ^ n) (mod-lt v (one-le-pow n 256 (omega arith))))

-- Equally long byte strings that spell the same number are the same.
pub big_endian-injective :
    (xs bs : List ℕ)
    → All IsByte xs
    → All IsByte bs
    → length xs ≡ length bs
    → big_endian xs ≡ big_endian bs
    → xs ≡ bs
big_endian-injective xs bs ha hb l e =
    sym (to_big_endian-big_endian xs ha) ∙ ap₂ to_big_endian l e ∙ to_big_endian-big_endian bs hb
