-- ===== src/Tests/Sample.antt =====
-- A concrete instance of the crates: `U256` as its number, lower-case hex, and a simple hash.
use Prim.Native.Char.{Char, code}
use Prim.Native.String.{char_at}
use mathlib.Core.Option.{some-injective}
use native.Mathlib.Decide.{ℕ_discrete}
use native.Mathlib.Nat.{pow-suc, mod-lt}
use kademlia_blockchain_auct.Prelude.{
  ℕ, zero, suc, ◌+◌, ◌-◌, ◌*◌, ◌/◌, ◌%◌, ◌^◌, ◌≤◌, ◌<◌, ◌≡◌, refl, ap, sym, ◌∙◌, String, List, [],
  ◌∷◌, Option, some, none, Bool, true, false, ◌&&◌, arith, leb, ◌==◌, if◌then◌else◌, bit_xor, All,
  show_u64, inl, inr, Bool-cases, if_true, if_false,
}
use kademlia_blockchain_auct.Prelude.BigEndian.{
  big_endian, to_big_endian, IsByte, to_big_endian-big_endian, length-to_big_endian,
  All-to_big_endian,
}
use kademlia_blockchain_auct.Crates.{Crates, CratesLaws, IsU256}

bit_length : ℕ → ℕ → ℕ
bit_length zero v = 0
bit_length (suc k) v = let rest = bit_length k (v / 2) in if v == 0 then 0 else suc rest

zeros : ℕ → ℕ
unfolding bit_length
zeros v = 256 - bit_length 256 v

hex_char : ℕ → Char
hex_char d = char_at "0123456789abcdef" d

hex_value : Char → Option ℕ
hex_value c =
    if leb b'0' (code c) && leb (code c) b'9'
    then some (code c - b'0')
    else if leb b'a' (code c) && leb (code c) b'f'
    then some (code c - b'a' + 10)
    else none

encode : List ℕ → String
unfolding hex_char
encode [] = ""
encode (b ∷ bs) = String.◌∷◌ (hex_char (b / 16)) (String.◌∷◌ (hex_char (b % 16)) (encode bs))

pair : Option ℕ → Option ℕ → Option (List ℕ) → Option (List ℕ)
pair (some hi) (some lo) (some bs) = some ((hi * 16 + lo) ∷ bs)
pair (some hi) (some lo) none = none
pair (some hi) none r = none
pair none lo r = none

decode : String → Option (List ℕ)
unfolding hex_value pair
decode String.[] = some []
decode (String.◌∷◌ c String.[]) = none
decode (String.◌∷◌ c (String.◌∷◌ d s)) = pair (hex_value c) (hex_value d) (decode s)

mix : ℕ → List ℕ → ℕ
mix h [] = h % 2 ^ 256
mix h (b ∷ bs) = mix ((h * 131 + b + 1) % 2 ^ 256) bs

unfoldable pub sample_crates : Crates
unfolding zeros encode decode mix
sample_crates = record {
  from_big_endian = big_endian;
  xor = bit_xor;
  leading_zeros = zeros;
  u256_to_string = show_u64;
  format_064x = λ v. encode (to_big_endian 32 v);
  hex_encode = encode;
  hex_decode = decode;
  sha256 = λ bs. to_big_endian 32 (mix 1 bs);
}

bit_length-zero : (k : ℕ) → bit_length k 0 ≡ 0
unfolding bit_length
bit_length-zero zero = refl
bit_length-zero (suc k) = refl

bit_length_law :
    (k v : ℕ)
    → 0 < v
    → v < 2 ^ k
    → (m : ℕ) × (bit_length k v ≡ suc m) × (m < k) × (2 ^ m ≤ v) × (v < 2 ^ suc m)
unfolding bit_length
bit_length_law zero v pos lt = absurd (omega arith)
bit_length_law (suc k) v pos lt =
    let step : bit_length (suc k) v ≡ suc (bit_length k (v / 2)) =
      if_false {b = v == 0} _ _ (ground arith) in
    elim (Bool-cases (v / 2 == 0)) [
      | inl e ↦
          let low : v / 2 ≡ 0 = ground arith in
          (
            0,
            step ∙ ap suc (ap (bit_length k) low ∙ bit_length-zero k),
            omega arith,
            omega arith,
            omega arith,
          )
      | inr e ↦
          let (m, n, below, le, lt') =
            bit_length_law k (v / 2) (ground arith) (omega (arith, pow-suc 2 k)) in
          (
            suc m,
            step ∙ ap suc n,
            omega arith,
            omega (arith, pow-suc 2 m),
            omega (arith, pow-suc 2 (suc m)),
          )
    ]

all_below : ℕ → (ℕ → Bool) → Bool
all_below zero p = true
all_below (suc n) p = if p n then all_below n p else false

all_below-lt : (n d : ℕ) (p : ℕ → Bool) → all_below n p ≡ true → d < n → p d ≡ true
unfolding all_below
all_below-lt zero d p h lt = absurd (omega arith)
all_below-lt (suc n) d p h lt = elim (Bool-cases (p n)) [
  | inr e ↦ absurd (clash (sym (if_false _ _ e) ∙ h))
  | inl e ↦ elim (ℕ_discrete d n) [
    | yes same ↦ rw same e
    | no ne ↦ all_below-lt n d p (sym (if_true _ _ e) ∙ h) (omega arith)
  ]
]
  where
    clash : false ≡ true → ⊥
    clash e = cc

reads_back : ℕ → Bool
unfolding hex_value hex_char
reads_back d = elim (hex_value (hex_char d)) [ some n ↦ n == d | none ↦ false ]

all_read_back : all_below 16 reads_back ≡ true
unfolding all_below reads_back
all_read_back = refl

hex_value-hex_char : (d : ℕ) → d < 16 → hex_value (hex_char d) ≡ some d
unfolding reads_back
hex_value-hex_char d lt =
    of_test (hex_value (hex_char d)) (all_below-lt 16 d reads_back all_read_back lt)
  where
    of_test : (o : Option ℕ) → elim o [ some n ↦ n == d | none ↦ false ] ≡ true → o ≡ some d
    of_test (some n) h = ap some (ground arith)
    of_test none h = absurd cc

hex_value-lt : (c : Char) (n : ℕ) → hex_value c ≡ some n → n < 16
unfolding hex_value
hex_value-lt c n e = ground arith

decode-encode : (bs : List ℕ) → All IsByte bs → decode (encode bs) ≡ some bs
unfolding decode encode pair
decode-encode [] h = refl
decode-encode (b ∷ bs) (hb, h) =
    rw
      (
        hex_value-hex_char (b / 16) (omega arith),
        hex_value-hex_char (b % 16) (omega arith),
        decode-encode bs h,
      )
      (ap (λ x. some (x ∷ bs)) (omega arith))

pair_inv :
    (a b : Option ℕ) (r : Option (List ℕ)) (bs : List ℕ)
    → pair a b r ≡ some bs
    → (hi lo : ℕ) × (rest : List ℕ) × (a ≡ some hi)
      × (b ≡ some lo)
      × (r ≡ some rest)
      × (bs ≡ (hi * 16 + lo) ∷ rest)
unfolding pair
pair_inv (some hi) (some lo) (some rest) bs e =
    (hi, lo, rest, refl, refl, refl, some-injective bs ((hi * 16 + lo) ∷ rest) (sym e))
pair_inv (some hi) (some lo) none bs e = cc
pair_inv (some hi) none r bs e = cc
pair_inv none b r bs e = cc

decode-bytes : (s : String) (bs : List ℕ) → decode s ≡ some bs → All IsByte bs
unfolding decode
decode-bytes String.[] bs e = rw (sym (some-injective [] bs e)) tt
decode-bytes (String.◌∷◌ c String.[]) bs e = cc
decode-bytes (String.◌∷◌ c (String.◌∷◌ d s)) bs e =
    let (hi, lo, rest, e_hi, e_lo, e_rest, same) =
      pair_inv (hex_value c) (hex_value d) (decode s) bs e in
    let lt_hi = hex_value-lt c hi e_hi in
    let lt_lo = hex_value-lt d lo e_lo in rw same (omega arith, decode-bytes s rest e_rest)

mix-lt : (h : ℕ) (bs : List ℕ) → mix h bs < 2 ^ 256
unfolding mix
mix-lt h [] = mod-lt h (omega arith)
mix-lt h (b ∷ bs) = mix-lt ((h * 131 + b + 1) % 2 ^ 256) bs

sample_zeros :
    (v : ℕ)
    → 0 < v
    → IsU256 v
    → (zeros v ≤ 255) × (2 ^ (255 - zeros v) ≤ v) × (v < 2 ^ (256 - zeros v))
unfolding zeros
sample_zeros v pos lt =
    let (m, n, below, le, high) = bit_length_law 256 v pos lt in
    let e : 256 - bit_length 256 v ≡ 255 - m = omega (arith, n) in
    rw e (omega arith, rw (back m below) le, rw (back_suc m below) high)
  where
    back : (m : ℕ) → m < 256 → 255 - (255 - m) ≡ m
    back m h = omega arith

    back_suc : (m : ℕ) → m < 256 → 256 - (255 - m) ≡ suc m
    back_suc m h = omega arith

pub sample_laws : CratesLaws sample_crates
unfolding sample_crates
sample_laws = record {
  big_endian_law = λ bs len h. refl;
  xor_law = λ a b ha hb. refl;
  leading_zeros_zero = unfold zeros in refl;
  leading_zeros_law = sample_zeros;
  hex_law = decode-encode;
  hex_empty = unfold decode in refl;
  hex_bytes = decode-bytes;
  format_law = λ bs len h.
      ap encode
        (ap (λ n. to_big_endian n (big_endian bs)) (sym len) ∙ to_big_endian-big_endian bs h);
  sha256_law =
      λ bs. (length-to_big_endian 32 (mix 1 bs), All-to_big_endian 32 (mix 1 bs) (mix-lt 1 bs));
}
