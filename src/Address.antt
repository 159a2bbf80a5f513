-- ===== src/Address.antt =====
-- blockchain/address.rs: 32-byte addresses, their hex text and the XOR distance.
pub mod Text
pub mod Metric
use kademlia_blockchain_auct.Prelude.{
  ℕ, String, List, [], ◌∷◌, Option, none, some, Bool, true, false, ◌≡◌, ◌↔◌, refl, ap, arith,
  length, All, replicate, ◌==◌, ==_iff, if◌then◌else◌, Bool-cases, inl, inr,
}
use kademlia_blockchain_auct.Prelude.BigEndian.{IsByte}
use kademlia_blockchain_auct.Prelude.Result.{Result, ok, err}
use kademlia_blockchain_auct.Crates.{Crates}

abbrev pub address_len : ℕ
address_len = 32

pub data AddressError : Type 0 where
  invalid_format invalid_length : AddressError

-- `Address([u8; 32])`
pub record Address : Type 0 where
  pub bytes : List ℕ

-- What the array type gives: the length, and the range of each byte.
abbrev pub IsAddress : Address → Type 0
IsAddress a = (length a.bytes ≡ address_len) × All IsByte a.bytes

abbrev pub default_address : Address
default_address = record { bytes = replicate address_len 0 }

bytes_eq : List ℕ → List ℕ → Bool
bytes_eq [] [] = true
bytes_eq [] (y ∷ ys) = false
bytes_eq (x ∷ xs) [] = false
bytes_eq (x ∷ xs) (y ∷ ys) = if x == y then bytes_eq xs ys else false

-- The derived `PartialEq`.
unfoldable pub address_eq : Address → Address → Bool
unfolding bytes_eq
address_eq a b = bytes_eq a.bytes b.bytes

module _ (c : Crates) where
  unfoldable pub as_u256 : Address → ℕ
  as_u256 a = c.from_big_endian a.bytes

  unfoldable pub distance : Address → Address → ℕ
  unfolding as_u256
  distance a other = c.xor (as_u256 a) (as_u256 other)

  unfoldable pub try_from_vec : List ℕ → Result AddressError Address
  try_from_vec vec =
      if length vec == address_len then ok (record { bytes = vec }) else err invalid_length

  unfoldable pub try_from_string : String → Result AddressError Address
  unfolding try_from_vec
  try_from_string s = elim (c.hex_decode s) [
    | some decoded_vec ↦ try_from_vec decoded_vec
    | none ↦ err invalid_format
  ]

  abbrev pub from_str : String → Result AddressError Address
  from_str s = try_from_string s

  -- `Display`
  unfoldable pub to_string : Address → String
  to_string a = c.hex_encode a.bytes

bytes_eq_sound : (xs ys : List ℕ) → bytes_eq xs ys ≡ true → xs ≡ ys
unfolding bytes_eq
bytes_eq_sound [] [] h = refl
bytes_eq_sound [] (y ∷ ys) h = cc
bytes_eq_sound (x ∷ xs) [] h = cc
bytes_eq_sound (x ∷ xs) (y ∷ ys) h = ground (arith, bytes_eq_sound xs ys)

bytes_eq_refl : (xs : List ℕ) → bytes_eq xs xs ≡ true
unfolding bytes_eq
bytes_eq_refl [] = refl
bytes_eq_refl (x ∷ xs) = ground (arith, bytes_eq_refl xs)

pub address_eq_refl : (a : Address) → address_eq a a ≡ true
unfolding address_eq
address_eq_refl a = bytes_eq_refl a.bytes

-- The derived equality decides equality.
pub address_eq_iff : (a b : Address) → (address_eq a b ≡ true) ↔ (a ≡ b)
unfolding address_eq
address_eq_iff a b = (
  λ h. ap (λ (bs : List ℕ). record { bytes = bs }) (bytes_eq_sound a.bytes b.bytes h),
  λ e. rw e (bytes_eq_refl b.bytes),
)

pub address_ne : (a b : Address) → ¬ (a ≡ b) → address_eq a b ≡ false
address_ne a b ne = elim (Bool-cases (address_eq a b)) [
  | inl e ↦ absurd (ne ((address_eq_iff a b).0 e))
  | inr e ↦ e
]
