-- ===== src/Address/Metric.antt =====
-- The XOR distance between addresses is a metric, and each distance from a point determines the
-- other point.
use kademlia_blockchain_auct.Prelude.{◌+◌, ◌≤◌, ◌≡◌, ◌↔◌, ap, sym, ◌∙◌, arith, bit_xor}
use kademlia_blockchain_auct.Prelude.BigEndian.{big_endian-lt, big_endian-injective}
use kademlia_blockchain_auct.Prelude.Xor.{
  xor_self, xor_comm, eq_of_xor-zero, xor-lt, xor_cancel, xor-le-add,
}
use kademlia_blockchain_auct.Crates.{Crates, CratesLaws, IsU256}
use kademlia_blockchain_auct.Address.{Address, IsAddress, as_u256, distance}

module _ (c : Crates) (laws : CratesLaws c) where
  pub as_u256-IsU256 : (a : Address) → IsAddress a → IsU256 (as_u256 c a)
  unfolding as_u256
  as_u256-IsU256 a (len, bytes) =
      rw (laws.big_endian_law a.bytes len bytes) (rw len at (big_endian-lt a.bytes bytes))

  pub as_u256-injective :
      (a b : Address) → IsAddress a → IsAddress b → as_u256 c a ≡ as_u256 c b → a ≡ b
  unfolding as_u256
  as_u256-injective a b (len_a, bytes_a) (len_b, bytes_b) e =
      ap (λ bs. record { bytes = bs })
        (big_endian-injective a.bytes b.bytes bytes_a bytes_b (len_a ∙ sym len_b) (
          sym (laws.big_endian_law a.bytes len_a bytes_a)
          ∙ e
          ∙ laws.big_endian_law b.bytes len_b bytes_b))

  pub distance_lem :
      (a b : Address)
      → IsAddress a
      → IsAddress b
      → distance c a b ≡ bit_xor (as_u256 c a) (as_u256 c b)
  unfolding distance
  distance_lem a b ha hb =
      laws.xor_law (as_u256 c a) (as_u256 c b) (as_u256-IsU256 a ha) (as_u256-IsU256 b hb)

  pub distance-IsU256 : (a b : Address) → IsAddress a → IsAddress b → IsU256 (distance c a b)
  distance-IsU256 a b ha hb =
      rw (distance_lem a b ha hb)
        (xor-lt 256 (as_u256 c a) (as_u256 c b) (as_u256-IsU256 a ha) (as_u256-IsU256 b hb))

  pub distance-eq-zero_iff :
      (a b : Address) → IsAddress a → IsAddress b → (distance c a b ≡ 0) ↔ (a ≡ b)
  distance-eq-zero_iff a b ha hb = (
    λ e. as_u256-injective a b ha hb (
        eq_of_xor-zero 256 _ _ (as_u256-IsU256 a ha) (as_u256-IsU256 b hb)
          (sym (distance_lem a b ha hb) ∙ e)),
    λ e. rw (e, distance_lem b b hb hb) (xor_self 256 _ (as_u256-IsU256 b hb)),
  )

  pub distance_comm : (a b : Address) → IsAddress a → IsAddress b → distance c a b ≡ distance c b a
  distance_comm a b ha hb =
      rw (distance_lem a b ha hb, distance_lem b a hb ha)
        (xor_comm 256 _ _ (as_u256-IsU256 a ha) (as_u256-IsU256 b hb))

  -- The distance of two points from their distances to a third.
  pub distance-xor :
      (s a b : Address)
      → IsAddress s
      → IsAddress a
      → IsAddress b
      → bit_xor (distance c s a) (distance c s b) ≡ distance c a b
  distance-xor s a b hs ha hb =
      rw (distance_lem s a hs ha, distance_lem s b hs hb, distance_lem a b ha hb)
        (xor_cancel 256 _ _ _ (as_u256-IsU256 s hs) (as_u256-IsU256 a ha) (as_u256-IsU256 b hb))

  -- For addresses a, b and s: the distance is symmetric, it is zero exactly between equal
  -- addresses, it obeys the triangle inequality, and two addresses at the same distance from a
  -- third are equal.
  pub distance_metric :
      (s a b : Address)
      → IsAddress s
      → IsAddress a
      → IsAddress b
      → (distance c a b ≡ distance c b a)
        × ((distance c a b ≡ 0) ↔ (a ≡ b))
        × (distance c a b ≤ distance c a s + distance c s b)
        × ((distance c s a ≡ distance c s b) ↔ (a ≡ b))
  distance_metric s a b hs ha hb = (
    distance_comm a b ha hb,
    distance-eq-zero_iff a b ha hb,
    omega (
      arith,
      distance-xor s a b hs ha hb,
      distance_comm a s ha hs,
      xor-le-add 256 (distance c s a) (distance c s b) (distance-IsU256 s a hs ha)
          (distance-IsU256 s b hs hb),
    ),
    (
      λ e.
          (distance-eq-zero_iff a b ha hb).0
            (sym (distance-xor s a b hs ha hb) ∙ rw e (xor_self 256 _ (distance-IsU256 s b hs hb))),
      λ e. ap (distance c s) e,
    ),
  )
