-- ===== src/Routing/Index.antt =====
-- Which bucket an address belongs to.
use native.Mathlib.Nat.{pow-le-pow_right}
use kademlia_blockchain_auct.Prelude.{
  ℕ, zero, suc, ◌-◌, ◌^◌, ◌≤◌, ◌<◌, ◌≡◌, ◌≢◌, ◌↔◌, ◌⊎◌, refl, sym, ◌∙◌, ap, none, some, arith, inl,
  inr, Bool-cases, Option-cases, bit_xor,
}
use native.Mathlib.Decide.{dec_lt}
use mathlib.Core.Path.{subst}
use mathlib.Core.Option.{some-injective}
use kademlia_blockchain_auct.Prelude.Xor.{
  xor-lt, xor-lt_same_top, le-xor_of_top, le-xor_of_top_left,
}
use kademlia_blockchain_auct.Crates.{Crates, CratesLaws}
use kademlia_blockchain_auct.Address.{Address, IsAddress, distance, address_eq, address_eq_iff}
use kademlia_blockchain_auct.Address.Metric.{distance-eq-zero_iff, distance-IsU256, distance-xor}
use kademlia_blockchain_auct.Routing.Table.{RoutingTable, get_bucket_index, n_buckets}

-- The distances of bucket `i`: bucket 0 has 1, 2 and 3, each later one twice the range before it.
abbrev pub bucket_floor : ℕ → ℕ
bucket_floor zero = 1
bucket_floor (suc j) = 2 ^ suc (suc j)

abbrev pub bucket_ceil : ℕ → ℕ
bucket_ceil i = 2 ^ suc (suc i)

abbrev pub InBucket : ℕ → ℕ → Type 0
InBucket i d = (bucket_floor i ≤ d) × (d < bucket_ceil i)

InBucket-of_zeros :
    (i lz d : ℕ) → lz ≤ 255 → 2 ^ (255 - lz) ≤ d → d < 2 ^ (256 - lz) → i ≡ 254 - lz → InBucket i d
InBucket-of_zeros zero lz d le low high e = (
  omega (arith, pow-le-pow_right {n = 2} (omega arith) {i = 0} {j = 255 - lz} (omega arith)),
  omega (arith, pow-le-pow_right {n = 2} (omega arith) {i = 256 - lz} {j = 2} (omega arith)),
)
InBucket-of_zeros (suc j) lz d le low high e =
    let low_exp : 255 - lz ≡ suc (suc j) = omega arith in
    let high_exp : 256 - lz ≡ suc (suc (suc j)) = omega arith in
    (rw low_exp at low, rw high_exp at high)

InBucket-lt : (i j d : ℕ) → i < j → InBucket i d → InBucket j d → ⊥
InBucket-lt i zero d h a b = elim h [ ]
InBucket-lt i (suc j) d h a b = omega (
  arith,
  pow-le-pow_right {n = 2} (omega arith) {i = suc (suc i)} {j = suc (suc j)} (omega arith),
)

InBucket-unique : (i j d : ℕ) → InBucket i d → InBucket j d → i ≡ j
InBucket-unique i j d a b =
    grind (arith, λ (h : i < j). InBucket-lt i j d h a b, λ (h : j < i). InBucket-lt j i d h b a)

InBucket-zero : (i : ℕ) → ¬ InBucket i 0
InBucket-zero zero h = omega arith
InBucket-zero (suc j) h =
    omega (arith, pow-le-pow_right {n = 2} (omega arith) {i = 0} {j = suc (suc j)} (omega arith))

module _ (c : Crates) (laws : CratesLaws c) (rt : RoutingTable) (own : IsAddress rt.id) where
  pub get_bucket_index_own : get_bucket_index c rt rt.id ≡ none
  unfolding get_bucket_index
  get_bucket_index_own =
      rw ((distance-eq-zero_iff c laws rt.id rt.id own own).1 refl, laws.leading_zeros_zero)

  module _ (a : Address) (ha : IsAddress a) where
    distance-pos : rt.id ≢ a → 0 < distance c rt.id a
    distance-pos ne = grind (arith, (distance-eq-zero_iff c laws rt.id a own ha).0)

    get_bucket_index_total :
        rt.id ≢ a
        → (i : ℕ) × (get_bucket_index c rt a ≡ some i)
          × (i < n_buckets)
          × InBucket i (distance c rt.id a)
    unfolding get_bucket_index
    get_bucket_index_total ne =
        let d = distance c rt.id a in
        let (le, low, high) =
          laws.leading_zeros_law d (distance-pos ne) (distance-IsU256 c laws rt.id a own ha) in
        (
          254 - c.leading_zeros d,
          ground arith,
          omega arith,
          InBucket-of_zeros _ (c.leading_zeros d) d le low high refl,
        )

    own_has_no_bucket : rt.id ≡ a → get_bucket_index c rt a ≡ none
    own_has_no_bucket e = subst (λ b. get_bucket_index c rt b ≡ none) e get_bucket_index_own

    address_cases : (rt.id ≡ a) ⊎ (rt.id ≢ a)
    address_cases = elim (Bool-cases (address_eq rt.id a)) [
      | inl same ↦ inl ((address_eq_iff rt.id a).0 same)
      | inr other ↦ inr (λ e. cc (other, (address_eq_iff rt.id a).1 e))
    ]

    pub InBucket-of_index :
        (i : ℕ)
        → get_bucket_index c rt a ≡ some i
        → InBucket i (distance c rt.id a) × (i < n_buckets) × (rt.id ≢ a)
    InBucket-of_index i h = elim address_cases [
      | inl e ↦ absurd (cc (own_has_no_bucket e))
      | inr ne ↦
          let (j, found, lt, range) = get_bucket_index_total ne in
          let same : i ≡ j = some-injective i j (sym h ∙ found) in (rw same range, rw same lt, ne)
    ]

    index_of_InBucket : (i : ℕ) → InBucket i (distance c rt.id a) → get_bucket_index c rt a ≡ some i
    index_of_InBucket i h = elim address_cases [
      | inl e ↦ absurd (not_own e)
      | inr ne ↦
          let (j, found, lt, range) = get_bucket_index_total ne in
          found ∙ ap some (InBucket-unique j i _ range h)
    ]
      where
        not_own : rt.id ≡ a → ⊥
        not_own e = InBucket-zero i (rw ((distance-eq-zero_iff c laws rt.id a own ha).1 e) at h)

    own_of_none : get_bucket_index c rt a ≡ none → rt.id ≡ a
    own_of_none h = elim address_cases [
      | inl e ↦ e
      | inr ne ↦ absurd (let (j, found, _, _) = get_bucket_index_total ne in cc)
    ]

    -- For every address, the table's own included: it belongs to bucket `i` exactly when its
    -- distance from the table's own address is in the range of bucket `i`, the index is then one
    -- of the 255 buckets, and it has no bucket exactly when it is the table's own address.
    pub get_bucket_index_iff :
        ((i : ℕ) → (get_bucket_index c rt a ≡ some i) ↔ InBucket i (distance c rt.id a))
        × ((get_bucket_index c rt a ≡ none)
            ⊎ ((i : ℕ) × (get_bucket_index c rt a ≡ some i) × (i < n_buckets)))
        × ((get_bucket_index c rt a ≡ none) ↔ (rt.id ≡ a))
    get_bucket_index_iff = (
      λ i. (λ h. (InBucket-of_index i h).0, index_of_InBucket i),
      elim (Option-cases (get_bucket_index c rt a)) [
        | inl e ↦ inl e
        | inr (i, e) ↦ inr (i, e, (InBucket-of_index i e).1)
      ],
      (own_of_none, own_has_no_bucket),
    )

-- What separates the neighbourhood of an address in bucket `j` from the rest of the table.
abbrev pub near : ℕ → ℕ
near zero = 4
near (suc j) = 2 ^ suc (suc j)

xor-lt-near : (j a b : ℕ) → InBucket j a → InBucket j b → bit_xor a b < near j
xor-lt-near zero a b p q = xor-lt 2 a b (omega arith) (omega arith)
xor-lt-near (suc j) a b (al, ah) (bl, bh) = xor-lt_same_top (suc (suc j)) a b al ah bl bh

pow_mono : (i j : ℕ) → i ≤ j → 2 ^ i ≤ 2 ^ j
pow_mono i j h = pow-le-pow_right {n = 2} (omega arith) {i = i} {j = j} h

j_lt_i : (i j : ℕ) → suc i ≢ suc j → ¬ (i < j) → suc (suc (suc j)) ≤ suc (suc i)
j_lt_i i j ne h = omega arith

near-le-xor : (i j a b : ℕ) → i ≢ j → InBucket i a → InBucket j b → near j ≤ bit_xor a b
near-le-xor zero zero a b ne p q = absurd (ne refl)
near-le-xor zero (suc j) a b ne p q =
    le-xor_of_top (suc (suc j)) a b (omega (arith, pow_mono 2 (suc (suc j)) (omega arith))) q.0
near-le-xor (suc i) zero a b ne p q =
    le-xor_of_top_left 2 a b (omega (arith, pow_mono 2 (suc (suc i)) (omega arith))) q.1
near-le-xor (suc i) (suc j) a b ne p q = elim (dec_lt i j) [
  | yes h ↦
      le-xor_of_top (suc (suc j)) a b
        (omega (arith, pow_mono (suc (suc (suc i))) (suc (suc j)) (omega arith))) q.0
  | no h ↦ omega (
    arith,
    pow_mono (suc (suc j)) (suc (suc (suc j))) (omega arith),
    le-xor_of_top_left (suc (suc (suc j))) a b
        (omega (arith, pow_mono (suc (suc (suc j))) (suc (suc i)) (j_lt_i i j ne h))) q.1,
  )
]

module _ (c : Crates) (laws : CratesLaws c) (rt : RoutingTable) (own : IsAddress rt.id) where
  module _ (n t : Address) (hn : IsAddress n) (ht : IsAddress t) (i j : ℕ)
      (at_n : get_bucket_index c rt n ≡ some i) (at_t : get_bucket_index c rt t ≡ some j) where
    in_n : InBucket i (distance c rt.id n)
    in_n = (InBucket-of_index c laws rt own n hn i at_n).0

    in_t : InBucket j (distance c rt.id t)
    in_t = (InBucket-of_index c laws rt own t ht j at_t).0

    -- Addresses in the bucket of `t` are nearer to `t` than those in any other bucket.
    pub distance-lt-near : i ≡ j → distance c n t < near j
    distance-lt-near e =
        rw (← distance-xor c laws rt.id n t own hn ht) (xor-lt-near j _ _ (rw e at in_n) in_t)

    pub near-le-distance : i ≢ j → near j ≤ distance c n t
    near-le-distance ne =
        rw (← distance-xor c laws rt.id n t own hn ht) (near-le-xor i j _ _ ne in_n in_t)
