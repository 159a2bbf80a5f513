-- ===== src/Routing/Closest/Cover.antt =====
-- The scan visits every bucket exactly once.
use Prim.Native.Nat.{min}
use native.Mathlib.Decide.{dec_lt}
use native.Mathlib.Numerals.{add-one}
use kademlia_blockchain_auct.Prelude.{
  ℕ, zero, suc, ◌+◌, ◌-◌, ◌≤◌, ◌<◌, ◌≡◌, refl, ◌∙◌, true, false, ◌&&◌, List, [], ◌∷◌, ◌++◌, Option,
  none, some, arith, inl, inr, Bool-cases, ltb, leb, leb→le, ◌==◌, if◌then◌else◌, length,
  length-append, get_elem?, set, get_elem?-set_ne, replicate, get_elem?-replicate,
}
use kademlia_blockchain_auct.Routing.Closest.{
  Scan, visit_bucket, visit_lower, scan_from, range_from, bucket_order,
}

abbrev pub count : ℕ → List ℕ → ℕ
count j [] = 0
count j (x ∷ xs) = if j == x then suc (count j xs) else count j xs

-- Every index below `len` once, and nothing else.
abbrev pub Covers : ℕ → List ℕ → Type 0
Covers len l = (j : ℕ) → count j l ≡ (if ltb j len then 1 else 0)

count-append :
    (j x : ℕ) (l : List ℕ) → count j (l ++ x ∷ []) ≡ count j l + (if j == x then 1 else 0)
count-append j x [] = ground arith
count-append j x (y ∷ l) = ground (arith, count-append j x l)

module _ (len t : ℕ) where
  -- Whether bucket `j` lies between `lo` below and `hi` above the target.
  abbrev within : ℕ → ℕ → ℕ → ℕ
  within lo hi j = if ltb j len && (leb t (j + lo) && leb j (t + hi)) then 1 else 0

  -- The buckets from `lo` below to `hi` above the target have been pushed, once each, and those
  -- outside are not marked.
  record Scanned (lo hi : ℕ) (s : Scan) : Type 0 where
    below : (j : ℕ) → j < len → j + lo < t → get_elem? s.visited j ≡ some false
    above : (j : ℕ) → j < len → t + hi < j → get_elem? s.visited j ≡ some false
    counts : (j : ℕ) → count j s.bucket_indices ≡ within lo hi j
    total : length s.bucket_indices ≡ suc (min t lo + min (len - 1 - t) hi)

  visit_bucket_fresh :
      (x : ℕ) (s : Scan)
      → x < len
      → get_elem? s.visited x ≡ some false
      → visit_bucket len x s
        ≡ record { visited = set s.visited x true; bucket_indices = s.bucket_indices ++ x ∷ [] }
  unfolding visit_bucket
  visit_bucket_fresh x s h e = ground arith

  visit_bucket_out : (x : ℕ) (s : Scan) → len ≤ x → visit_bucket len x s ≡ s
  unfolding visit_bucket
  visit_bucket_out x s h = ground arith

  module _ (inside : t < len) (lo hi : ℕ) (s : Scan) (h : Scanned lo hi s) where
    Scanned-upper : Scanned lo (suc hi) (visit_bucket len (t + suc hi) s)
    Scanned-upper = elim (dec_lt (t + suc hi) len) [
      | yes lt ↦
          rw (visit_bucket_fresh (t + suc hi) s lt (h.above (t + suc hi) lt (omega arith)))
            (record {
              below = λ j p q.
                  get_elem?-set_ne s.visited (t + suc hi) j true (omega arith) ∙ h.below j p q;
              above = λ j p q.
                  get_elem?-set_ne s.visited (t + suc hi) j true (omega arith)
                  ∙ h.above j p (omega arith);
              counts =
                  λ j. ground (arith, count-append j (t + suc hi) s.bucket_indices, h.counts j);
              total =
                  omega (arith, length-append {0} s.bucket_indices ((t + suc hi) ∷ []), h.total);
            })
      | no ge ↦ rw (visit_bucket_out (t + suc hi) s (omega arith)) (record {
        below = h.below;
        above = λ j p q. h.above j p (omega arith);
        counts = λ j. ground (arith, h.counts j);
        total = omega (arith, h.total);
      })
    ]

    Scanned-lower : Scanned (suc lo) hi (visit_lower len t (suc lo) s)
    unfolding visit_lower
    Scanned-lower = elim (Bool-cases (leb (suc lo) t)) [
      | inl le ↦
          rw (le, visit_lower)
            (rw
              (visit_bucket_fresh (t - suc lo) s (omega (arith, leb→le (suc lo) t le)) (
                h.below (t - suc lo) (omega (arith, leb→le (suc lo) t le))
                  (omega (arith, leb→le (suc lo) t le))))
              (record {
                below = λ j p q.
                    get_elem?-set_ne s.visited (t - suc lo) j true (omega arith)
                    ∙ h.below j p (omega arith);
                above = λ j p q.
                    get_elem?-set_ne s.visited (t - suc lo) j true (omega arith) ∙ h.above j p q;
                counts = λ j. ground (
                  arith,
                  count-append j (t - suc lo) s.bucket_indices,
                  h.counts j,
                  leb→le (suc lo) t le,
                );
                total = omega (
                  arith,
                  length-append {0} s.bucket_indices ((t - suc lo) ∷ []),
                  h.total,
                  leb→le (suc lo) t le,
                );
              }))
      | inr gt ↦
          rw (gt, visit_lower)
            (record {
              below = λ j p q. absurd (ground arith);
              above = h.above;
              counts = λ j. ground (arith, h.counts j);
              total = ground (arith, h.total);
            })
    ]

  module _ (inside : t < len) where
    Covers-of_Scanned :
        (lo hi : ℕ) (s : Scan)
        → Scanned lo hi s
        → t ≤ lo
        → len - 1 ≤ t + hi
        → Covers len s.bucket_indices
    Covers-of_Scanned lo hi s h p q j = ground (arith, h.counts j)

    step : ℕ → Scan → Scan
    step r s = visit_bucket len (t + suc r) (visit_lower len t (suc r) s)

    Scanned-step : (r : ℕ) (s : Scan) → Scanned r r s → Scanned (suc r) (suc r) (step r s)
    unfolding step
    Scanned-step r s h =
        Scanned-upper inside (suc r) r (visit_lower len t (suc r) s) (Scanned-lower inside r r s h)

    scan_from-step :
        (n r : ℕ) (s : Scan)
        → scan_from len (suc n) t (suc r) s ≡ (
            if leb len (length (step r s).bucket_indices)
            then step r s
            else scan_from len n t (suc (suc r)) (step r s))
    unfolding scan_from step
    scan_from-step n r s = rw add-one

    -- The early exit is taken only when every bucket has been visited.
    scan_from-Covers :
        (n r : ℕ) (s : Scan)
        → Scanned r r s
        → len - 1 ≤ r + n
        → Covers len (scan_from len n t (suc r) s).bucket_indices
    scan_from-Covers zero r s h e =
        unfold scan_from in Covers-of_Scanned r r s h (omega arith) (omega arith)
    scan_from-Covers (suc n) r s h e =
        rw scan_from-step (elim (Bool-cases (leb len (length (step r s).bucket_indices))) [
          | inl full ↦ rw full (
              Covers-of_Scanned (suc r) (suc r) (step r s) h'
                (omega (arith, h'.total, leb→le _ _ full))
                (omega (arith, h'.total, leb→le _ _ full)))
          | inr more ↦ rw more (scan_from-Covers n (suc r) (step r s) h' (omega arith))
        ])
      where
        h' : Scanned (suc r) (suc r) (step r s)
        h' = Scanned-step r s h

    Scanned-start : Scanned 0 0 (record { visited = replicate len false; bucket_indices = t ∷ [] })
    Scanned-start = record {
      below = λ j p q. get_elem?-replicate len j false p;
      above = λ j p q. get_elem?-replicate len j false p;
      counts = λ j. ground arith;
      total = omega arith;
    }

    order_some-Covers : Covers len (bucket_order len (some t))
    unfolding bucket_order
    order_some-Covers = scan_from-Covers (len - 1) 0 _ Scanned-start (omega arith)

module _ (len : ℕ) where
  count-range_from :
      (n i j : ℕ) → count j (range_from len n i) ≡ (if leb i j && ltb j (i + n) then 1 else 0)
  unfolding range_from
  count-range_from zero i j = ground arith
  count-range_from (suc n) i j = ground (arith, count-range_from n (i + 1) j)

  -- For a target in any bucket of the table, or with none: the order in which the buckets are
  -- visited holds every bucket of the table exactly once, and no other index.
  pub bucket_order-Covers :
      (target : Option ℕ)
      → ((t : ℕ) → target ≡ some t → t < len)
      → Covers len (bucket_order len target)
  bucket_order-Covers (some t) inside = order_some-Covers len t (inside t refl)
  bucket_order-Covers none inside =
      unfold bucket_order in λ j. ground (arith, count-range_from len 0 j)
