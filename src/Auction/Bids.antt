-- ===== src/Auction/Bids.antt =====
-- Lists of bids whose amounts rise from bid to bid.
use mathlib.Core.Option.{some-injective}
use kademlia_blockchain_auct.Prelude.{
  ℕ, ◌≤◌, ◌<◌, ◌≡◌, refl, ap, sym, List, [], ◌∷◌, ◌++◌, none, some, arith, le→leb, if_true,
  get_last?, All, Elem, inl, inr,
}
use kademlia_blockchain_auct.Auction.{
  Bid, Auction, max_from, max_amount, highest_bid_amount, max_by_from, max_by_amount,
}

-- The first bid is above `lo`, every other one above the one before it.
abbrev pub Rising : ℕ → List Bid → Type 0
Rising lo [] = Unit
Rising lo (bid ∷ bids) = (lo < bid.amount) × Rising bid.amount bids

-- The amount of the last bid, or `lo` if there is none.
abbrev pub top : ℕ → List Bid → ℕ
top lo [] = lo
top lo (bid ∷ bids) = top bid.amount bids

pub Rising-append :
    (lo : ℕ) (bids : List Bid) (new : Bid)
    → Rising lo bids
    → top lo bids < new.amount
    → Rising lo (bids ++ new ∷ [])
Rising-append lo [] new h lt = (lt, tt)
Rising-append lo (bid ∷ bids) new h lt = (h.0, Rising-append bid.amount bids new h.1 lt)

pub le-top : (lo : ℕ) (bids : List Bid) → Rising lo bids → lo ≤ top lo bids
le-top lo [] h = omega arith
le-top lo (bid ∷ bids) h = omega (arith, h.0, le-top bid.amount bids h.1)

pub All-le-top :
    (lo : ℕ) (bids : List Bid) → Rising lo bids → All (λ b. b.amount ≤ top lo bids) bids
All-le-top lo [] h = tt
All-le-top lo (bid ∷ bids) h = (le-top bid.amount bids h.1, All-le-top bid.amount bids h.1)

max_from-Rising :
    (best : ℕ) (bids : List Bid) → Rising best bids → max_from best bids ≡ top best bids
unfolding max_from
max_from-Rising best [] h = refl
max_from-Rising best (bid ∷ bids) h =
    rw (if_true bid.amount best (le→leb best bid.amount (omega (arith, h.0))))
      (max_from-Rising bid.amount bids h.1)

highest_of :
    (lo : ℕ) (bids : List Bid)
    → Rising lo bids
    → elim (max_amount bids) [ some amount ↦ amount | none ↦ lo ] ≡ top lo bids
unfolding max_amount
highest_of lo [] h = refl
highest_of lo (bid ∷ bids) h = max_from-Rising bid.amount bids h.1

-- The current price is the amount of the last bid, or the initial value.
pub highest_bid_amount-Rising :
    (a : Auction)
    → Rising a.initial_value a.bids
    → highest_bid_amount a ≡ top a.initial_value a.bids
unfolding highest_bid_amount
highest_bid_amount-Rising a h = highest_of a.initial_value a.bids h

max_by_from-Rising :
    (best : Bid) (bids : List Bid)
    → Rising best.amount bids
    → get_last? (best ∷ bids) ≡ some (max_by_from best bids)
unfolding max_by_from
max_by_from-Rising best [] h = refl
max_by_from-Rising best (bid ∷ bids) h =
    rw (if_true bid best (le→leb best.amount bid.amount (omega (arith, h.0))))
      (max_by_from-Rising bid bids h.1)

-- The winning bid is the last one.
pub max_by_amount-Rising :
    (lo : ℕ) (bids : List Bid) → Rising lo bids → max_by_amount bids ≡ get_last? bids
unfolding max_by_amount
max_by_amount-Rising lo [] h = refl
max_by_amount-Rising lo (bid ∷ bids) h = sym (max_by_from-Rising bid bids h.1)

pub get_last-top :
    (lo : ℕ) (bids : List Bid) (b : Bid)
    → get_last? bids ≡ some b
    → (b.amount ≡ top lo bids) × Elem b bids
get_last-top lo [] b e = cc
get_last-top lo (x ∷ []) b e =
    let same : b ≡ x = some-injective b x (sym e) in (ap (λ z. z.amount) same, inl same)
get_last-top lo (x ∷ y ∷ bids) b e =
    let (amount, there) = get_last-top x.amount (y ∷ bids) b e in (amount, inr there)

pub get_last-above :
    (lo : ℕ) (bids : List Bid) (b : Bid) → Rising lo bids → get_last? bids ≡ some b → lo < b.amount
get_last-above lo [] b h e = cc
get_last-above lo (x ∷ bids) b h e =
    omega (arith, h.0, (get_last-top lo (x ∷ bids) b e).0, le-top x.amount bids h.1)
