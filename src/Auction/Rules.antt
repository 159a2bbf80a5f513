-- ===== src/Auction/Rules.antt =====
-- What `place_bid` and `close_if_expired` do to a valid auction.
use kademlia_blockchain_auct.Prelude.{
  ℕ, ◌≤◌, ◌<◌, ◌≡◌, refl, [], ◌∷◌, ◌++◌, Option, none, some, true, false, arith, leb, leb→le,
  Bool-cases, Option-cases, get_last?, All, All-map, Elem, inl, inr, ◌⊎◌,
}
use kademlia_blockchain_auct.Prelude.Int.{ℤ, ◌<ℤ◌, ◌≤ℤ◌, ltb_ℤ, leb_ℤ, ltb_ℤ→lt, leb_ℤ→le}
use kademlia_blockchain_auct.Prelude.Result.{ok, err}
use kademlia_blockchain_auct.Address.{Address, IsAddress}
use kademlia_blockchain_auct.Auction.{
  AuctionStatus, open_status, closed_status, Bid, Auction, auction_is_closed, bid_too_low,
  highest_bid_amount, max_by_amount, place_bid, close_if_expired,
}
use kademlia_blockchain_auct.Auction.Bids.{
  Rising, top, All-le-top, highest_bid_amount-Rising, max_by_amount-Rising, get_last-top,
}

-- The bid of `buyer` on the auction.
abbrev pub bid_on : Auction → Address → ℕ → Bid
bid_on a buyer amount = record { buyer = buyer; auction = a.key; amount = amount }

-- The winner and the winning bid: none while the auction is open, the last bid when it is closed.
abbrev pub ResultIs : AuctionStatus → Option Bid → Option Address → Option ℕ → Type 0
ResultIs open_status last winner winning_bid = (winner ≡ none) × (winning_bid ≡ none)
ResultIs closed_status none winner winning_bid = (winner ≡ none) × (winning_bid ≡ none)
ResultIs closed_status (some bid) winner winning_bid =
    (winner ≡ some bid.buyer) × (winning_bid ≡ some bid.amount)

abbrev pub HasResult : Auction → Type 0
HasResult a = ResultIs a.status (get_last? a.bids) a.winner a.winning_bid

abbrev pub IsBidOn : Address → Bid → Type 0
IsBidOn key bid = (bid.auction ≡ key) × IsAddress bid.buyer

pub record IsValid (a : Auction) : Type 0 where
  pub key_ok : IsAddress a.key
  pub seller_ok : IsAddress a.seller
  pub bids_ok : All (IsBidOn a.key) a.bids
  pub rising : Rising a.initial_value a.bids
  pub result : HasResult a

-- A bid that the rules admit at `now`.
abbrev pub Admits : ℤ → ℕ → Auction → Type 0
Admits now amount a =
    (a.status ≡ open_status) × (now <ℤ a.ends_at) × (top a.initial_value a.bids < amount)

pub status_cases : (s : AuctionStatus) → (s ≡ open_status) ⊎ (s ≡ closed_status)
status_cases open_status = inl refl
status_cases closed_status = inr refl

-- What `place_bid` answers: it appends the bid, it finds the auction closed, or the bid too low.
abbrev pub BidAnswer : ℤ → Address → ℕ → Auction → Type 0
BidAnswer now buyer amount a =
    (Admits now amount a
      × (place_bid now buyer amount a
          ≡ (record a { bids = a.bids ++ bid_on a buyer amount ∷ [] }, ok tt)))
    ⊎ ((((a.status ≡ closed_status) ⊎ (a.ends_at ≤ℤ now))
          × (place_bid now buyer amount a ≡ (a, err auction_is_closed)))
        ⊎ ((a.status ≡ open_status)
            × (now <ℤ a.ends_at)
            × (amount ≤ top a.initial_value a.bids)
            × (place_bid now buyer amount a ≡ (a, err (bid_too_low (top a.initial_value a.bids))))))

module _ (now : ℤ) (buyer : Address) (amount : ℕ) (a : Auction) (valid : IsValid a) where
  price : highest_bid_amount a ≡ top a.initial_value a.bids
  price = highest_bid_amount-Rising a valid.rising

  -- For a valid auction, any time, buyer and amount, one of three cases holds. The auction is open,
  -- the time is before its end and the amount is above the current price, the amount of the last
  -- bid or the initial value: the call succeeds and appends exactly this bid. Or the auction is
  -- closed or has ended: the error says so, and nothing changes. Or it is open and has not ended
  -- but the amount is at most the current price: the error carries that price, and nothing changes.
  pub place_bid_lem : BidAnswer now buyer amount a
  unfolding place_bid highest_bid_amount
  place_bid_lem = elim (status_cases a.status) [
    | inr e ↦ inr (inl (inl e, rw e refl))
    | inl e ↦ elim (Bool-cases (leb_ℤ a.ends_at now)) [
      | inl late ↦ inr (inl (inr (leb_ℤ→le a.ends_at now late), rw (e, late) refl))
      | inr early ↦ elim (Bool-cases (leb amount (top a.initial_value a.bids))) [
        | inl low ↦ inr (inr (e, ground arith, leb→le _ _ low, rw (e, early, price, low) refl))
        | inr high ↦ inl ((e, ground arith, ground arith), rw (e, early, price, high) refl)
      ]
    ]
  ]

-- The auction once it has been closed.
abbrev pub closed_with : Auction → Option Bid → Auction
closed_with a none = record a { status = closed_status }
closed_with a (some bid) = record a {
  status = closed_status;
  winner = some bid.buyer;
  winning_bid = some bid.amount;
}

-- What `close_if_expired` answers.
abbrev pub CloseAnswer : ℤ → Auction → Type 0
CloseAnswer now a =
    ((a.status ≡ open_status)
      × (a.ends_at ≤ℤ now)
      × (close_if_expired now a ≡ (closed_with a (get_last? a.bids), true)))
    ⊎ (((a.status ≡ closed_status) ⊎ (now <ℤ a.ends_at)) × (close_if_expired now a ≡ (a, false)))

module _ (now : ℤ) (a : Auction) (valid : IsValid a) where
  winning : max_by_amount a.bids ≡ get_last? a.bids
  winning = max_by_amount-Rising a.initial_value a.bids valid.rising

  -- For a valid auction and any time: if it is open and the time is its end or later, it is closed,
  -- the last bid, if there is one, gives the winner and the winning bid, and the result is true;
  -- if it is closed or has not ended, nothing changes and the result is false.
  pub close_if_expired_lem : CloseAnswer now a
  unfolding close_if_expired
  close_if_expired_lem = elim (status_cases a.status) [
    | inr e ↦ inr (inl e, rw e refl)
    | inl e ↦ elim (Bool-cases (ltb_ℤ now a.ends_at)) [
      | inl early ↦ inr (inr (ltb_ℤ→lt now a.ends_at early), rw (e, early) refl)
      | inr late ↦ inl (
        e,
        ground arith,
        elim (Option-cases (get_last? a.bids)) [
          | inl no_bid ↦ rw (e, late, winning, no_bid) refl
          | inr (bid, last) ↦ rw (e, late, winning, last) refl
        ],
      )
    ]
  ]

  -- The winning bid of a valid auction is one of its bids, and no bid is higher.
  pub last_bid-greatest :
      (bid : Bid)
      → get_last? a.bids ≡ some bid
      → Elem bid a.bids × All (λ b. b.amount ≤ bid.amount) a.bids
  last_bid-greatest bid last =
      let (amount, there) = get_last-top a.initial_value a.bids bid last in
      (there, All-map (λ b le. omega arith) a.bids (All-le-top a.initial_value a.bids valid.rising))
