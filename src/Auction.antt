-- ===== src/Auction.antt =====
-- auction.rs: auctions, their bids and the operations on them. The clock is an argument.
pub mod Message
pub mod Bids
pub mod Rules
pub mod Reach
pub mod RoundTrip
use kademlia_blockchain_auct.Prelude.{
  ℕ, String, ◌<>◌, show_u64, List, [], ◌∷◌, ◌++◌, Option, none, some, Bool, true, false, ltb, leb,
  if◌then◌else◌, str_eq,
}
use kademlia_blockchain_auct.Prelude.Int.{ℤ, pos, add_i64, leb_ℤ, ltb_ℤ}
use kademlia_blockchain_auct.Prelude.Result.{Result, ok, err}
use kademlia_blockchain_auct.Prelude.Sync.{Outcome, done, panic}
use kademlia_blockchain_auct.Crates.{Crates}
use kademlia_blockchain_auct.Address.{Address, default_address, from_str, to_string}
use kademlia_blockchain_auct.Crypto.{hash_data, format_as_hex_string}

pub data AuctionStatus : Type 0 where
  open_status closed_status : AuctionStatus

pub record Bid : Type 0 where
  pub buyer : Address
  pub auction : Address
  pub amount : ℕ

pub record Auction : Type 0 where
  pub key : Address
  pub object : String
  pub initial_value : ℕ
  pub seller : Address
  pub bids : List Bid
  pub status : AuctionStatus
  pub created_at : ℤ
  pub ends_at : ℤ
  pub winner : Option Address
  pub winning_bid : Option ℕ

pub data BidError : Type 0 where
  auction_is_closed : BidError
  bid_too_low : ℕ → BidError

abbrev pub is_closed : AuctionStatus → Bool
is_closed open_status = false
is_closed closed_status = true

unfoldable pub max_from : ℕ → List Bid → ℕ
max_from best [] = best
max_from best (bid ∷ bids) = max_from (if leb best bid.amount then bid.amount else best) bids

-- `iter().map(|bid| bid.amount).max()`
unfoldable pub max_amount : List Bid → Option ℕ
unfolding max_from
max_amount [] = none
max_amount (bid ∷ bids) = some (max_from bid.amount bids)

unfoldable pub highest_bid_amount : Auction → ℕ
unfolding max_amount
highest_bid_amount a = elim (max_amount a.bids) [ some amount ↦ amount | none ↦ a.initial_value ]

unfoldable pub max_by_from : Bid → List Bid → Bid
max_by_from best [] = best
max_by_from best (bid ∷ bids) = max_by_from (if leb best.amount bid.amount then bid else best) bids

-- `iter().max_by_key(|bid| bid.amount)`: of equal amounts, the last one.
unfoldable pub max_by_amount : List Bid → Option Bid
unfolding max_by_from
max_by_amount [] = none
max_by_amount (bid ∷ bids) = some (max_by_from bid bids)

unfoldable pub place_bid : ℤ → Address → ℕ → Auction → Auction × Result BidError (Unit {0})
place_bid now buyer amount a =
    if is_closed a.status
    then (a, err auction_is_closed)
    else if leb_ℤ a.ends_at now
    then (a, err auction_is_closed)
    else let current_price = highest_bid_amount a in
      if leb amount current_price then (a, err (bid_too_low current_price)) else (
        record a {
          bids = a.bids ++ record { buyer = buyer; auction = a.key; amount = amount } ∷ [];
        },
        ok tt,
      )

unfoldable pub close_if_expired : ℤ → Auction → Auction × Bool
unfolding max_by_amount
close_if_expired now a =
    if is_closed a.status
    then (a, false)
    else if ltb_ℤ now a.ends_at
    then (a, false)
    else elim (max_by_amount a.bids) [
      | none ↦ (record a { status = closed_status }, true)
      | some winning ↦ (
        record a {
          status = closed_status;
          winner = some winning.buyer;
          winning_bid = some winning.amount;
        },
        true,
      )
    ]

module _ (c : Crates) where
  unfoldable pub generate_key : String → ℕ → Address → Outcome Address
  generate_key object initial_value seller =
      let data_to_hash = object <> show_u64 initial_value <> to_string c seller in
      elim (from_str c (format_as_hex_string c (hash_data c data_to_hash))) [
        | ok key ↦ done key
        | err e ↦ panic
      ]

  -- `now + duration_ms` wraps around, as in a release build.
  unfoldable pub new_with_duration : ℤ → String → ℕ → Address → ℤ → Outcome Auction
  unfolding generate_key
  new_with_duration now object initial_value seller duration_ms =
      elim (generate_key object initial_value seller) [
        | panic ↦ panic
        | done key ↦ done (record {
          key = key;
          object = object;
          initial_value = initial_value;
          seller = seller;
          bids = [];
          status = open_status;
          created_at = now;
          ends_at = add_i64 now duration_ms;
          winner = none;
          winning_bid = none;
        })
      ]

  abbrev pub new : ℤ → String → ℕ → Address → Outcome Auction
  new now object initial_value seller =
      new_with_duration now object initial_value seller (pos 30000)
