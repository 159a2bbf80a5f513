-- ===== src/Auction/Message.antt =====
-- proto/kademlia.proto: the messages `Auction` and `Bid`; auction.rs: their conversions.
use kademlia_blockchain_auct.Prelude.{
  ℕ, String, List, map, Option, none, some, ◌==◌, if◌then◌else◌, str_eq,
}
use kademlia_blockchain_auct.Prelude.Int.{ℤ}
use kademlia_blockchain_auct.Prelude.Result.{Result, ok, err, map_err, map_m, ◌>>=◌}
use kademlia_blockchain_auct.Crates.{Crates}
use kademlia_blockchain_auct.Address.{Address, AddressError, from_str, to_string}
use kademlia_blockchain_auct.Auction.{Auction, AuctionStatus, open_status, closed_status, Bid}

pub record BidMessage : Type 0 where
  pub buyer : String
  pub auction : String
  pub amount : ℕ

pub record AuctionMessage : Type 0 where
  pub key : String
  pub object : String
  pub initial_value : ℕ
  pub seller : String
  pub bids : List BidMessage
  pub status : String
  pub created_at : ℤ
  pub ends_at : ℤ
  pub winner : String
  pub winning_bid : ℕ

pub data AuctionError : Type 0 where
  unknown_auction_status : String → AuctionError
  invalid_key invalid_seller invalid_buyer invalid_auction invalid_winner :
      AddressError → AuctionError

unfoldable pub status_as_str : AuctionStatus → String
status_as_str open_status = "open"
status_as_str closed_status = "closed"

unfoldable pub status_from_str : String → Result AuctionError AuctionStatus
status_from_str value =
    if str_eq value "open"
    then ok open_status
    else if str_eq value ""
    then ok open_status
    else if str_eq value "closed"
    then ok closed_status
    else err (unknown_auction_status value)

module _ (c : Crates) where
  unfoldable pub bid_try_from : BidMessage → Result AuctionError Bid
  bid_try_from b = do
    buyer ← map_err invalid_buyer (from_str c b.buyer)
    auction ← map_err invalid_auction (from_str c b.auction)
    ok (record { buyer = buyer; auction = auction; amount = b.amount })

  unfoldable pub winner_try_from : String → Result AuctionError (Option Address)
  winner_try_from winner =
      if str_eq winner ""
      then ok none
      else do address ← map_err invalid_winner (from_str c winner); ok (some address)

  -- `TryFrom<&kademlia::Auction> for Auction`
  unfoldable pub try_from_message : AuctionMessage → Result AuctionError Auction
  unfolding bid_try_from winner_try_from status_from_str
  try_from_message proto = do
    key ← map_err invalid_key (from_str c proto.key)
    seller ← map_err invalid_seller (from_str c proto.seller)
    bids ← map_m bid_try_from proto.bids
    status ← status_from_str proto.status
    winner ← winner_try_from proto.winner
    ok (record {
      key = key;
      object = proto.object;
      initial_value = proto.initial_value;
      seller = seller;
      bids = bids;
      status = status;
      created_at = proto.created_at;
      ends_at = proto.ends_at;
      winner = winner;
      winning_bid = if proto.winning_bid == 0 then none else some proto.winning_bid;
    })

  unfoldable pub bid_to_message : Bid → BidMessage
  bid_to_message bid = record {
    buyer = to_string c bid.buyer;
    auction = to_string c bid.auction;
    amount = bid.amount;
  }

  -- `From<Auction>` and `From<&Auction>` for `kademlia::Auction`
  unfoldable pub to_message : Auction → AuctionMessage
  unfolding bid_to_message status_as_str
  to_message auction = record {
    key = to_string c auction.key;
    object = auction.object;
    initial_value = auction.initial_value;
    seller = to_string c auction.seller;
    bids = map bid_to_message auction.bids;
    status = status_as_str auction.status;
    created_at = auction.created_at;
    ends_at = auction.ends_at;
    winner = elim auction.winner [ some winner ↦ to_string c winner | none ↦ "" ];
    winning_bid = elim auction.winning_bid [ some bid ↦ bid | none ↦ 0 ];
  }
