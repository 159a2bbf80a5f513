-- ===== src/Auction/RoundTrip.antt =====
-- An auction survives the way over the wire.
use mathlib.Core.Path.{subst}
use mathlib.Core.Option.{some-injective}
use kademlia_blockchain_auct.Prelude.{
  ℕ, ◌<◌, ◌≡◌, ◌⊎◌, refl, ap, sym, ◌∙◌, length, All-Elem, String, Option, none, some, List, [], ◌∷◌,
  map, arith, All, inl, inr, Bool-cases, get_last?, str_eq, str_eq_iff, false, ◌==◌, if◌then◌else◌,
}
use kademlia_blockchain_auct.Prelude.Result.{ok, map_m, map_err, bind-ok, map_err-ok, ok-injective}
use kademlia_blockchain_auct.Crates.{Crates, CratesLaws}
use kademlia_blockchain_auct.Address.{Address, IsAddress, from_str, to_string}
use kademlia_blockchain_auct.Address.Text.{from_str-to_string, from_str-IsAddress}
use kademlia_blockchain_auct.Auction.{AuctionStatus, open_status, closed_status, Bid, Auction}
use kademlia_blockchain_auct.Auction.Message.{
  status_as_str, status_from_str, bid_try_from, bid_to_message, winner_try_from, try_from_message,
  to_message, AuctionMessage, AuctionError, invalid_key, invalid_seller,
}
use kademlia_blockchain_auct.Auction.Rules.{IsValid, IsBidOn, ResultIs}
use kademlia_blockchain_auct.Auction.Bids.{get_last-top, get_last-above}

status_round_trip : (s : AuctionStatus) → status_from_str (status_as_str s) ≡ ok s
unfolding status_from_str status_as_str
status_round_trip open_status = refl
status_round_trip closed_status = refl

module _ (c : Crates) (laws : CratesLaws c) where
  bid_round_trip :
      (key : Address) (b : Bid)
      → IsAddress key
      → IsBidOn key b
      → bid_try_from c (bid_to_message c b) ≡ ok b
  unfolding bid_try_from bid_to_message
  bid_round_trip key b hk (e, hb) =
      rw
        (
          from_str-to_string c laws b.buyer hb,
          from_str-to_string c laws b.auction (subst IsAddress (sym e) hk),
        )
        refl

  bids_round_trip :
      (key : Address) (bids : List Bid)
      → IsAddress key
      → All (IsBidOn key) bids
      → map_m (bid_try_from c) (map (bid_to_message c) bids) ≡ ok bids
  bids_round_trip key [] hk h = refl
  bids_round_trip key (b ∷ bids) hk h =
      rw (bid_round_trip key b hk h.0, bids_round_trip key bids hk h.1) refl

  -- The text of an address is not empty.
  to_string_ne : (a : Address) → IsAddress a → str_eq (to_string c a) "" ≡ false
  to_string_ne a h = elim (Bool-cases (str_eq (to_string c a) "")) [
    | inr e ↦ e
    | inl e ↦
        let empty : to_string c a ≡ "" = (str_eq_iff (to_string c a) "").0 e in
        let text : c.hex_encode a.bytes ≡ "" = unfold to_string in empty in
        let none_there : a.bytes ≡ [] =
          some-injective a.bytes []
            (sym (laws.hex_law a.bytes h.1) ∙ ap c.hex_decode text ∙ laws.hex_empty) in
        absurd (omega (arith, h.0, ap length none_there))
  ]

  abbrev winner_text : Option Address → String
  winner_text o = elim o [ some winner ↦ to_string c winner | none ↦ "" ]

  -- What an auction's result can be, for the messages to keep it.
  abbrev Told : Option Address → Option ℕ → Type 0
  Told winner winning_bid =
      ((winner ≡ none) × (winning_bid ≡ none))
      ⊎ ((b : Bid) × (winner ≡ some b.buyer)
          × (winning_bid ≡ some b.amount)
          × IsAddress b.buyer
          × (0 < b.amount))

  told : (a : Auction) → IsValid a → Told a.winner a.winning_bid
  told a valid = of_result a.status (get_last? a.bids) refl valid.result
    where
      of_result :
          (s : AuctionStatus) (o : Option Bid)
          → get_last? a.bids ≡ o
          → ResultIs s o a.winner a.winning_bid
          → Told a.winner a.winning_bid
      of_result open_status o e r = inl r
      of_result closed_status none e r = inl r
      of_result closed_status (some b) e r =
          let there = (get_last-top a.initial_value a.bids b e).1 in
          inr (
            b,
            r.0,
            r.1,
            (All-Elem (IsBidOn a.key) a.bids b valid.bids_ok there).1,
            omega (arith, get_last-above a.initial_value a.bids b valid.rising e),
          )

  winner_round_trip :
      (winner : Option Address) (winning_bid : Option ℕ)
      → Told winner winning_bid
      → winner_try_from c (winner_text winner) ≡ ok winner
  unfolding winner_try_from
  winner_round_trip winner winning_bid (inl (e, _)) = rw e refl
  winner_round_trip winner winning_bid (inr (b, e, _, h, _)) =
      rw (e, to_string_ne b.buyer h, from_str-to_string c laws b.buyer h) refl

  abbrev bid_number : Option ℕ → ℕ
  bid_number o = elim o [ some bid ↦ bid | none ↦ 0 ]

  winning_bid_round_trip :
      (winner : Option Address) (winning_bid : Option ℕ)
      → Told winner winning_bid
      → (if bid_number winning_bid == 0 then none else some (bid_number winning_bid)) ≡ winning_bid
  winning_bid_round_trip winner winning_bid (inl (_, e)) = rw e refl
  winning_bid_round_trip winner winning_bid (inr (b, _, e, _, pos)) = rw e (ground arith)

  -- Every valid auction, of whatever status and bids, is read back from the protobuf message that
  -- it is sent as, with every field the same.
  pub try_from_message-to_message :
      (a : Auction) → IsValid a → try_from_message c (to_message c a) ≡ ok a
  unfolding try_from_message to_message
  try_from_message-to_message a valid =
      rw
        (
          from_str-to_string c laws a.key valid.key_ok,
          from_str-to_string c laws a.seller valid.seller_ok,
          bids_round_trip a.key a.bids valid.key_ok valid.bids_ok,
          status_round_trip a.status,
          winner_round_trip a.winner a.winning_bid (told a valid),
          winning_bid_round_trip a.winner a.winning_bid (told a valid),
        )
        refl

  -- An auction that is read from a message has a valid key.
  pub try_from_message-IsAddress :
      (proto : AuctionMessage) (a : Auction) → try_from_message c proto ≡ ok a → IsAddress a.key
  unfolding try_from_message
  try_from_message-IsAddress proto a e =
      let (key, read, e1) = bind-ok (map_err invalid_key (from_str c proto.key)) _ a e in
      let (seller, _, e2) = bind-ok (map_err invalid_seller (from_str c proto.seller)) _ a e1 in
      let (bids, _, e3) = bind-ok (map_m (bid_try_from c) proto.bids) _ a e2 in
      let (status, _, e4) = bind-ok (status_from_str proto.status) _ a e3 in
      let (winner, _, e5) = bind-ok (winner_try_from c proto.winner) _ a e4 in
      rw (sym (ok-injective {E = AuctionError} _ a e5))
        (from_str-IsAddress c laws proto.key key (map_err-ok invalid_key _ key read))
