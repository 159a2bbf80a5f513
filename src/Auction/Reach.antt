-- ===== src/Auction/Reach.antt =====
-- The life of an auction: what `new_with_duration`, `place_bid` and `close_if_expired` can make.
use mathlib.Core.Path.{subst}
use kademlia_blockchain_auct.Prelude.{
  ℕ, ◌≡◌, arith, refl, ap, sym, ◌∙◌, String, Option, none, some, [], ◌∷◌, ◌++◌, false, inl, inr,
  get_last?, All-append, as_bytes, show_u64, ◌<>◌,
}
use kademlia_blockchain_auct.Prelude.Int.{ℤ, add_i64, ◌≤ℤ◌}
use kademlia_blockchain_auct.Prelude.Sync.{done, done-injective}
use kademlia_blockchain_auct.Prelude.Result.{ok, err}
use kademlia_blockchain_auct.Crates.{Crates, CratesLaws}
use kademlia_blockchain_auct.Address.{Address, IsAddress, from_str, to_string}
use kademlia_blockchain_auct.Address.Text.{from_str-to_string}
use kademlia_blockchain_auct.Crypto.{format_as_hex_string, hash_data}
use kademlia_blockchain_auct.Auction.{
  open_status, closed_status, Bid, Auction, place_bid, close_if_expired, generate_key,
  new_with_duration, auction_is_closed,
}
use kademlia_blockchain_auct.Auction.Bids.{Rising-append}
use kademlia_blockchain_auct.Auction.Rules.{
  IsValid, Admits, ResultIs, IsBidOn, bid_on, place_bid_lem, closed_with, close_if_expired_lem,
}

module _ (c : Crates) where
  -- An auction that the operations make, at any times and in any order.
  pub data Reach : Auction → Type 0 where
    created :
        (now : ℤ) (object : String) (initial_value : ℕ) (seller : Address) (duration_ms : ℤ)
        (a : Auction)
        → IsAddress seller
        → new_with_duration c now object initial_value seller duration_ms ≡ done a
        → Reach a
    bid :
        (a : Auction) (now : ℤ) (buyer : Address) (amount : ℕ)
        → Reach a
        → IsAddress buyer
        → Reach (place_bid now buyer amount a).0
    close : (a : Auction) (now : ℤ) → Reach a → Reach (close_if_expired now a).0

  -- A valid auction under the key that its offer determines.
  abbrev pub IsSound : Auction → Type 0
  IsSound a = IsValid a × (generate_key c a.object a.initial_value a.seller ≡ done a.key)

bid-IsValid :
    (now : ℤ) (buyer : Address) (amount : ℕ) (a : Auction)
    → IsValid a
    → IsAddress buyer
    → Admits now amount a
    → IsValid (record a { bids = a.bids ++ bid_on a buyer amount ∷ [] })
bid-IsValid now buyer amount a valid hb (is_open, _, above) = record {
  key_ok = valid.key_ok;
  seller_ok = valid.seller_ok;
  bids_ok =
      All-append (IsBidOn a.key) a.bids (bid_on a buyer amount ∷ []) valid.bids_ok ((refl, hb), tt);
  rising = Rising-append a.initial_value a.bids (bid_on a buyer amount) valid.rising above;
  result = let before = valid.result in rw is_open (rw is_open at before);
}

closed_with-IsValid :
    (a : Auction) (o : Option Bid)
    → IsValid a
    → a.status ≡ open_status
    → get_last? a.bids ≡ o
    → IsValid (closed_with a o)
closed_with-IsValid a none valid is_open e = record {
  key_ok = valid.key_ok;
  seller_ok = valid.seller_ok;
  bids_ok = valid.bids_ok;
  rising = valid.rising;
  result =
      let before = valid.result in
      subst (λ o. ResultIs closed_status o a.winner a.winning_bid) (sym e) (rw is_open at before);
}
closed_with-IsValid a (some last) valid is_open e = record {
  key_ok = valid.key_ok;
  seller_ok = valid.seller_ok;
  bids_ok = valid.bids_ok;
  rising = valid.rising;
  result =
      subst (λ o. ResultIs closed_status o (some last.buyer) (some last.amount)) (sym e)
        (refl, refl);
}

module _ (c : Crates) (laws : CratesLaws c) where
  -- The address of an offer.
  abbrev pub offer_key : String → ℕ → Address → Address
  offer_key object initial_value seller = record {
    bytes = c.sha256 (as_bytes (object <> show_u64 initial_value <> to_string c seller));
  }

  -- The key of any offer is the hash of its text: the `unwrap` never fails.
  pub generate_key_lem :
      (object : String) (initial_value : ℕ) (seller : Address)
      → generate_key c object initial_value seller ≡ done (offer_key object initial_value seller)
  unfolding generate_key
  generate_key_lem object initial_value seller =
      let bs = as_bytes (object <> show_u64 initial_value <> to_string c seller) in
      let h = laws.sha256_law bs in
      let e : from_str c (
            format_as_hex_string c
              (hash_data c (object <> show_u64 initial_value <> to_string c seller)))
          ≡ ok (offer_key object initial_value seller) =
        unfold format_as_hex_string hash_data to_string in
        (ap (from_str c) (laws.format_law (c.sha256 bs) h.0 h.1)
          ∙ from_str-to_string c laws (offer_key object initial_value seller) h) in
      rw (e, generate_key) refl

  abbrev pub fresh : ℤ → String → ℕ → Address → ℤ → Auction
  fresh now object initial_value seller duration_ms = record {
    key = offer_key object initial_value seller;
    object = object;
    initial_value = initial_value;
    seller = seller;
    bids = [];
    status = open_status;
    created_at = now;
    ends_at = add_i64 now duration_ms;
    winner = none;
    winning_bid = none;
  }

  pub new_with_duration_lem :
      (now : ℤ) (object : String) (initial_value : ℕ) (seller : Address) (duration_ms : ℤ)
      → new_with_duration c now object initial_value seller duration_ms
        ≡ done (fresh now object initial_value seller duration_ms)
  unfolding new_with_duration
  new_with_duration_lem now object initial_value seller duration_ms =
      rw (generate_key_lem object initial_value seller, new_with_duration) refl

  fresh-IsSound :
      (now : ℤ) (object : String) (initial_value : ℕ) (seller : Address) (duration_ms : ℤ)
      → IsAddress seller
      → IsSound c (fresh now object initial_value seller duration_ms)
  fresh-IsSound now object initial_value seller duration_ms hs = (
    record {
      key_ok = laws.sha256_law (as_bytes (object <> show_u64 initial_value <> to_string c seller));
      seller_ok = hs;
      bids_ok = tt;
      rising = tt;
      result = (refl, refl);
    },
    generate_key_lem object initial_value seller,
  )

  bid-IsSound :
      (now : ℤ) (buyer : Address) (amount : ℕ) (a : Auction)
      → IsSound c a
      → IsAddress buyer
      → IsSound c (place_bid now buyer amount a).0
  bid-IsSound now buyer amount a (valid, key) hb = elim (place_bid_lem now buyer amount a valid) [
    | inl (admits, e) ↦
        subst (λ r. IsSound c r.0) (sym e) (bid-IsValid now buyer amount a valid hb admits, key)
    | inr (inl (_, e)) ↦ subst (λ r. IsSound c r.0) (sym e) (valid, key)
    | inr (inr (_, _, _, e)) ↦ subst (λ r. IsSound c r.0) (sym e) (valid, key)
  ]

  closed_with-key :
      (a : Auction) (o : Option Bid)
      → generate_key c a.object a.initial_value a.seller ≡ done a.key
      → generate_key c
          (closed_with a o).object
          (closed_with a o).initial_value
          (closed_with a o).seller
        ≡ done (closed_with a o).key
  closed_with-key a none key = key
  closed_with-key a (some last) key = key

  close-IsSound : (now : ℤ) (a : Auction) → IsSound c a → IsSound c (close_if_expired now a).0
  close-IsSound now a (valid, key) = elim (close_if_expired_lem now a valid) [
    | inl (is_open, _, e) ↦
        subst (λ r. IsSound c r.0) (sym e)
          (
            closed_with-IsValid a (get_last? a.bids) valid is_open refl,
            closed_with-key a (get_last? a.bids) key,
          )
    | inr (_, e) ↦ subst (λ r. IsSound c r.0) (sym e) (valid, key)
  ]

  -- Every auction that the operations make is valid, whatever the times, buyers and amounts: its
  -- bids carry its key and rise strictly above the initial value, an open auction has no winner, and
  -- a closed one has the last bid as its result, or none if there was no bid. And its key is still
  -- the one that its object, initial value and seller determine.
  pub Reach-IsSound : (a : Auction) → Reach c a → IsSound c a
  Reach-IsSound a (created now object initial_value seller duration_ms _ hs e) =
      rw
        (done-injective a (fresh now object initial_value seller duration_ms)
          (sym e ∙ new_with_duration_lem now object initial_value seller duration_ms))
        (fresh-IsSound now object initial_value seller duration_ms hs)
  Reach-IsSound _ (bid a now buyer amount r hb) =
      bid-IsSound now buyer amount a (Reach-IsSound a r) hb
  Reach-IsSound _ (close a now r) = close-IsSound now a (Reach-IsSound a r)

closed_with-closed : (a : Auction) (o : Option Bid) → (closed_with a o).status ≡ closed_status
closed_with-closed a none = refl
closed_with-closed a (some last) = refl

close-closed :
    (now : ℤ) (a : Auction)
    → IsValid a
    → a.ends_at ≤ℤ now
    → (close_if_expired now a).0.status ≡ closed_status
close-closed now a valid late = elim (close_if_expired_lem now a valid) [
  | inl (_, _, e) ↦ ap (λ r. r.0.status) e ∙ closed_with-closed a (get_last? a.bids)
  | inr (inl closed, e) ↦ ap (λ r. r.0.status) e ∙ closed
  | inr (inr early, _) ↦ absurd (omega arith)
]

place_bid-closed :
    (now : ℤ) (buyer : Address) (amount : ℕ) (a : Auction)
    → a.status ≡ closed_status
    → place_bid now buyer amount a ≡ (a, err auction_is_closed)
unfolding place_bid
place_bid-closed now buyer amount a e = rw e refl

close-closed_same :
    (now : ℤ) (a : Auction) → a.status ≡ closed_status → close_if_expired now a ≡ (a, false)
unfolding close_if_expired
close-closed_same now a e = rw e refl

-- For a valid auction that is closed at its end or later: from then on, at any time, every bid is
-- refused as on a closed auction and changes nothing, and a further close changes nothing.
pub close-final :
    (now : ℤ) (a : Auction)
    → IsValid a
    → a.ends_at ≤ℤ now
    → ((later : ℤ) (buyer : Address) (amount : ℕ)
        → place_bid later buyer amount (close_if_expired now a).0
          ≡ ((close_if_expired now a).0, err auction_is_closed))
      × ((later : ℤ)
          → close_if_expired later (close_if_expired now a).0 ≡ ((close_if_expired now a).0, false))
close-final now a valid late =
    let closed = close-closed now a valid late in
    (
      λ later buyer amount. place_bid-closed later buyer amount _ closed,
      λ later. close-closed_same later _ closed,
    )
