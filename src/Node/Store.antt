-- ===== src/Node/Store.antt =====
-- What `store_auction` does.
use kademlia_blockchain_auct.Prelude.{
  Bool-cases, ◌⊎◌, ℕ, ◌≡◌, refl, ap, sym, ◌∙◌, String, List, append-nil, [], some, Bool, false, inl,
  inr, if_cases, if_false,
}
use kademlia_blockchain_auct.Prelude.Int.{ℤ}
use kademlia_blockchain_auct.Prelude.Result.{Result, ok, Result-cases}
use kademlia_blockchain_auct.Prelude.Sync.{RwLock}
use kademlia_blockchain_auct.Crates.{Crates}
use kademlia_blockchain_auct.Address.{Address, address_eq, address_eq_iff}
use kademlia_blockchain_auct.Auction.{Auction}
use kademlia_blockchain_auct.Ledger.{Block}
use kademlia_blockchain_auct.Storage.{Codec}
use kademlia_blockchain_auct.Node.{
  NodeError, State, replace_auction, lookup, find_auction, persist_auctions_locked, record_result,
  put_auctions, store_auction,
}
use kademlia_blockchain_auct.Node.Set.{lookup-replace_self, lookup-replace_ne}
use kademlia_blockchain_auct.Node.Ledgers.{
  LedgerStep, LedgerStep-trans, WinStep, record_result-WinStep,
}

module _ (auction_codec : Codec Auction) (block_codec : Codec Block) (c : Crates)
    (block_json : Block → String) (clock : ℕ → ℤ) where
  abbrev store : Auction → State → Result NodeError Bool × State
  store a s = store_auction auction_codec block_codec c block_json clock a s

  -- A call that leaves `l` as the set of auctions, and only adds to the ledger.
  abbrev pub SetStep : List Auction → State → State → Type 0
  SetStep l s s' =
      LedgerStep c block_json s s' × (s'.node.auctions ≡ record s.node.auctions { value = l })

  pub put_auctions-SetStep :
      (l : List Auction) (s : State)
      → SetStep l s
          (persist_auctions_locked auction_codec block_codec
            (put_auctions auction_codec block_codec c block_json clock l s)).1
  unfolding persist_auctions_locked
  put_auctions-SetStep l s = (
    record {
      node_info = refl;
      routing_table = refl;
      config = refl;
      auctions_lock = refl;
      ledger_lock = refl;
      grows = ([], sym (append-nil s.node.ledger.value));
      keeps = λ h. h;
      stuck = λ por pos empty. empty;
    },
    refl,
  )

  SetStep-WinStep :
      (l : List Auction) (s t u : State)
      → SetStep l s t
      → WinStep auction_codec block_codec c block_json clock t u
      → SetStep l s u
  SetStep-WinStep l s t u (f, e) (g, d) = (LedgerStep-trans c block_json s t u f g, d ∙ e)

  pub WinStep-SetStep :
      (l : List Auction) (s t u : State)
      → WinStep auction_codec block_codec c block_json clock s t
      → SetStep l t u
      → SetStep l s u
  WinStep-SetStep l s t u (f, e) (g, d) = (
    LedgerStep-trans c block_json s t u f g,
    d ∙ ap (λ (lock : RwLock (List Auction)). record lock { value = l }) e,
  )

  pub store_auction_lem :
      (a : Auction) (s : State)
      → s.node.auctions.poisoned ≡ false
      → SetStep (replace_auction a s.node.auctions.value) s (store a s).1
  unfolding store_auction
  store_auction_lem a s healthy =
      let l = replace_auction a s.node.auctions.value in
      let s1 = put_auctions auction_codec block_codec c block_json clock l s in
      let saved = persist_auctions_locked auction_codec block_codec s1 in
      let recorded = record_result auction_codec block_codec c block_json clock a saved.1 in
      let h1 = put_auctions-SetStep l s in
      let h2 =
        SetStep-WinStep l s saved.1 recorded.1 h1
          (record_result-WinStep auction_codec block_codec c block_json clock a saved.1) in
      let P = λ (r : Result NodeError Bool × State). SetStep l s r.1 in
      if_cases P s.node.auctions.poisoned _ _ (λ bad. absurd cc)
        (λ e. elim (Result-cases saved.0) [
          | inr (e, failed) ↦ rw failed h1
          | inl (_, fine) ↦ elim (Result-cases recorded.0) [
            | inr (e, failed) ↦ rw (fine, failed) h2
            | inl (_, good) ↦ rw (fine, good) h2
          ]
        ])

  -- For any auction, set, disk and ledger, with the lock on the set healthy: whether the call
  -- succeeds or ends in an error of the disk or the ledger, the node then finds exactly this
  -- auction under its key, and under every other key what it found before.
  pub find_auction-store_auction :
      (a : Auction) (s : State)
      → s.node.auctions.poisoned ≡ false
      → (find_auction a.key (store a s).1.node ≡ ok (some a))
        × ((key : Address)
            → (key ≡ a.key) ⊎ (find_auction key (store a s).1.node ≡ find_auction key s.node))
  unfolding find_auction
  find_auction-store_auction a s healthy =
      let set = (store_auction_lem a s healthy).1 in
      (
        found a.key set ∙ ap ok (lookup-replace_self a s.node.auctions.value),
        λ key. elim (Bool-cases (address_eq key a.key)) [
          | inl e ↦ inl ((address_eq_iff key a.key).0 e)
          | inr e ↦ inr (
              found key set
              ∙ ap ok (
                  lookup-replace_ne a key s.node.auctions.value
                    (λ same. cc (e, (address_eq_iff key a.key).1 same)))
              ∙ sym (if_false _ _ healthy))
        ],
      )
    where
      found :
          (key : Address)
          → (store a s).1.node.auctions
            ≡ record s.node.auctions { value = replace_auction a s.node.auctions.value }
          → find_auction key (store a s).1.node
            ≡ ok (lookup key (replace_auction a s.node.auctions.value))
      found key e =
          if_false _ _ (ap (λ l. l.poisoned) e ∙ healthy) ∙ ap (λ l. ok (lookup key l.value)) e
