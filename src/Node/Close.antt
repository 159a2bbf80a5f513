-- ===== src/Node/Close.antt =====
-- What `close_expired_auctions` does.
use mathlib.Core.Path.{subst}
use kademlia_blockchain_auct.Prelude.{
  ℕ, ◌≡◌, refl, ap, sym, ◌∙◌, String, List, [], ◌∷◌, Bool, inl, inr, map, All, if_cases,
  if◌then◌else◌, Option-cases, ◌⊎◌,
}
use kademlia_blockchain_auct.Prelude.Int.{ℤ, ◌<ℤ◌, ltb_ℤ, ltb_ℤ→lt}
use kademlia_blockchain_auct.Prelude.Result.{Result, ok, err, Result-cases}
use kademlia_blockchain_auct.Crates.{Crates}
use kademlia_blockchain_auct.Address.{Address}
use kademlia_blockchain_auct.Auction.{
  Auction, closed_status, is_closed, close_if_expired, max_by_amount,
}
use kademlia_blockchain_auct.Auction.Rules.{status_cases}
use kademlia_blockchain_auct.Ledger.{Block}
use kademlia_blockchain_auct.Storage.{Codec}
use kademlia_blockchain_auct.Node.{
  NodeError, State, collect_auctions, persist_auctions_locked, record_if_closed, put_auctions,
  close_each, close_expired_auctions,
}
use kademlia_blockchain_auct.Node.Set.{Fresh, DistinctKeys, collect_distinct}
use kademlia_blockchain_auct.Node.Ledgers.{
  LedgerStep, LedgerStep-same, WinStep, WinStep-same, WinStep-trans, record_result-WinStep,
}
use kademlia_blockchain_auct.Node.Store.{put_auctions-SetStep, WinStep-SetStep}

module _ (now : ℤ) where
  -- The auction after the call, whether it has expired or not.
  abbrev pub closer : Auction → Auction
  closer a = (close_if_expired now a).0

  -- The auctions that the call closes, in order.
  abbrev pub closing : List Auction → List Auction
  closing [] = []
  closing (a ∷ rest) = if (close_if_expired now a).1 then closer a ∷ closing rest else closing rest

  -- Not open past its end.
  abbrev pub Settled : Auction → Type 0
  Settled a = (a.status ≡ closed_status) ⊎ (now <ℤ a.ends_at)

  closer-key : (a : Auction) → (closer a).key ≡ a.key
  unfolding close_if_expired
  closer-key a =
      let P = λ (r : Auction × Bool). r.0.key ≡ a.key in
      if_cases P (is_closed a.status) _ _ (λ e. refl)
        (λ e.
          if_cases P (ltb_ℤ now a.ends_at) _ _ (λ e1. refl)
            (λ e1. elim (Option-cases (max_by_amount a.bids)) [
              | inl e2 ↦ rw e2 refl
              | inr (b, e2) ↦ rw e2 refl
            ]))

  closer-Settled : (a : Auction) → Settled (closer a)
  unfolding close_if_expired
  closer-Settled a =
      let P = λ (r : Auction × Bool). Settled r.0 in
      if_cases P (is_closed a.status) _ _
        (λ e. elim (status_cases a.status) [
          | inl o ↦ absurd (cc (e, ap is_closed o))
          | inr d ↦ inl d
        ])
        (λ e.
          if_cases P (ltb_ℤ now a.ends_at) _ _ (λ early. inr (ltb_ℤ→lt now a.ends_at early))
            (λ late. elim (Option-cases (max_by_amount a.bids)) [
              | inl e2 ↦ rw e2 (inl refl)
              | inr (b, e2) ↦ rw e2 (inl refl)
            ]))

  closer-All : (l : List Auction) → All Settled (map closer l)
  closer-All [] = tt
  closer-All (a ∷ l) = (closer-Settled a, closer-All l)

  Fresh-closer : (key : Address) (l : List Auction) → Fresh key l → Fresh key (map closer l)
  Fresh-closer key [] h = tt
  Fresh-closer key (a ∷ l) h = (λ e. h.0 (sym (closer-key a) ∙ e), Fresh-closer key l h.1)

  pub closer-DistinctKeys : (l : List Auction) → DistinctKeys l → DistinctKeys (map closer l)
  closer-DistinctKeys [] h = tt
  closer-DistinctKeys (a ∷ l) h = (
    subst (λ k. Fresh k (map closer l)) (sym (closer-key a)) (Fresh-closer a.key l h.0),
    closer-DistinctKeys l h.1,
  )

  All-Fresh : (l : List Auction) → All (λ a. Fresh a.key []) l
  All-Fresh [] = tt
  All-Fresh (a ∷ l) = (tt, All-Fresh l)

  collect_closer :
      (l : List Auction) → DistinctKeys l → collect_auctions (map closer l) [] ≡ map closer l
  collect_closer l h =
      collect_distinct (map closer l) [] (closer-DistinctKeys l h) (All-Fresh (map closer l))

module _ (auction_codec : Codec Auction) (block_codec : Codec Block) (c : Crates)
    (block_json : Block → String) (clock : ℕ → ℤ) (now : ℤ) where
  abbrev each : List Auction → State → Result NodeError (List Auction × List Auction) × State
  each l s = close_each auction_codec block_codec c block_json clock now l s

  abbrev EachAnswer : List Auction → Result NodeError (List Auction × List Auction) → Type 0
  EachAnswer l r = (r ≡ ok (closing now l, map (closer now) l)) ⊎ ((e : NodeError) × (r ≡ err e))

  record_if_closed-WinStep :
      (a : Auction) (s : State)
      → WinStep auction_codec block_codec c block_json clock s
          (record_if_closed auction_codec block_codec c block_json clock now a s).1
  unfolding record_if_closed
  record_if_closed-WinStep a s =
      if_cases
        (λ (r : Result NodeError (Unit {0}) × State).
          WinStep auction_codec block_codec c block_json clock s r.1)
        (close_if_expired now a).1 _ _
        (λ e. record_result-WinStep auction_codec block_codec c block_json clock (closer now a) s)
        (λ e. WinStep-same auction_codec block_codec c block_json clock s)

  close_each_lem :
      (l : List Auction) (s : State)
      → WinStep auction_codec block_codec c block_json clock s (each l s).1
        × EachAnswer l (each l s).0
  unfolding close_each
  close_each_lem [] s = (WinStep-same auction_codec block_codec c block_json clock s, inl refl)
  close_each_lem (a ∷ rest) s =
      let one = record_if_closed auction_codec block_codec c block_json clock now a s in
      let h1 = record_if_closed-WinStep a s in
      let (h2, answer) = close_each_lem rest one.1 in
      let h3 =
        WinStep-trans auction_codec block_codec c block_json clock s one.1 (each rest one.1).1 h1
          h2 in
      elim (Result-cases one.0) [
        | inr (e, failed) ↦ rw (failed, close_each) (h1, inr (e, refl))
        | inl (_, fine) ↦ elim answer [
          | inl all ↦ rw (fine, all, close_each) (h3, inl refl)
          | inr (e, failed) ↦ rw (fine, failed, close_each) (h3, inr (e, refl))
        ]
      ]

  abbrev close_all : State → Result NodeError (List Auction) × State
  close_all s = close_expired_auctions auction_codec block_codec c block_json clock now s

  -- What `close_expired_auctions` answers and leaves.
  abbrev pub CloseAllAnswer : State → Result NodeError (List Auction) × State → Type 0
  CloseAllAnswer s r =
      LedgerStep c block_json s r.1
      × (((r.1.node.auctions ≡ s.node.auctions) × ((e : NodeError) × (r.0 ≡ err e)))
          ⊎ ((r.1.node.auctions.value ≡ map (closer now) s.node.auctions.value)
              × All (Settled now) r.1.node.auctions.value
              × ((r.0 ≡ ok (closing now s.node.auctions.value))
                  ⊎ ((e : NodeError) × (r.0 ≡ err e)))))

  Settled-set :
      (l : List Auction) (s' : State)
      → DistinctKeys l
      → s'.node.auctions.value ≡ collect_auctions (map (closer now) l) []
      → (s'.node.auctions.value ≡ map (closer now) l) × All (Settled now) s'.node.auctions.value
  Settled-set l s' distinct e =
      let e' = e ∙ collect_closer now l distinct in
      (e', subst (All (Settled now)) (sym e') (closer-All now l))

  -- For any set of auctions with different keys, at any time: the call only adds blocks to the
  -- ledger, a well-formed one staying so, and either it ends in an error with the set as it was, or
  -- every auction of the set is as `close_if_expired` leaves it, so that none is open past its
  -- end, and the result is the list of those that it closed, or the error of saving them.
  pub close_expired_auctions_lem :
      (s : State) → DistinctKeys s.node.auctions.value → CloseAllAnswer s (close_all s)
  unfolding close_expired_auctions
  close_expired_auctions_lem s distinct =
      if_cases (CloseAllAnswer s) s.node.auctions.poisoned _ _
        (λ bad. (LedgerStep-same c block_json s, inl (refl, (_, refl))))
        (λ healthy.
          let l = s.node.auctions.value in
          let loop = each l s in
          let (h, answer) = close_each_lem l s in
          elim answer [
            | inr (e, failed) ↦ rw failed (h.0, inl (h.1, (e, refl)))
            | inl all ↦
                let l' = collect_auctions (map (closer now) l) [] in
                let saved =
                  persist_auctions_locked auction_codec block_codec
                    (put_auctions auction_codec block_codec c block_json clock l' loop.1) in
                let (step, set) =
                  WinStep-SetStep auction_codec block_codec c block_json clock l' s loop.1 saved.1 h
                    (put_auctions-SetStep auction_codec block_codec c block_json clock l' loop.1) in
                let settled = Settled-set l saved.1 distinct (ap (λ k. k.value) set) in
                rw all (elim (Result-cases saved.0) [
                  | inl (_, fine) ↦ rw fine (step, inr (settled.0, settled.1, inl refl))
                  | inr (e, failed) ↦ rw failed (step, inr (settled.0, settled.1, inr (e, refl)))
                ])
          ])
