-- ===== src/Node/Ledgers.antt =====
-- What recording a win does to the ledger.
use mathlib.Core.Path.{subst}
use kademlia_blockchain_auct.Prelude.{
  ℕ, ◌≤◌, ◌<◌, ◌≡◌, refl, ap, sym, ◌∙◌, String, List, [], ◌∷◌, ◌++◌, true, false, not, append-nil,
  append_assoc, arith, if_cases, Bool-cases, Option-cases, inl, inr, any,
}
use kademlia_blockchain_auct.Prelude.Int.{ℤ}
use kademlia_blockchain_auct.Prelude.Result.{Result}
use kademlia_blockchain_auct.Crates.{Crates}
use kademlia_blockchain_auct.Address.{Address, address_eq, address_eq_iff, address_eq_refl}
use kademlia_blockchain_auct.Auction.{Auction}
use kademlia_blockchain_auct.Ledger.{
  Block, has_win_block, has_reputation_to_commit, is_win_of, auction_won, calculate_hash, new_block,
  from_config, proof_of_reputation_mode,
}
use kademlia_blockchain_auct.Ledger.Chain.{
  tip_last, Linked-append, win_count, wins, wins-append, wins-has_win_block, has_win_block-append,
  IsLedger,
}
use kademlia_blockchain_auct.Ledger.Reputation.{first-proof_of_reputation}
use kademlia_blockchain_auct.Config.{Config}
use kademlia_blockchain_auct.Storage.{Codec}
use kademlia_blockchain_auct.Node.{NodeError, State, win_block, record_auction_win, record_result}

-- What a call may do to a state besides the disk and the set of auctions: it only adds blocks to the
-- ledger, and keeps a well-formed ledger well-formed.
pub record LedgerStep (c : Crates) (block_json : Block → String) (s s' : State) : Type 0 where
  pub node_info : s'.node.node_info ≡ s.node.node_info
  pub routing_table : s'.node.routing_table ≡ s.node.routing_table
  pub config : s'.node.config ≡ s.node.config
  pub auctions_lock : s'.node.auctions.poisoned ≡ s.node.auctions.poisoned
  pub ledger_lock : s'.node.ledger.poisoned ≡ s.node.ledger.poisoned
  pub grows : (new : List Block) × (s'.node.ledger.value ≡ s.node.ledger.value ++ new)
  pub keeps : IsLedger c block_json s.node.ledger.value → IsLedger c block_json s'.node.ledger.value
  -- Under proof of reputation with a threshold above zero, an empty ledger stays empty.
  pub stuck :
      from_config s.node.config ≡ proof_of_reputation_mode
      → 0 < s.node.config.reputation_threshold
      → s.node.ledger.value ≡ []
      → s'.node.ledger.value ≡ []

module _ (c : Crates) (block_json : Block → String) where
  pub LedgerStep-same : (s : State) → LedgerStep c block_json s s
  LedgerStep-same s = record {
    node_info = refl;
    routing_table = refl;
    config = refl;
    auctions_lock = refl;
    ledger_lock = refl;
    grows = ([], sym (append-nil s.node.ledger.value));
    keeps = λ h. h;
    stuck = λ por pos empty. empty;
  }

  pub LedgerStep-trans :
      (s t u : State)
      → LedgerStep c block_json s t
      → LedgerStep c block_json t u
      → LedgerStep c block_json s u
  LedgerStep-trans s t u f g = record {
    node_info = g.node_info ∙ f.node_info;
    routing_table = g.routing_table ∙ f.routing_table;
    config = g.config ∙ f.config;
    auctions_lock = g.auctions_lock ∙ f.auctions_lock;
    ledger_lock = g.ledger_lock ∙ f.ledger_lock;
    grows = (
      f.grows.0 ++ g.grows.0,
      g.grows.1
          ∙ ap (λ l. l ++ g.grows.0) f.grows.1
          ∙ append_assoc s.node.ledger.value f.grows.0 g.grows.0,
    );
    keeps = λ h. g.keeps (f.keeps h);
    stuck = λ por pos empty.
        g.stuck (ap from_config f.config ∙ por)
          (subst (λ (config : Config). 0 < config.reputation_threshold) (sym f.config) pos)
          (f.stuck por pos empty);
  }

module _ (auction_codec : Codec Auction) (block_codec : Codec Block) (c : Crates)
    (block_json : Block → String) (clock : ℕ → ℤ) where
  module _ (auction seller winner : Address) (winning_bid : ℕ) (ledger : List Block) where
    abbrev new_one : Block
    new_one =
        win_block auction_codec block_codec c block_json clock auction seller winner winning_bid
          ledger

    wins_itself : any (is_win_of auction) new_one.transactions ≡ true
    unfolding win_block auction_won
    wins_itself = rw (address_eq_refl auction) refl

    win_count-new_one : (a : Address) → win_count a new_one.transactions ≤ 1
    unfolding win_block
    win_count-new_one a = ground arith

    win_count_other :
        (a : Address) → address_eq auction a ≡ false → win_count a new_one.transactions ≡ 0
    unfolding win_block
    win_count_other a e = ground arith

    added-once :
        IsLedger c block_json ledger
        → has_win_block auction ledger ≡ false
        → (a : Address) → wins a (ledger ++ new_one ∷ []) ≤ 1
    added-once h new a = elim (Bool-cases (address_eq auction a)) [
      | inl e ↦
          let same : auction ≡ a = (address_eq_iff auction a).0 e in
          let none_yet : wins a ledger ≡ 0 =
            subst (λ k. wins k ledger ≡ 0) same (wins-has_win_block auction ledger new) in
          omega (arith, wins-append a ledger new_one, win_count-new_one a)
      | inr e ↦ omega (arith, wins-append a ledger new_one, win_count_other a e, h.once a)
    ]

    added-IsLedger :
        IsLedger c block_json ledger
        → has_win_block auction ledger ≡ false
        → IsLedger c block_json (ledger ++ new_one ∷ [])
    unfolding win_block new_block calculate_hash
    added-IsLedger h new = record {
      linked =
          Linked-append c block_json 0 0 ledger new_one h.linked (omega arith) (tip_last ledger)
            refl;
      once = added-once h new;
    }

  -- Recording a win leaves the auctions alone.
  abbrev pub WinStep : State → State → Type 0
  WinStep s s' = LedgerStep c block_json s s' × (s'.node.auctions ≡ s.node.auctions)

  pub WinStep-same : (s : State) → WinStep s s
  WinStep-same s = (LedgerStep-same c block_json s, refl)

  pub WinStep-trans : (s t u : State) → WinStep s t → WinStep t u → WinStep s u
  WinStep-trans s t u (f, e) (g, d) = (LedgerStep-trans c block_json s t u f g, d ∙ e)

  may_not :
      (s : State)
      → from_config s.node.config ≡ proof_of_reputation_mode
      → 0 < s.node.config.reputation_threshold
      → s.node.ledger.value ≡ []
      → not (has_reputation_to_commit s.node.config s.node.ledger.value s.node.node_info.id) ≡ false
      → ⊥
  may_not s por pos empty may =
      let refused : has_reputation_to_commit s.node.config s.node.ledger.value s.node.node_info.id
          ≡ false =
        ap (λ l. has_reputation_to_commit s.node.config l s.node.node_info.id) empty
        ∙ first-proof_of_reputation s.node.config s.node.node_info.id por pos in
      cc (may, ap not refused)

  record_auction_win-WinStep :
      (auction seller winner : Address) (winning_bid : ℕ) (s : State)
      → WinStep s
          (record_auction_win auction_codec block_codec c block_json clock auction seller winner
            winning_bid s).1
  unfolding record_auction_win
  record_auction_win-WinStep auction seller winner winning_bid s =
      let P = λ (r : Result NodeError (Unit {0}) × State). WinStep s r.1 in
      let same = WinStep-same s in
      if_cases P s.node.ledger.poisoned _ _ (λ e. same)
        (λ e.
          if_cases P (has_win_block auction s.node.ledger.value) _ _ (λ e1. same)
            (λ new.
              if_cases P
                (not
                  (has_reputation_to_commit s.node.config s.node.ledger.value s.node.node_info.id))
                _ _ (λ e2. same)
                (λ e3. (
                  record {
                    node_info = refl;
                    routing_table = refl;
                    config = refl;
                    auctions_lock = refl;
                    ledger_lock = refl;
                    grows =
                        (new_one auction seller winner winning_bid s.node.ledger.value ∷ [], refl);
                    keeps = λ h.
                        added-IsLedger auction seller winner winning_bid s.node.ledger.value h new;
                    stuck = λ por pos empty. absurd (may_not s por pos empty e3);
                  },
                  refl,
                ))))

  pub record_result-WinStep :
      (a : Auction) (s : State)
      → WinStep s (record_result auction_codec block_codec c block_json clock a s).1
  unfolding record_result
  record_result-WinStep a s = elim (Option-cases a.winner) [
    | inl e ↦ rw e (WinStep-same s)
    | inr (w, e) ↦ elim (Option-cases a.winning_bid) [
      | inl e1 ↦ rw (e, e1) (WinStep-same s)
      | inr (v, e1) ↦ rw (e, e1) (record_auction_win-WinStep a.key a.seller w v s)
    ]
  ]

  -- With a healthy lock and a node that may commit, the ledger afterwards records the win.
  pub has_win_block-record_auction_win :
      (auction seller winner : Address) (winning_bid : ℕ) (s : State)
      → s.node.ledger.poisoned ≡ false
      → has_reputation_to_commit s.node.config s.node.ledger.value s.node.node_info.id ≡ true
      → has_win_block auction
          (record_auction_win auction_codec block_codec c block_json clock auction seller winner
            winning_bid s).1.node.ledger.value
        ≡ true
  unfolding record_auction_win
  has_win_block-record_auction_win auction seller winner winning_bid s healthy may =
      elim (Bool-cases (has_win_block auction s.node.ledger.value)) [
        | inl there ↦ rw (healthy, there) there
        | inr new ↦
            rw (healthy, new, may)
              (has_win_block-append auction s.node.ledger.value _
                (wins_itself auction seller winner winning_bid s.node.ledger.value))
      ]
