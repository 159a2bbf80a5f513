-- ===== src/Node/Run.antt =====
-- Any run of a node: auctions stored, expired auctions closed and contacts inserted, in any order.
use mathlib.Core.Path.{subst}
use kademlia_blockchain_auct.Prelude.{
  ℕ, ◌<◌, ◌≡◌, refl, ap, sym, ◌∙◌, String, List, [], ◌++◌, append-nil, append_assoc, Option, true,
  inl, inr, Bool-cases, if_true,
}
use kademlia_blockchain_auct.Prelude.Int.{ℤ}
use kademlia_blockchain_auct.Prelude.Sync.{Outcome, done, panic, done-injective}
use kademlia_blockchain_auct.Prelude.Result.{err}
use kademlia_blockchain_auct.Config.{Config}
use kademlia_blockchain_auct.Crates.{Crates, CratesLaws}
use kademlia_blockchain_auct.Address.{IsAddress}
use kademlia_blockchain_auct.Peer.{NodeInfo}
use kademlia_blockchain_auct.Routing.Table.{RoutingTable}
use kademlia_blockchain_auct.Routing.Insert.{IsTable, insert_contact-IsTable}
use kademlia_blockchain_auct.Auction.{Auction}
use kademlia_blockchain_auct.Ledger.{Block, from_config, proof_of_reputation_mode}
use kademlia_blockchain_auct.Ledger.Chain.{IsLedger}
use kademlia_blockchain_auct.Storage.{Codec}
use kademlia_blockchain_auct.Node.{
  Node, State, auctions_lock_failed, store_auction, close_expired_auctions,
  insert_node_to_routing_table,
}
use kademlia_blockchain_auct.Node.Set.{DistinctKeys, replace-DistinctKeys}
use kademlia_blockchain_auct.Node.Ledgers.{LedgerStep, LedgerStep-same}
use kademlia_blockchain_auct.Node.Store.{store_auction_lem}
use kademlia_blockchain_auct.Node.Close.{closer-DistinctKeys, close_expired_auctions_lem}

module _ (auction_codec : Codec Auction) (block_codec : Codec Block) (c : Crates)
    (block_json : Block → String) where
  -- A run from the first state to the second. `clock` and `now` are the times that it reads.
  pub data Run : State → State → Type 0 where
    start : (s : State) → Run s s
    stored :
        (s t : State) (clock : ℕ → ℤ) (a : Auction)
        → Run s t
        → Run s (store_auction auction_codec block_codec c block_json clock a t).1
    closed :
        (s t : State) (clock : ℕ → ℤ) (now : ℤ)
        → Run s t
        → Run s (close_expired_auctions auction_codec block_codec c block_json clock now t).1
    contacted :
        (s t : State) (now : ℤ) (n : NodeInfo) (node : Node)
        → Run s t
        → IsAddress n.id
        → insert_node_to_routing_table c now n t.node ≡ done node
        → Run s (record t { node = node })

  -- A well-formed node: its routing table, its set of auctions and its ledger.
  pub record IsNode (s : State) : Type 0 where
    pub table : IsTable c s.node.routing_table
    pub room : 0 < s.node.routing_table.config.max_kbucket_entries
    pub distinct : DistinctKeys s.node.auctions.value
    pub ledger : IsLedger c block_json s.node.ledger.value

  -- What a run does to the ledger.
  pub record Grown (s s' : State) : Type 0 where
    pub node_info : s'.node.node_info ≡ s.node.node_info
    pub config : s'.node.config ≡ s.node.config
    pub grows : (new : List Block) × (s'.node.ledger.value ≡ s.node.ledger.value ++ new)
    pub stuck :
        from_config s.node.config ≡ proof_of_reputation_mode
        → 0 < s.node.config.reputation_threshold
        → s.node.ledger.value ≡ []
        → s'.node.ledger.value ≡ []

  Grown-of_step : (s s' : State) → LedgerStep c block_json s s' → Grown s s'
  Grown-of_step s s' step = record {
    node_info = step.node_info;
    config = step.config;
    grows = step.grows;
    stuck = step.stuck;
  }

  Grown-trans : (s t u : State) → Grown s t → Grown t u → Grown s u
  Grown-trans s t u f g = record {
    node_info = g.node_info ∙ f.node_info;
    config = g.config ∙ f.config;
    grows = (
      f.grows.0 ++ g.grows.0,
      g.grows.1
          ∙ ap (λ l. l ++ g.grows.0) f.grows.1
          ∙ append_assoc s.node.ledger.value f.grows.0 g.grows.0,
    );
    stuck = λ por pos empty.
        g.stuck (ap from_config f.config ∙ por)
          (subst (λ (config : Config). 0 < config.reputation_threshold) (sym f.config) pos)
          (f.stuck por pos empty);
  }

  abbrev pub Kept : State → State → Type 0
  Kept s s' = IsNode s' × Grown s s'

  -- A step that is right about the ledger and the set keeps the node well-formed.
  IsNode-step :
      (s s' : State)
      → IsNode s
      → LedgerStep c block_json s s'
      → DistinctKeys s'.node.auctions.value
      → IsNode s'
  IsNode-step s s' h step d = record {
    table = subst (IsTable c) (sym step.routing_table) h.table;
    room =
        subst (λ (rt : RoutingTable). 0 < rt.config.max_kbucket_entries) (sym step.routing_table)
          h.room;
    distinct = d;
    ledger = step.keeps h.ledger;
  }

  pub stored-poisoned :
      (s : State) (clock : ℕ → ℤ) (a : Auction)
      → s.node.auctions.poisoned ≡ true
      → store_auction auction_codec block_codec c block_json clock a s
        ≡ (err auctions_lock_failed, s)
  unfolding store_auction
  stored-poisoned s clock a bad = if_true _ _ bad

  pub stored-Kept :
      (s : State) (clock : ℕ → ℤ) (a : Auction)
      → IsNode s
      → Kept s (store_auction auction_codec block_codec c block_json clock a s).1
  stored-Kept s clock a h = elim (Bool-cases s.node.auctions.poisoned) [
    | inl bad ↦
        subst (λ r. Kept s r.1) (sym (stored-poisoned s clock a bad))
          (h, Grown-of_step s s (LedgerStep-same c block_json s))
    | inr healthy ↦
        let (step, set) =
          store_auction_lem auction_codec block_codec c block_json clock a s healthy in
        (
          IsNode-step s _ h step (
              subst DistinctKeys (sym (ap (λ l. l.value) set))
                (replace-DistinctKeys a s.node.auctions.value h.distinct)),
          Grown-of_step s _ step,
        )
  ]

  pub closed-Kept :
      (s : State) (clock : ℕ → ℤ) (now : ℤ)
      → IsNode s
      → Kept s (close_expired_auctions auction_codec block_codec c block_json clock now s).1
  closed-Kept s clock now h =
      let (step, answer) =
        close_expired_auctions_lem auction_codec block_codec c block_json clock now s h.distinct in
      (
        IsNode-step s _ h step (elim answer [
          | inl (same, _) ↦ subst DistinctKeys (sym (ap (λ l. l.value) same)) h.distinct
          | inr (e, _, _) ↦
              subst DistinctKeys (sym e) (closer-DistinctKeys now s.node.auctions.value h.distinct)
        ]),
        Grown-of_step s _ step,
      )

  pub contacted-Kept :
      (laws : CratesLaws c) (s : State) (now : ℤ) (n : NodeInfo) (node : Node)
      → IsNode s
      → IsAddress n.id
      → insert_node_to_routing_table c now n s.node ≡ done node
      → Kept s (record s { node = node })
  unfolding insert_node_to_routing_table
  contacted-Kept laws s now n node h hn e =
      let (rt, r, inserted, table, id, config, poisoned, _) =
        insert_contact-IsTable c laws now s.node.routing_table n h.table hn h.room in
      let same : node ≡ record s.node { routing_table = rt } =
        done-injective node (record s.node { routing_table = rt })
          (sym e ∙ ap (put_table s.node) inserted) in
      rw same (
        record {
          table = table;
          room = subst (λ (k : Config). 0 < k.max_kbucket_entries) (sym config) h.room;
          distinct = h.distinct;
          ledger = h.ledger;
        },
        record {
          node_info = refl;
          config = refl;
          grows = ([], sym (append-nil s.node.ledger.value));
          stuck = λ por pos empty. empty;
        },
      )
    where
      put_table : Node → Outcome (RoutingTable × Option (Unit {0})) → Outcome Node
      put_table node o = elim o [
        | panic ↦ panic
        | done (rt, _) ↦ done (record node { routing_table = rt })
      ]

  Run-Kept : CratesLaws c → (s t : State) → Run s t → IsNode s → Kept s t
  Run-Kept laws _ _ (start s) h = (h, Grown-of_step s s (LedgerStep-same c block_json s))
  Run-Kept laws _ _ (stored s t clock a run) h =
      let (h1, g1) = Run-Kept laws s t run h in
      let (h2, g2) = stored-Kept t clock a h1 in (h2, Grown-trans s t _ g1 g2)
  Run-Kept laws _ _ (closed s t clock now run) h =
      let (h1, g1) = Run-Kept laws s t run h in
      let (h2, g2) = closed-Kept t clock now h1 in (h2, Grown-trans s t _ g1 g2)
  Run-Kept laws _ _ (contacted s t now n node run hn e) h =
      let (h1, g1) = Run-Kept laws s t run h in
      let (h2, g2) = contacted-Kept laws t now n node h1 hn e in (h2, Grown-trans s t _ g1 g2)

  -- From a well-formed node, any run of stored auctions, closings at any time and inserted contacts,
  -- whatever fails on the disk or for a failed lock: the node stays well-formed, that is its buckets
  -- are right and bounded, no two auctions of its set share a key, the blocks of its ledger are
  -- numbered, linked and hashed, and no auction is won twice; its own data and configuration do not
  -- change; and the ledger only grows at its end.
  pub Run-IsNode :
      CratesLaws c
      → (s t : State) → Run s t
      → IsNode s
      → IsNode t
        × (t.node.node_info ≡ s.node.node_info)
        × (t.node.config ≡ s.node.config)
        × ((new : List Block) × (t.node.ledger.value ≡ s.node.ledger.value ++ new))
  Run-IsNode laws s t run h =
      let (ok_now, grown) = Run-Kept laws s t run h in
      (ok_now, grown.node_info, grown.config, grown.grows)

  -- Under proof of reputation with a threshold above zero, a well-formed node whose ledger is empty
  -- keeps it empty in every run: no win is ever recorded.
  pub Run-stuck :
      CratesLaws c
      → (s t : State) → Run s t
      → IsNode s
      → from_config s.node.config ≡ proof_of_reputation_mode
      → 0 < s.node.config.reputation_threshold
      → s.node.ledger.value ≡ []
      → t.node.ledger.value ≡ []
  Run-stuck laws s t run h por pos empty = (Run-Kept laws s t run h).1.stuck por pos empty
