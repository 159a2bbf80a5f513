-- ===== src/Node/Sound.antt =====
-- The operations of a node as steps of a run: none of them panics on a well-formed routing table behind
-- a healthy lock, and each leaves such a node.
use kademlia_blockchain_auct.Prelude.{
  ℕ, ◌≤◌, ◌≡◌, refl, ap, ◌∙◌, false, String, List, [], ◌∷◌, Option, none, some, length, map, inl,
  inr, Bool-cases, Option-cases, length-map,
}
use kademlia_blockchain_auct.Prelude.Int.{ℤ}
use kademlia_blockchain_auct.Prelude.Sync.{done}
use kademlia_blockchain_auct.Crates.{Crates, CratesLaws}
use kademlia_blockchain_auct.Address.{Address, IsAddress, address_eq, address_eq_iff}
use kademlia_blockchain_auct.Peer.{NodeInfo, NodeInformation, to_information}
use kademlia_blockchain_auct.Routing.Insert.{insert_contact-IsTable}
use kademlia_blockchain_auct.Routing.Find.{bucket_of, find_in_bucket, find_own}
use kademlia_blockchain_auct.Routing.Table.{find_node_id}
use kademlia_blockchain_auct.Routing.FindId.{find_id}
use kademlia_blockchain_auct.Routing.Closest.Answer.{get_k_closest_nodes_sound}
use kademlia_blockchain_auct.Auction.{Auction}
use kademlia_blockchain_auct.Ledger.{Block}
use kademlia_blockchain_auct.Storage.{Codec}
use kademlia_blockchain_auct.Node.{
  Node, State, store_auction, close_expired_auctions, insert_node_to_routing_table,
  find_node_in_routing_table, get_closest_nodes_to_key,
}
use kademlia_blockchain_auct.Node.Store.{store_auction_lem}
use kademlia_blockchain_auct.Node.Close.{close_expired_auctions_lem}
use kademlia_blockchain_auct.Node.Run.{
  Run, start, stored, closed, contacted, IsNode, stored-poisoned, stored-Kept, closed-Kept,
  contacted-Kept,
}

module _ (auction_codec : Codec Auction) (block_codec : Codec Block) (c : Crates)
    (block_json : Block → String) where
  -- A node that a run from `s0` has led to, well-formed and with a healthy routing table.
  pub record Sound (s0 s : State) : Type 0 where
    pub run : Run auction_codec block_codec c block_json s0 s
    pub node : IsNode auction_codec block_codec c block_json s
    pub healthy : s.node.routing_table.table.poisoned ≡ false

  pub Sound-start :
      (s : State)
      → IsNode auction_codec block_codec c block_json s
      → s.node.routing_table.table.poisoned ≡ false
      → Sound s s
  Sound-start s h healthy = record { run = start s; node = h; healthy = healthy }

  routing_table-store_auction :
      (clock : ℕ → ℤ) (a : Auction) (s : State)
      → (store_auction auction_codec block_codec c block_json clock a s).1.node.routing_table
        ≡ s.node.routing_table
  routing_table-store_auction clock a s = elim (Bool-cases s.node.auctions.poisoned) [
    | inl bad ↦
        ap (λ r. r.1.node.routing_table)
          (stored-poisoned auction_codec block_codec c block_json s clock a bad)
    | inr fine ↦
        (store_auction_lem auction_codec block_codec c block_json clock a s fine).0.routing_table
  ]

  module _ (s0 s : State) (h : Sound s0 s) where
    pub store_auction-Sound :
        (clock : ℕ → ℤ) (a : Auction)
        → Sound s0 (store_auction auction_codec block_codec c block_json clock a s).1
    store_auction-Sound clock a = record {
      run = stored s0 s clock a h.run;
      node = (stored-Kept auction_codec block_codec c block_json s clock a h.node).0;
      healthy = ap (λ rt. rt.table.poisoned) (routing_table-store_auction clock a s) ∙ h.healthy;
    }

    pub close_expired_auctions-Sound :
        (clock : ℕ → ℤ) (now : ℤ)
        → Sound s0 (close_expired_auctions auction_codec block_codec c block_json clock now s).1
    close_expired_auctions-Sound clock now =
        let step =
          (close_expired_auctions_lem auction_codec block_codec c block_json clock now s
            h.node.distinct).0 in
        record {
          run = closed s0 s clock now h.run;
          node = (closed-Kept auction_codec block_codec c block_json s clock now h.node).0;
          healthy = ap (λ rt. rt.table.poisoned) step.routing_table ∙ h.healthy;
        }

    module _ (laws : CratesLaws c) where
      pub insert_node-Sound :
          (now : ℤ) (n : NodeInfo)
          → IsAddress n.id
          → (node : Node) × (insert_node_to_routing_table c now n s.node ≡ done node)
            × Sound s0 (record s { node = node })
      unfolding insert_node_to_routing_table
      insert_node-Sound now n hn =
          let (rt, r, inserted, table, id, config, poisoned, _) =
            insert_contact-IsTable c laws now s.node.routing_table n h.node.table hn h.node.room in
          let e : insert_node_to_routing_table c now n s.node
              ≡ done (record s.node { routing_table = rt }) =
            rw (inserted, insert_node_to_routing_table) refl in
          (
            record s.node { routing_table = rt },
            e,
            record {
              run = contacted s0 s now n (record s.node { routing_table = rt }) h.run hn e;
              node =
                  let kept =
                    contacted-Kept auction_codec block_codec c block_json laws s now n _ h.node hn
                      e in
                  kept.0;
              healthy = poisoned ∙ h.healthy;
            },
          )

      pub closest_nodes-done :
          (key : Address)
          → IsAddress key
          → (nodes : List NodeInformation) × (get_closest_nodes_to_key c key s.node ≡ done nodes)
            × (length nodes ≤ s.node.routing_table.config.k_value)
      unfolding get_closest_nodes_to_key
      closest_nodes-done key hk =
          let (out, e, bound, _, _, _) =
            get_k_closest_nodes_sound c laws s.node.routing_table h.node.table h.healthy key hk
              (s.node.node_info ∷ []) in
          (
            map (to_information c) out,
            rw (e, get_closest_nodes_to_key) refl,
            rw (length-map (to_information c) out) bound,
          )

      pub find_node-done :
          (id : Address)
          → IsAddress id
          → (found : Option NodeInformation) × (find_node_in_routing_table c id s.node ≡ done found)
      unfolding find_node_in_routing_table
      find_node-done id hid = elim (Bool-cases (address_eq id s.node.routing_table.id)) [
        | inl own ↦
            let same = (address_eq_iff id s.node.routing_table.id).0 own in
            (
              none,
              rw
                  (
                    ap (find_node_id c s.node.routing_table) same
                        ∙ find_own c s.node.routing_table h.healthy,
                    find_node_in_routing_table,
                  )
                  refl,
            )
        | inr other ↦
            let (i, b, at, found, _) =
              bucket_of c laws s.node.routing_table h.node.table id hid
                (λ e. cc (other, (address_eq_iff id s.node.routing_table.id).1 e)) in
            let e =
              find_in_bucket c s.node.routing_table h.healthy id i b
                (λ e. cc (other, (address_eq_iff id s.node.routing_table.id).1 e)) at found in
            elim (Option-cases (find_id id b.list)) [
              | inl missing ↦ (none, rw (e ∙ ap done missing, find_node_in_routing_table) refl)
              | inr (n, there) ↦ (
                some (to_information c n),
                rw (e ∙ ap done there, find_node_in_routing_table) refl,
              )
            ]
      ]
