-- ===== src/Node/Contact.antt =====
-- node.rs: a contact that is inserted is found.
use kademlia_blockchain_auct.Prelude.{◌<◌, ◌≡◌, ◌≢◌, refl, ap, ◌∙◌, Option, some, false, inl, inr}
use kademlia_blockchain_auct.Prelude.Int.{ℤ}
use kademlia_blockchain_auct.Prelude.Sync.{done}
use kademlia_blockchain_auct.Crates.{Crates, CratesLaws}
use kademlia_blockchain_auct.Address.{IsAddress}
use kademlia_blockchain_auct.Peer.{NodeInfo, to_information}
use kademlia_blockchain_auct.Routing.Table.{RoutingTable, insert_contact, find_node_id}
use kademlia_blockchain_auct.Routing.Insert.{IsTable, insert_contact-IsTable}
use kademlia_blockchain_auct.Routing.Find.{find-insert_contact}
use kademlia_blockchain_auct.Node.{Node, insert_node_to_routing_table, find_node_in_routing_table}

module _ (c : Crates) (laws : CratesLaws c) (now : ℤ) (rt : RoutingTable) (n : NodeInfo)
    (table : IsTable c rt) (hn : IsAddress n.id) (room : 0 < rt.config.max_kbucket_entries)
    (healthy : rt.table.poisoned ≡ false) (ne : n.id ≢ rt.id) where
  insert_contact-found :
      (rt' : RoutingTable) × (insert_contact c now rt n ≡ done (rt', some tt))
      × (find_node_id c rt' n.id ≡ done (some n))
  insert_contact-found =
      let (rt', r, inserted, _, _, _, _, outcome) =
        insert_contact-IsTable c laws now rt n table hn room in
      elim outcome [
        | inl is_in ↦
            let e : insert_contact c now rt n ≡ done (rt', some tt) =
              inserted ∙ ap (λ (x : Option (Unit {0})). done (rt', x)) is_in in
            (rt', e, found rt' e)
        | inr (_, _, inl own) ↦ absurd (ne own)
        | inr (_, _, inr failed) ↦ absurd cc
      ]
    where
      found :
          (rt' : RoutingTable)
          → insert_contact c now rt n ≡ done (rt', some tt)
          → find_node_id c rt' n.id ≡ done (some n)
      found rt' e = elim (find-insert_contact c laws rt table now n hn rt' n.id hn e) [
        | inl (_, f) ↦ f
        | inr (inl (differ, _, _)) ↦ absurd (differ refl)
        | inr (inr (differ, _, _)) ↦ absurd (differ refl)
      ]

-- The contact is found under its id, with its address and port.
pub find_node-insert_node :
    (c : Crates) (laws : CratesLaws c) (now : ℤ) (node : Node) (n : NodeInfo)
    → IsTable c node.routing_table
    → IsAddress n.id
    → 0 < node.routing_table.config.max_kbucket_entries
    → node.routing_table.table.poisoned ≡ false
    → n.id ≢ node.routing_table.id
    → (node' : Node) × (insert_node_to_routing_table c now n node ≡ done node')
      × (find_node_in_routing_table c n.id node' ≡ done (some (to_information c n)))
unfolding insert_node_to_routing_table find_node_in_routing_table
find_node-insert_node c laws now node n table hn room healthy ne =
    let (rt', e, f) =
      insert_contact-found c laws now node.routing_table n table hn room healthy ne in
    (
      record node { routing_table = rt' },
      rw (e, insert_node_to_routing_table) refl,
      rw (f, find_node_in_routing_table) refl,
    )
