-- ===== src/Rpc/Client/Discover.antt =====
-- g_rpc/client.rs: `iterative_find_node` with any fuel.
use kademlia_blockchain_auct.Prelude.{ℕ, zero, suc, List, [], ◌∷◌, any}
use kademlia_blockchain_auct.Prelude.Sort.{sort_by_key, All-sort_by_key}
use kademlia_blockchain_auct.Prelude.Result.{Result, ok, err}
use kademlia_blockchain_auct.Prelude.Exec.Yields.{
  OnOk, Yields, Yields-pure, Yields-ask, Yields-attempt, Yields-if, Yields-bind,
}
use kademlia_blockchain_auct.Crates.{CratesLaws}
use kademlia_blockchain_auct.Address.{Address, IsAddress, address_eq, distance}
use kademlia_blockchain_auct.Peer.{NodeInfo}
use kademlia_blockchain_auct.Node.{State}
use kademlia_blockchain_auct.Rpc.Message.{Libraries}
use kademlia_blockchain_auct.Rpc.Client.{World, ClientError}
use kademlia_blockchain_auct.Rpc.Client.Find.{add_nodes, visit_each, iterative_find_node}
use kademlia_blockchain_auct.Rpc.Client.Safe.{Safe, Runs, lift-Runs, find_node-Runs}
use kademlia_blockchain_auct.Rpc.Client.Search.{add_nodes-Added}
use kademlia_blockchain_auct.Rpc.Client.Safe.{candidates-valid}
use kademlia_blockchain_auct.Routing.Closest.Answer.{get_k_closest_nodes_sound}
use kademlia_blockchain_auct.Rpc.Client.Search.{AllValid, after_answer}

module _ (l : Libraries) (laws : CratesLaws l.crates) (s0 : State) {N : Type 0} (w : World N) where
  add_nodes-Yields :
      (node : NodeInfo) (queried : List Address) (new_nodes shortlist found_nodes : List NodeInfo)
      → AllValid new_nodes
      → AllValid shortlist
      → Yields
          (Safe l s0 {N = N})
          (λ r. AllValid r.0)
          (add_nodes l w node queried new_nodes shortlist found_nodes)
  add_nodes-Yields node queried new_nodes shortlist found_nodes hn hs = record {
    runs = λ s h.
        let (lists, s', e, h', valid) =
          add_nodes-Added l laws s0 w node queried new_nodes shortlist found_nodes s hn hs h in
        (ok lists, s', e, h', valid);
  }

  visit_each-Runs :
      (fuel : ℕ) (target : Address) (shortlist : List NodeInfo) (queried : List Address)
      (found_nodes : List NodeInfo)
      → AllValid shortlist
      → Runs l s0 (visit_each l w fuel target shortlist queried found_nodes)
  unfolding visit_each
  visit_each-Runs zero target shortlist queried found_nodes hs = lift-Runs l s0 _
  visit_each-Runs (suc fuel) target [] queried found_nodes hs = Yields-pure tt tt
  visit_each-Runs (suc fuel) target (node ∷ rest) queried found_nodes hs =
      let queried' = node.id ∷ queried in
      Yields-if (any (address_eq node.id) queried) _ _
        (visit_each-Runs fuel target rest queried found_nodes hs.1)
        (Yields-bind _ _ (Yields-attempt _ (find_node-Runs l s0 w node.ip node.port laws target)) (
          answered
            (λ lists valid.
              visit_each-Runs fuel target
                (sort_by_key (λ (n : NodeInfo). distance l.crates n.id target) lists.0) queried'
                lists.1 (All-sort_by_key _ (λ (n : NodeInfo). IsAddress n.id) lists.0 valid))
            (visit_each-Runs fuel target rest queried' found_nodes hs.1)))
    where
      answered :
          ((lists : List NodeInfo × List NodeInfo)
            → AllValid lists.0
            → Runs l s0 {N = N} (
                visit_each l w fuel target
                  (sort_by_key (λ (n : NodeInfo). distance l.crates n.id target) lists.0)
                  (node.id ∷ queried)
                  lists.1))
          → Runs l s0 (visit_each l w fuel target rest (node.id ∷ queried) found_nodes)
          → (result : Result ClientError (List NodeInfo)) → OnOk AllValid result
          → Runs l s0 (after_answer l laws s0 w fuel target node rest queried found_nodes result)
      answered go_on skip (err e) valid = skip
      answered go_on skip (ok nodes) valid =
          Yields-bind _ _
            (add_nodes-Yields node (node.id ∷ queried) nodes rest found_nodes valid hs.1) go_on

  pub iterative_find_node-Runs :
      (fuel : ℕ) (target : Address)
      → IsAddress target
      → Runs l s0 (iterative_find_node l w fuel target)
  unfolding iterative_find_node
  iterative_find_node-Runs fuel target ht =
      Yields-bind {Q = AllValid} _ _
        (Yields-ask _ (λ s h.
          let (out, e, _, _, from, _) =
            get_k_closest_nodes_sound l.crates laws s.state.node.routing_table h.node.table
              h.healthy target ht [] in
          (out, e, candidates-valid l laws s.state.node.routing_table h.node.table out from)))
        (λ closest_nodes valid. visit_each-Runs fuel target closest_nodes [] [] valid)
