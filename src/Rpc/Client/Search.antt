-- ===== src/Rpc/Client/Search.antt =====
-- g_rpc/client.rs: `iterative_find_node` ends, whatever the other nodes answer.
use mathlib.Core.Path.{subst}
use kademlia_blockchain_auct.Prelude.{
  ℕ, zero, suc, ◌-◌, ◌≤◌, ◌≡◌, refl, ap, ◌∙◌, false, List, [], ◌∷◌, ◌++◌, All, All-append, any, inl,
  inr, arith, Bool-cases, if_true, if_false, if_cases,
}
use kademlia_blockchain_auct.Prelude.Sync.{done}
use kademlia_blockchain_auct.Prelude.Sort.{sort_by_key, All-sort_by_key}
use kademlia_blockchain_auct.Prelude.Result.{Result, ok, err}
use kademlia_blockchain_auct.Prelude.Exec.{pure, ask, attempt, and_then, ◌>>=◌}
use kademlia_blockchain_auct.Prelude.Exec.Yields.{OnOk}
use kademlia_blockchain_auct.Crates.{CratesLaws}
use kademlia_blockchain_auct.Address.{Address, IsAddress, address_eq, distance}
use kademlia_blockchain_auct.Peer.{NodeInfo}
use kademlia_blockchain_auct.Node.{State}
use kademlia_blockchain_auct.Routing.Closest.Answer.{get_k_closest_nodes_sound}
use kademlia_blockchain_auct.Node.Run.{IsNode}
use kademlia_blockchain_auct.Node.Sound.{Sound-start}
use kademlia_blockchain_auct.Rpc.Message.{Libraries}
use kademlia_blockchain_auct.Rpc.Client.{World, SKademliaClient, ClientError, Client}
use kademlia_blockchain_auct.Rpc.Client.Calls.{find_node}
use kademlia_blockchain_auct.Rpc.Client.Publish.{node_of}
use kademlia_blockchain_auct.Rpc.Client.Find.{add_nodes, visit_each, iterative_find_node}
use kademlia_blockchain_auct.Rpc.Client.Unqueried.{remaining, remaining-lt}
use kademlia_blockchain_auct.Rpc.Client.Safe.{
  Safe, insert_node-done, find_node-Runs, candidates-valid,
}

abbrev pub AllValid : List NodeInfo → Type 0
AllValid l = All (λ (n : NodeInfo). IsAddress n.id) l

module _ (l : Libraries) (laws : CratesLaws l.crates) (s0 : State) {N : Type 0} (w : World N) where
  abbrev pub Added : Client N (List NodeInfo × List NodeInfo) → SKademliaClient N → Type 0
  Added m s =
      (lists : List NodeInfo × List NodeInfo) × (s' : SKademliaClient N) × (m s
        ≡ done (ok lists, s'))
      × Safe l s0 s'
      × AllValid lists.0

  pub add_nodes-Added :
      (node : NodeInfo) (queried : List Address) (new_nodes shortlist found_nodes : List NodeInfo)
      (s : SKademliaClient N)
      → AllValid new_nodes
      → AllValid shortlist
      → Safe l s0 s
      → Added (add_nodes l w node queried new_nodes shortlist found_nodes) s
  unfolding add_nodes ◌>>=◌ node_of
  add_nodes-Added node queried [] shortlist found_nodes s hn hs h =
      ((shortlist, found_nodes), s, refl, h, hs)
  add_nodes-Added node queried (n ∷ rest) shortlist found_nodes s hn hs h =
      let hs' = All-append (λ (m : NodeInfo). IsAddress m.id) shortlist (n ∷ []) hs (hn.0, tt) in
      let skip = add_nodes-Added node queried rest shortlist found_nodes s hn.1 hs h in
      if_cases (λ m. Added m s) (any (address_eq n.id) queried) _ _ (λ seen. skip)
        (λ new.
          if_cases (λ m. Added m s) (address_eq n.id s.state.node.node_info.id) _ _ (λ own. skip)
            (λ other.
              if_cases (λ m. Added m s)
                (any (λ (m : NodeInfo). address_eq m.id node.id) found_nodes) _ _
                (λ known.
                  add_nodes-Added node queried rest (shortlist ++ n ∷ []) found_nodes s hn.1 hs' h)
                (λ unknown.
                  let (s1, e1, h1) = insert_node-done l s0 laws w n s hn.0 h in
                  let (lists, s2, e2, h2, valid) =
                    add_nodes-Added node queried rest (shortlist ++ n ∷ []) (found_nodes ++ n ∷ [])
                      s1 hn.1 hs' h1 in
                  (
                    lists,
                    s2,
                    ap
                          (and_then (λ u.
                            add_nodes l w node queried rest (shortlist ++ n ∷ [])
                              (found_nodes ++ n ∷ [])))
                          e1
                        ∙ e2,
                    h2,
                    valid,
                  ))))

  abbrev Ends : (ℕ → Client N (Unit {0})) → SKademliaClient N → Type 0
  Ends loop s =
      (fuel : ℕ) × (s' : SKademliaClient N) × (loop fuel s ≡ done (ok tt, s')) × Safe l s0 s'

  -- The rest of a round, after the answer of the node.
  abbrev pub after_answer :
      ℕ
      → Address
      → NodeInfo
      → List NodeInfo
      → List Address
      → List NodeInfo
      → Result ClientError (List NodeInfo)
      → Client N (Unit {0})
  after_answer fuel target_id node rest queried found_nodes result = elim result [
    | err e ↦ visit_each l w fuel target_id rest (node.id ∷ queried) found_nodes
    | ok new_nodes ↦ add_nodes l w node (node.id ∷ queried) new_nodes rest found_nodes >>= (λ lists.
        visit_each l w fuel target_id
          (sort_by_key (λ (n : NodeInfo). distance l.crates n.id target_id) lists.0)
          (node.id ∷ queried) lists.1)
  ]

  visit_each-new :
      (fuel : ℕ) (target : Address) (node : NodeInfo) (rest : List NodeInfo)
      (queried : List Address) (found_nodes : List NodeInfo) (s s1 : SKademliaClient N)
      (r : Result ClientError (List NodeInfo))
      → any (address_eq node.id) queried ≡ false
      → find_node l w.network node.ip node.port target s ≡ done (r, s1)
      → visit_each l w (suc fuel) target (node ∷ rest) queried found_nodes s
        ≡ after_answer fuel target node rest queried found_nodes r s1
  unfolding visit_each ◌>>=◌ attempt
  visit_each-new fuel target node rest queried found_nodes s s1 r new e =
      ap (λ (m : Client N (Unit {0})). m s) (if_false _ _ new) ∙ rw (e, ◌>>=◌, attempt) refl

  -- The search ends whenever at most `n` addresses have not been queried.
  abbrev EndsBelow : ℕ → Address → Type 0
  EndsBelow n target =
      (shortlist : List NodeInfo) (queried : List Address) (found_nodes : List NodeInfo)
      (s : SKademliaClient N)
      → remaining l.crates laws queried ≤ n
      → AllValid shortlist
      → All IsAddress queried
      → Safe l s0 s
      → Ends (λ fuel. visit_each l w fuel target shortlist queried found_nodes) s

  after_answer-Ends :
      (n : ℕ) (target : Address) (node : NodeInfo) (rest : List NodeInfo) (queried : List Address)
      (found_nodes : List NodeInfo) (s : SKademliaClient N) (r : Result ClientError (List NodeInfo))
      → EndsBelow n target
      → remaining l.crates laws (node.id ∷ queried) ≤ n
      → AllValid (node ∷ rest)
      → All IsAddress queried
      → Safe l s0 s
      → OnOk AllValid r
      → Ends (λ fuel. after_answer fuel target node rest queried found_nodes r) s
  unfolding ◌>>=◌
  after_answer-Ends n target node rest queried found_nodes s (err e) recur few hs hq h valid =
      recur rest (node.id ∷ queried) found_nodes s few hs.1 (hs.0, hq) h
  after_answer-Ends n target node rest queried found_nodes s (ok nodes) recur few hs hq h valid =
      let (lists, s2, e2, h2, shortlist) =
        add_nodes-Added node (node.id ∷ queried) nodes rest found_nodes s valid hs.1 h in
      let near : NodeInfo → ℕ = λ m. distance l.crates m.id target in
      let (fuel, s', e, h') =
        recur (sort_by_key near lists.0) (node.id ∷ queried) lists.1 s2 few
          (All-sort_by_key near (λ (m : NodeInfo). IsAddress m.id) lists.0 shortlist) (hs.0, hq)
          h2 in
      (
        fuel,
        s',
        ap
              (and_then (λ (lists : List NodeInfo × List NodeInfo).
                visit_each l w fuel target (sort_by_key near lists.0) (node.id ∷ queried) lists.1))
              e2
            ∙ e,
        h',
      )

  visit_each-step :
      (n : ℕ) (target : Address) → ((m : ℕ) → suc m ≡ n → EndsBelow m target) → EndsBelow n target
  unfolding visit_each pure
  visit_each-step n target recur [] queried found_nodes s few hs hq h = (1, s, refl, h)
  visit_each-step n target recur (node ∷ rest) queried found_nodes s few hs hq h =
      elim (Bool-cases (any (address_eq node.id) queried)) [
        | inl seen ↦
            let (fuel, s', e, h') =
              visit_each-step n target recur rest queried found_nodes s few hs.1 hq h in
            (suc fuel, s', ap (λ (m : Client N (Unit {0})). m s) (if_true _ _ seen) ∙ e, h')
        | inr new ↦
            let less = remaining-lt l.crates laws node.id queried hs.0 hq new in
            let (r, s1, e1, h1, valid) =
              (find_node-Runs l s0 w node.ip node.port laws target).runs s h in
            let (fuel, s', e, h') =
              after_answer-Ends (n - 1) target node rest queried found_nodes s1 r
                (recur (n - 1) (omega arith)) (omega arith) hs hq h1 valid in
            (
              suc fuel,
              s',
              visit_each-new fuel target node rest queried found_nodes s s1 r new e1 ∙ e,
              h',
            )
      ]

  visit_each-Ends : (n : ℕ) (target : Address) → EndsBelow n target
  visit_each-Ends zero target = visit_each-step zero target (λ m e. absurd (omega arith))
  visit_each-Ends (suc n) target =
      visit_each-step (suc n) target
        (λ m e. subst (λ k. EndsBelow k target) (omega arith) (visit_each-Ends n target))

-- From a well-formed node behind a healthy lock of its routing table, for any valid target and whatever
-- the network answers, fails to answer or makes up: the search for nodes ends without a panic and
-- without an error, within some number of rounds, and leaves a node that a run of insertions has
-- led to, with its routing table well-formed.
pub iterative_find_node-Ends :
    (l : Libraries) (laws : CratesLaws l.crates) {N : Type 0} (w : World N) (target : Address)
    (s : SKademliaClient N)
    → IsNode l.auction_codec l.block_codec l.crates l.block_json s.state
    → s.state.node.routing_table.table.poisoned ≡ false
    → IsAddress target
    → (fuel : ℕ) × (s' : SKademliaClient N) × (iterative_find_node l w fuel target s
        ≡ done (ok tt, s'))
      × IsNode l.auction_codec l.block_codec l.crates l.block_json s'.state
unfolding iterative_find_node ◌>>=◌ ask
iterative_find_node-Ends l laws w target s h healthy ht =
    let sound = Sound-start _ _ _ _ s.state h healthy in
    let (out, e, _, _, from, _) =
      get_k_closest_nodes_sound l.crates laws s.state.node.routing_table h.table healthy target ht
        [] in
    let (fuel, s', e', h') =
      visit_each-Ends l laws s.state w (remaining l.crates laws []) target out [] [] s (omega arith)
        (candidates-valid l laws s.state.node.routing_table h.table out from) tt sound in
    (fuel, s', rw (e, iterative_find_node, ◌>>=◌, ask) e', h'.node)
