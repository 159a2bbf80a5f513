-- ===== src/Node.antt =====
-- node.rs: a node's auctions and ledger, and the operations on them. A call takes the state of the
-- node and of its disk and gives its result with the state that it leaves, on an error too.
pub mod Set
pub mod Store
pub mod Ledgers
pub mod Close
pub mod Run
pub mod Sound
pub mod Contact
use kademlia_blockchain_auct.Prelude.{
  ℕ, String, List, [], ◌∷◌, ◌++◌, map, Bool, true, false, not, Option, some, none, if◌then◌else◌,
  length, get_last?, any, find?,
}
use kademlia_blockchain_auct.Prelude.Int.{ℤ}
use kademlia_blockchain_auct.Prelude.Sync.{RwLock, new_lock, Outcome, done, panic}
use kademlia_blockchain_auct.Prelude.Result.{Result, ok, err, map_err}
use kademlia_blockchain_auct.Crates.{Crates}
use kademlia_blockchain_auct.Config.{Config}
use kademlia_blockchain_auct.Address.{Address, address_eq}
use kademlia_blockchain_auct.Peer.{NodeInfo, NodeInformation, to_information}
use kademlia_blockchain_auct.Routing.Table.{RoutingTable, new_table, insert_contact, find_node_id}
use kademlia_blockchain_auct.Routing.Closest.{get_k_closest_nodes}
use kademlia_blockchain_auct.Auction.{Auction, close_if_expired}
use kademlia_blockchain_auct.Ledger.{
  Block, new_block, auction_won, has_win_block, has_reputation_to_commit,
}
use kademlia_blockchain_auct.Storage.{
  Disk, StorageError, Codec, load_auctions, save_auctions, load_ledger, save_ledger,
}

pub record Node : Type 0 where
  pub node_info : NodeInfo
  pub routing_table : RoutingTable
  pub config : Config
  pub auctions : RwLock (List Auction)
  pub ledger : RwLock (List Block)

pub data NodeError : Type 0 where
  auctions_lock_failed ledger_lock_failed : NodeError
  storage_failed : StorageError → NodeError

pub record State : Type 0 where
  pub node : Node
  pub disk : Disk

-- `HashSet<Auction>` as a list in its iteration order; two auctions with the same key are equal.
-- `insert` keeps the element that is there.
unfoldable pub insert_auction : Auction → List Auction → List Auction
insert_auction a [] = a ∷ []
insert_auction a (b ∷ rest) = if address_eq a.key b.key then b ∷ rest else b ∷ insert_auction a rest

-- `replace` puts the new element in its place.
unfoldable pub replace_auction : Auction → List Auction → List Auction
replace_auction a [] = a ∷ []
replace_auction a (b ∷ rest) =
    if address_eq a.key b.key then a ∷ rest else b ∷ replace_auction a rest

-- `collect` into a new set, here in the order of the list. The code's set has a new hasher and with it
-- an order of its own.
unfoldable pub collect_auctions : List Auction → List Auction → List Auction
unfolding insert_auction
collect_auctions [] set = set
collect_auctions (a ∷ rest) set = collect_auctions rest (insert_auction a set)

abbrev pub value_or_empty {ℓ κ} : {E : Type κ} {A : Type ℓ} → Result E (List A) → List A
value_or_empty (ok xs) = xs
value_or_empty (err e) = []

-- The lookup of `find_auction` in the set.
unfoldable pub lookup : Address → List Auction → Option Auction
lookup key l = find? (λ auction. address_eq auction.key key) l

unfoldable pub find_auction : Address → Node → Result NodeError (Option Auction)
unfolding lookup
find_auction key node =
    if node.auctions.poisoned then err auctions_lock_failed else ok (lookup key node.auctions.value)

unfoldable pub all_auctions : Node → Result NodeError (List Auction)
all_auctions node =
    if node.auctions.poisoned then err auctions_lock_failed else ok node.auctions.value

module _ (auction_codec : Codec Auction) (block_codec : Codec Block) where
  unfoldable pub new : ℤ → Address → String → ℕ → Config → Disk → Node
  unfolding new_table load_auctions load_ledger collect_auctions
  new now id ip port config disk =
      let node_info : NodeInfo = record { id = id; ip = ip; port = port } in
      record {
        node_info = node_info;
        routing_table = new_table now node_info config;
        config = config;
        auctions = new_lock (
            collect_auctions (value_or_empty (load_auctions auction_codec config.data_dir disk))
              []);
        ledger = new_lock (value_or_empty (load_ledger block_codec config.data_dir disk));
      }

  unfoldable pub persist_auctions_locked : State → Result NodeError (Unit {0}) × State
  unfolding save_auctions
  persist_auctions_locked s =
      let (r, disk) =
        save_auctions auction_codec s.node.config.data_dir s.node.auctions.value s.disk in
      (map_err storage_failed r, record s { disk = disk })

  -- `clock i` is the time when block `i` is made.
  module _ (c : Crates) (block_json : Block → String) (clock : ℕ → ℤ) where
    -- The block that a win would add.
    unfoldable pub win_block : Address → Address → Address → ℕ → List Block → Block
    unfolding new_block auction_won
    win_block auction seller winner winning_bid ledger =
        let previous_hash : ℕ = elim (get_last? ledger) [ some block ↦ block.hash | none ↦ 0 ] in
        new_block c block_json (clock (length ledger)) (length ledger) 0 previous_hash
          (auction_won auction seller winner winning_bid ∷ [])

    unfoldable pub record_auction_win :
        Address → Address → Address → ℕ → State → Result NodeError (Unit {0}) × State
    unfolding win_block save_ledger has_reputation_to_commit has_win_block
    record_auction_win auction seller winner winning_bid s =
        let ledger = s.node.ledger.value in
        if s.node.ledger.poisoned
        then (err ledger_lock_failed, s)
        else if has_win_block auction ledger
        then (ok tt, s)
        else if not (has_reputation_to_commit s.node.config ledger s.node.node_info.id)
        then (ok tt, s)
        else let ledger' = ledger ++ win_block auction seller winner winning_bid ledger ∷ [] in
          let (r, disk) = save_ledger block_codec s.node.config.data_dir ledger' s.disk in
          (
            map_err storage_failed r,
            record {
              node = record s.node { ledger = record s.node.ledger { value = ledger' } };
              disk = disk;
            },
          )

    -- `if let (Some(winner), Some(winning_bid)) = ..`, in `store_auction` and
    -- `close_expired_auctions`.
    unfoldable pub record_result : Auction → State → Result NodeError (Unit {0}) × State
    unfolding record_auction_win
    record_result a s = elim a.winner [
      | none ↦ (ok tt, s)
      | some winner ↦ elim a.winning_bid [
        | none ↦ (ok tt, s)
        | some winning_bid ↦ record_auction_win a.key a.seller winner winning_bid s
      ]
    ]

    abbrev pub put_auctions : List Auction → State → State
    put_auctions l s = record s {
      node = record s.node { auctions = record s.node.auctions { value = l } };
    }

    unfoldable pub store_auction : Auction → State → Result NodeError Bool × State
    unfolding replace_auction persist_auctions_locked record_result
    store_auction a s =
        if s.node.auctions.poisoned
        then (err auctions_lock_failed, s)
        else let s1 = put_auctions (replace_auction a s.node.auctions.value) s in
          let (saved, s2) = persist_auctions_locked s1 in
          elim saved [
            | err e ↦ (err e, s2)
            | ok _ ↦
                let (recorded, s3) = record_result a s2 in
                elim recorded [ err e ↦ (err e, s3) | ok _ ↦ (ok true, s3) ]
          ]

    -- The block that a round of the loop adds.
    unfoldable pub record_if_closed : ℤ → Auction → State → Result NodeError (Unit {0}) × State
    unfolding record_result close_if_expired
    record_if_closed now a s =
        let (a', expired) = close_if_expired now a in
        if expired then record_result a' s else (ok tt, s)

    -- The loop of `close_expired_auctions`: `closed` and `updated`, unless it stops at an error.
    unfoldable pub close_each :
        ℤ → List Auction → State → Result NodeError (List Auction × List Auction) × State
    unfolding record_if_closed close_if_expired
    close_each now [] s = (ok ([], []), s)
    close_each now (a ∷ rest) s =
        let (a', expired) = close_if_expired now a in
        let (recorded, s1) = record_if_closed now a s in
        let (more, s2) = close_each now rest s1 in
        elim recorded [
          | err e ↦ (err e, s1)
          | ok _ ↦ elim more [
            | err e ↦ (err e, s2)
            | ok (closed, updated) ↦
                (ok (if expired then a' ∷ closed else closed, a' ∷ updated), s2)
          ]
        ]

    unfoldable pub close_expired_auctions : ℤ → State → Result NodeError (List Auction) × State
    unfolding close_each persist_auctions_locked collect_auctions
    close_expired_auctions now s =
        if s.node.auctions.poisoned
        then (err auctions_lock_failed, s)
        else let (r, s1) = close_each now s.node.auctions.value s in
          elim r [
            | err e ↦ (err e, s1)
            | ok (closed, updated) ↦
                let (saved, s2) =
                  persist_auctions_locked (put_auctions (collect_auctions updated []) s1) in
                elim saved [ err e ↦ (err e, s2) | ok _ ↦ (ok closed, s2) ]
          ]

module _ (c : Crates) where
  unfoldable pub insert_node_to_routing_table : ℤ → NodeInfo → Node → Outcome Node
  unfolding insert_contact
  insert_node_to_routing_table now node_info node =
      elim (insert_contact c now node.routing_table node_info) [
        | panic ↦ panic
        | done (rt, _) ↦ done (record node { routing_table = rt })
      ]

  unfoldable pub find_node_in_routing_table : Address → Node → Outcome (Option NodeInformation)
  unfolding find_node_id to_information
  find_node_in_routing_table node_id node = elim (find_node_id c node.routing_table node_id) [
    | panic ↦ panic
    | done none ↦ done none
    | done (some found) ↦ done (some (to_information c found))
  ]

  unfoldable pub get_closest_nodes_to_key : Address → Node → Outcome (List NodeInformation)
  unfolding get_k_closest_nodes to_information
  get_closest_nodes_to_key node_id node =
      elim (get_k_closest_nodes c node.routing_table node_id (node.node_info ∷ [])) [
        | panic ↦ panic
        | done closest_nodes ↦ done (map (to_information c) closest_nodes)
      ]
