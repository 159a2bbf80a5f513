-- ===== src/Ledger.antt =====
-- blockchain/block.rs, blockchain/transaction.rs and consensus.rs: blocks, transactions and who may
-- commit. The JSON text of a block is a parameter.
pub mod Chain
pub mod Reputation
use kademlia_blockchain_auct.Prelude.{
  ℕ, suc, String, List, [], ◌∷◌, Bool, true, false, any, Option, some, none, leb, if◌then◌else◌,
  str_eq,
}
use kademlia_blockchain_auct.Prelude.Int.{ℤ}
use kademlia_blockchain_auct.Crates.{Crates}
use kademlia_blockchain_auct.Config.{Config}
use kademlia_blockchain_auct.Address.{Address, address_eq}
use kademlia_blockchain_auct.Crypto.{hash_data}

pub data TransactionKind : Type 0 where
  transfer_kind : TransactionKind
  auction_won_kind : Address → TransactionKind

pub record Transaction : Type 0 where
  pub sender : Address
  pub recipient : Address
  pub amount : ℕ
  pub kind : TransactionKind

unfoldable pub transfer : Address → Address → ℕ → Transaction
transfer sender recipient amount = record {
  sender = sender;
  recipient = recipient;
  amount = amount;
  kind = transfer_kind;
}

unfoldable pub auction_won : Address → Address → Address → ℕ → Transaction
auction_won auction seller winner winning_bid = record {
  sender = winner;
  recipient = seller;
  amount = winning_bid;
  kind = auction_won_kind auction;
}

pub record Block : Type 0 where
  pub index : ℕ
  pub timestamp : ℤ
  pub nonce : ℕ
  pub previous_hash : ℕ
  pub hash : ℕ
  pub transactions : List Transaction

-- `serde_json::to_string` of a block is `block_json`.
module _ (c : Crates) (block_json : Block → String) where
  unfoldable pub calculate_hash : Block → ℕ
  calculate_hash block =
      let hashable_data = record block { hash = 0 } in hash_data c (block_json hashable_data)

  unfoldable pub new_block : ℤ → ℕ → ℕ → ℕ → List Transaction → Block
  unfolding calculate_hash
  new_block now index nonce previous_hash transactions =
      let block : Block = record {
        index = index;
        timestamp = now;
        nonce = nonce;
        previous_hash = previous_hash;
        hash = 0;
        transactions = transactions;
      } in
      record block { hash = calculate_hash block }

pub data ConsensusMode : Type 0 where
  proof_of_work_mode proof_of_reputation_mode : ConsensusMode

unfoldable pub from_config : Config → ConsensusMode
from_config config =
    if str_eq config.consensus_mode "por"
    then proof_of_reputation_mode
    else if str_eq config.consensus_mode "proof-of-reputation"
    then proof_of_reputation_mode
    else proof_of_work_mode

abbrev pub is_auction_won : TransactionKind → Bool
is_auction_won transfer_kind = false
is_auction_won (auction_won_kind auction) = true

-- `matches!(kind, AuctionWon { auction: won } if won == auction)`
abbrev pub is_win_of : Address → Transaction → Bool
is_win_of auction t = elim t.kind [
  | transfer_kind ↦ false
  | auction_won_kind won ↦ address_eq won auction
]

-- Some block of the ledger records that `auction` was won.
unfoldable pub has_win_block : Address → List Block → Bool
has_win_block auction ledger = any (λ block. any (is_win_of auction) block.transactions) ledger

-- `HashMap<Address, u64>`: each address at most once.
abbrev pub Scores : Type 0
Scores = List (Address × ℕ)

unfoldable pub get_score : Address → Scores → Option ℕ
get_score a [] = none
get_score a ((b, n) ∷ rest) = if address_eq a b then some n else get_score a rest

-- `*scores.entry(a).or_insert(0) += 1`
unfoldable pub add_one : Address → Scores → Scores
add_one a [] = (a, 1) ∷ []
add_one a ((b, n) ∷ rest) = if address_eq a b then (b, suc n) ∷ rest else (b, n) ∷ add_one a rest

unfoldable pub score_transactions : List Transaction → Scores → Scores
unfolding add_one
score_transactions [] scores = scores
score_transactions (t ∷ rest) scores =
    score_transactions rest
      (if is_auction_won t.kind then add_one t.recipient (add_one t.sender scores) else scores)

unfoldable pub score_blocks : List Block → Scores → Scores
unfolding score_transactions
score_blocks [] scores = scores
score_blocks (block ∷ rest) scores =
    score_blocks rest (score_transactions block.transactions scores)

unfoldable pub reputation_scores : List Block → Scores
unfolding score_blocks
reputation_scores ledger = score_blocks ledger []

unfoldable pub has_reputation_to_commit : Config → List Block → Address → Bool
unfolding reputation_scores from_config get_score
has_reputation_to_commit config ledger node_id = elim (from_config config) [
  | proof_of_work_mode ↦ true
  | proof_of_reputation_mode ↦
      leb config.reputation_threshold
        (elim (get_score node_id (reputation_scores ledger)) [ some n ↦ n | none ↦ 0 ])
]
