-- ===== src/Ledger/Chain.antt =====
-- Well-formed ledgers: the blocks are numbered, linked and hashed, and record a win at most once.
use kademlia_blockchain_auct.Prelude.{
  ℕ, suc, ◌+◌, ◌≤◌, ◌≡◌, refl, String, List, [], ◌∷◌, ◌++◌, some, none, true, false, arith, length,
  get_last?, any, if◌then◌else◌,
}
use kademlia_blockchain_auct.Crates.{Crates}
use kademlia_blockchain_auct.Address.{Address}
use kademlia_blockchain_auct.Ledger.{Block, Transaction, calculate_hash, is_win_of, has_win_block}

-- The hash of the last block, or `h` if there is none.
abbrev pub tip : ℕ → List Block → ℕ
tip h [] = h
tip h (b ∷ rest) = tip b.hash rest

pub tip_last :
    (ledger : List Block)
    → elim (get_last? ledger) [ some block ↦ block.hash | none ↦ 0 ] ≡ tip 0 ledger
tip_last [] = refl
tip_last (b ∷ []) = refl
tip_last (b ∷ d ∷ rest) = tip_last (d ∷ rest)

module _ (c : Crates) (block_json : Block → String) where
  -- Blocks numbered from `i`, the first of them behind the hash `h`.
  abbrev pub Linked : ℕ → ℕ → List Block → Type 0
  Linked i h [] = Unit
  Linked i h (b ∷ rest) =
      (b.index ≡ i)
      × (b.previous_hash ≡ h)
      × (b.hash ≡ calculate_hash c block_json b)
      × Linked (suc i) b.hash rest

  pub Linked-append :
      (i h : ℕ) (ledger : List Block) (b : Block)
      → Linked i h ledger
      → b.index ≡ i + length ledger
      → b.previous_hash ≡ tip h ledger
      → b.hash ≡ calculate_hash c block_json b
      → Linked i h (ledger ++ b ∷ [])
  Linked-append i h [] b l index previous hash = (omega arith, previous, hash, tt)
  Linked-append i h (d ∷ rest) b (p, q, r, l) index previous hash =
      (p, q, r, Linked-append (suc i) d.hash rest b l (omega arith) previous hash)

-- How many transactions record that `auction` was won.
abbrev pub win_count : Address → List Transaction → ℕ
win_count auction [] = 0
win_count auction (t ∷ rest) =
    if is_win_of auction t then suc (win_count auction rest) else win_count auction rest

abbrev pub wins : Address → List Block → ℕ
wins auction [] = 0
wins auction (b ∷ rest) = win_count auction b.transactions + wins auction rest

pub wins-append :
    (auction : Address) (ledger : List Block) (b : Block)
    → wins auction (ledger ++ b ∷ []) ≡ wins auction ledger + win_count auction b.transactions
wins-append auction [] b = omega arith
wins-append auction (d ∷ rest) b = omega (arith, wins-append auction rest b)

win_count-any :
    (auction : Address) (ts : List Transaction)
    → any (is_win_of auction) ts ≡ false
    → win_count auction ts ≡ 0
win_count-any auction [] h = refl
win_count-any auction (t ∷ rest) h = ground (arith, win_count-any auction rest)

pub wins-has_win_block :
    (auction : Address) (ledger : List Block)
    → has_win_block auction ledger ≡ false
    → wins auction ledger ≡ 0
unfolding has_win_block
wins-has_win_block auction [] h = refl
wins-has_win_block auction (b ∷ rest) h =
    ground (arith, win_count-any auction b.transactions, wins-has_win_block auction rest)

pub has_win_block-append :
    (auction : Address) (ledger : List Block) (b : Block)
    → any (is_win_of auction) b.transactions ≡ true
    → has_win_block auction (ledger ++ b ∷ []) ≡ true
unfolding has_win_block
has_win_block-append auction [] b h = rw h refl
has_win_block-append auction (d ∷ rest) b h = ground (arith, has_win_block-append auction rest b h)

-- A ledger whose blocks are numbered from 0, each holding the hash of the one before it, or 0, and
-- its own hash, and in which no auction is won twice.
pub record IsLedger (c : Crates) (block_json : Block → String) (ledger : List Block) : Type 0 where
  pub linked : Linked c block_json 0 0 ledger
  pub once : (auction : Address) → wins auction ledger ≤ 1
