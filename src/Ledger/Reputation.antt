-- ===== src/Ledger/Reputation.antt =====
-- consensus.rs: what the reputation scores count, and who may commit.
use kademlia_blockchain_auct.Prelude.{
  ℕ, suc, ◌+◌, ◌≤◌, ◌<◌, ◌≡◌, refl, List, [], ◌∷◌, Option, some, none, true, false, arith, leb,
  leb→le, le→leb, ◌≢◌, ◌⊎◌, ◌↔◌, if◌then◌else◌, Bool-cases, if_true, if_false, inl, inr, sym, ap,
  ◌∙◌,
}
use kademlia_blockchain_auct.Config.{Config}
use kademlia_blockchain_auct.Address.{Address, address_eq, address_eq_iff, address_ne}
use kademlia_blockchain_auct.Ledger.{
  Block, Transaction, is_auction_won, Scores, get_score, add_one, score_transactions, score_blocks,
  reputation_scores, has_reputation_to_commit, from_config, proof_of_reputation_mode, ConsensusMode,
  proof_of_work_mode,
}

abbrev or_zero : Option ℕ → ℕ
or_zero o = elim o [ some n ↦ n | none ↦ 0 ]

abbrev pub score_of : Address → Scores → ℕ
score_of a s = or_zero (get_score a s)

-- One if the addresses are the same.
abbrev pub one_if : Address → Address → ℕ
one_if a b = if address_eq a b then 1 else 0

-- How often `a` is the winner or the seller of an auction that the ledger records.
abbrev pub roles : Address → List Transaction → ℕ
roles a [] = 0
roles a (t ∷ rest) =
    (if is_auction_won t.kind then one_if a t.sender + one_if a t.recipient else 0) + roles a rest

abbrev pub all_roles : Address → List Block → ℕ
all_roles a [] = 0
all_roles a (b ∷ rest) = roles a b.transactions + all_roles a rest

score_of-empty : (a : Address) → score_of a [] ≡ 0
unfolding get_score
score_of-empty a = refl

score_of-cons :
    (a d : Address) (n : ℕ) (rest : Scores)
    → score_of a ((d, n) ∷ rest) ≡ (if address_eq a d then n else score_of a rest)
unfolding get_score
score_of-cons a d n rest = elim (Bool-cases (address_eq a d)) [
  | inl e ↦ ap or_zero (if_true (some n) (get_score a rest) e) ∙ sym (if_true _ _ e)
  | inr e ↦ ap or_zero (if_false (some n) (get_score a rest) e) ∙ sym (if_false _ _ e)
]

score_of-add_one :
    (a b : Address) (s : Scores) → score_of a (add_one b s) ≡ score_of a s + one_if a b
unfolding add_one
score_of-add_one a b [] = score_of-cons a b 1 [] ∙ ground (arith, score_of-empty a)
score_of-add_one a b ((d, n) ∷ rest) = elim (Bool-cases (address_eq b d)) [
  | inl e ↦
      let same : address_eq a d ≡ address_eq a b =
        ap (address_eq a) (sym ((address_eq_iff b d).0 e)) in
      ap (score_of a) (if_true _ _ e)
      ∙ ground (arith, score_of-cons a d (suc n) rest, score_of-cons a d n rest, same)
  | inr e ↦
      let apart : address_eq a d ≡ true → address_eq a b ≡ false = λ found.
        address_ne a b
          (λ same. cc (e, (address_eq_iff b d).1 (sym same ∙ (address_eq_iff a d).0 found))) in
      ap (score_of a) (if_false _ _ e)
      ∙ ground (
        arith,
        score_of-cons a d n (add_one b rest),
        score_of-cons a d n rest,
        apart,
        score_of-add_one a b rest,
      )
]

score_of-transactions :
    (a : Address) (ts : List Transaction) (s : Scores)
    → score_of a (score_transactions ts s) ≡ score_of a s + roles a ts
unfolding score_transactions
score_of-transactions a [] s = omega arith
score_of-transactions a (t ∷ rest) s = elim (Bool-cases (is_auction_won t.kind)) [
  | inl e ↦ rw e (
      omega (
        arith,
        score_of-transactions a rest (add_one t.recipient (add_one t.sender s)),
        score_of-add_one a t.recipient (add_one t.sender s),
        score_of-add_one a t.sender s,
      ))
  | inr e ↦ rw e (omega (arith, score_of-transactions a rest s))
]

score_of-blocks :
    (a : Address) (ledger : List Block) (s : Scores)
    → score_of a (score_blocks ledger s) ≡ score_of a s + all_roles a ledger
unfolding score_blocks
score_of-blocks a [] s = omega arith
score_of-blocks a (b ∷ rest) s = omega (
  arith,
  score_of-blocks a rest (score_transactions b.transactions s),
  score_of-transactions a b.transactions s,
)

-- The score of an address is how often it is the winner or the seller of an auction in the ledger.
pub reputation_scores_lem :
    (a : Address) (ledger : List Block) → score_of a (reputation_scores ledger) ≡ all_roles a ledger
unfolding reputation_scores
reputation_scores_lem a ledger = omega (arith, score_of-blocks a ledger [], score_of-empty a)

mode_cases : (m : ConsensusMode) → (m ≡ proof_of_work_mode) ⊎ (m ≡ proof_of_reputation_mode)
mode_cases proof_of_work_mode = inl refl
mode_cases proof_of_reputation_mode = inr refl

mode_clash : proof_of_work_mode ≢ proof_of_reputation_mode
mode_clash e = cc

commit-proof_of_work :
    (config : Config) (ledger : List Block) (a : Address)
    → from_config config ≡ proof_of_work_mode
    → has_reputation_to_commit config ledger a ≡ true
unfolding has_reputation_to_commit
commit-proof_of_work config ledger a e = rw (e, has_reputation_to_commit) refl

commit-proof_of_reputation :
    (config : Config) (ledger : List Block) (a : Address)
    → from_config config ≡ proof_of_reputation_mode
    → has_reputation_to_commit config ledger a
      ≡ leb config.reputation_threshold (all_roles a ledger)
unfolding has_reputation_to_commit
commit-proof_of_reputation config ledger a e =
    rw (e, has_reputation_to_commit, reputation_scores_lem a ledger) refl

-- A node may commit a block exactly when the mode is proof of work, or its roles as winner or seller
-- in the auctions that the ledger records reach the threshold.
pub has_reputation_to_commit_iff :
    (config : Config) (ledger : List Block) (a : Address)
    → (has_reputation_to_commit config ledger a ≡ true) ↔ (
        (from_config config ≡ proof_of_work_mode)
        ⊎ (config.reputation_threshold ≤ all_roles a ledger))
has_reputation_to_commit_iff config ledger a = elim (mode_cases (from_config config)) [
  | inl e ↦ (λ h. inl e, λ h. commit-proof_of_work config ledger a e)
  | inr e ↦ (
    λ h. inr (leb→le _ _ (sym (commit-proof_of_reputation config ledger a e) ∙ h)),
    λ h. elim h [
      | inl pow ↦ absurd (mode_clash (sym pow ∙ e))
      | inr le ↦ commit-proof_of_reputation config ledger a e ∙ le→leb _ _ le
    ],
  )
]

pub first-proof_of_reputation :
    (config : Config) (a : Address)
    → from_config config ≡ proof_of_reputation_mode
    → 0 < config.reputation_threshold
    → has_reputation_to_commit config [] a ≡ false
first-proof_of_reputation config a por pos =
    commit-proof_of_reputation config [] a por ∙ ground arith
