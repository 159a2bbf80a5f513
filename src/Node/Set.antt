-- ===== src/Node/Set.antt =====
-- The set of auctions, looked up by key.
use mathlib.Core.Path.{subst}
use kademlia_blockchain_auct.Prelude.{
  ◌≡◌, ◌≢◌, false, refl, ap, sym, ◌∙◌, List, [], ◌∷◌, ◌++◌, some, Bool-cases, inl, inr, All,
  append-nil, All-append, append_assoc,
}
use kademlia_blockchain_auct.Address.{
  Address, address_eq, address_eq_iff, address_eq_refl, address_ne,
}
use kademlia_blockchain_auct.Auction.{Auction}
use kademlia_blockchain_auct.Node.{insert_auction, replace_auction, collect_auctions, lookup}

pub lookup-replace_self :
    (a : Auction) (l : List Auction) → lookup a.key (replace_auction a l) ≡ some a
unfolding lookup replace_auction
lookup-replace_self a [] = rw (address_eq_refl a.key) refl
lookup-replace_self a (b ∷ l) = elim (Bool-cases (address_eq a.key b.key)) [
  | inl e ↦ rw (e, address_eq_refl a.key) refl
  | inr e ↦
      let other : address_eq b.key a.key ≡ false =
        address_ne b.key a.key (λ same. cc (e, (address_eq_iff a.key b.key).1 (sym same))) in
      rw (e, other) (lookup-replace_self a l)
]

pub lookup-replace_ne :
    (a : Auction) (key : Address) (l : List Auction)
    → key ≢ a.key
    → lookup key (replace_auction a l) ≡ lookup key l
unfolding lookup replace_auction
lookup-replace_ne a key [] ne = rw (address_ne a.key key (λ e. ne (sym e))) refl
lookup-replace_ne a key (b ∷ l) ne = elim (Bool-cases (address_eq a.key b.key)) [
  | inl e ↦
      let not_a = address_ne a.key key (λ same. ne (sym same)) in
      let not_b : address_eq b.key key ≡ false =
        subst (λ k. address_eq k key ≡ false) ((address_eq_iff a.key b.key).0 e) not_a in
      rw (e, not_a, not_b) refl
  | inr e ↦ elim (Bool-cases (address_eq b.key key)) [
    | inl found ↦ rw (e, found) refl
    | inr other ↦ rw (e, other) (lookup-replace_ne a key l ne)
  ]
]

-- No auction of the list has the key.
abbrev pub Fresh : Address → List Auction → Type 0
Fresh key l = All (λ b. b.key ≢ key) l

abbrev pub DistinctKeys : List Auction → Type 0
DistinctKeys [] = Unit
DistinctKeys (a ∷ l) = Fresh a.key l × DistinctKeys l

Fresh-replace :
    (a : Auction) (key : Address) (l : List Auction)
    → a.key ≢ key
    → Fresh key l
    → Fresh key (replace_auction a l)
unfolding replace_auction
Fresh-replace a key [] ne h = (ne, tt)
Fresh-replace a key (b ∷ l) ne h = elim (Bool-cases (address_eq a.key b.key)) [
  | inl e ↦ rw e (ne, h.1)
  | inr e ↦ rw e (h.0, Fresh-replace a key l ne h.1)
]

-- `replace` keeps one auction for each key.
pub replace-DistinctKeys :
    (a : Auction) (l : List Auction) → DistinctKeys l → DistinctKeys (replace_auction a l)
unfolding replace_auction
replace-DistinctKeys a [] h = (tt, tt)
replace-DistinctKeys a (b ∷ l) h = elim (Bool-cases (address_eq a.key b.key)) [
  | inl e ↦
      let same = (address_eq_iff a.key b.key).0 e in
      rw e (subst (λ k. Fresh k l) (sym same) h.0, h.1)
  | inr e ↦
      let ne : a.key ≢ b.key = λ same. cc (e, (address_eq_iff a.key b.key).1 same) in
      rw e (Fresh-replace a b.key l ne h.0, replace-DistinctKeys a l h.1)
]

insert-Fresh : (a : Auction) (l : List Auction) → Fresh a.key l → insert_auction a l ≡ l ++ a ∷ []
unfolding insert_auction
insert-Fresh a [] h = refl
insert-Fresh a (b ∷ l) h =
    rw (address_ne a.key b.key (λ e. h.0 (sym e))) (ap (◌∷◌ b) (insert-Fresh a l h.1))

-- Auctions with different keys are collected as they are.
pub collect_distinct :
    (l set : List Auction)
    → DistinctKeys l
    → All (λ a. Fresh a.key set) l
    → collect_auctions l set ≡ set ++ l
unfolding collect_auctions
collect_distinct [] set h fresh = sym (append-nil set)
collect_distinct (a ∷ l) set h fresh =
    rw (insert-Fresh a set fresh.0)
      (collect_distinct l (set ++ a ∷ []) h.1 (apart l h.0 fresh.1) ∙ append_assoc set (a ∷ []) l)
  where
    apart :
        (rest : List Auction)
        → Fresh a.key rest
        → All (λ b. Fresh b.key set) rest
        → All (λ b. Fresh b.key (set ++ a ∷ [])) rest
    apart [] f g = tt
    apart (b ∷ rest) f g = (
      All-append (λ d. d.key ≢ b.key) set (a ∷ []) g.0 (λ e. f.0 (sym e), tt),
      apart rest f.1 g.1,
    )

Fresh-insert :
    (a : Auction) (key : Address) (l : List Auction)
    → a.key ≢ key
    → Fresh key l
    → Fresh key (insert_auction a l)
unfolding insert_auction
Fresh-insert a key [] ne h = (ne, tt)
Fresh-insert a key (b ∷ l) ne h = elim (Bool-cases (address_eq a.key b.key)) [
  | inl e ↦ rw e h
  | inr e ↦ rw e (h.0, Fresh-insert a key l ne h.1)
]

insert-DistinctKeys :
    (a : Auction) (l : List Auction) → DistinctKeys l → DistinctKeys (insert_auction a l)
unfolding insert_auction
insert-DistinctKeys a [] h = (tt, tt)
insert-DistinctKeys a (b ∷ l) h = elim (Bool-cases (address_eq a.key b.key)) [
  | inl e ↦ rw e h
  | inr e ↦
      let ne : a.key ≢ b.key = λ same. cc (e, (address_eq_iff a.key b.key).1 same) in
      rw e (Fresh-insert a b.key l ne h.0, insert-DistinctKeys a l h.1)
]

-- Whatever is collected, the set has one auction for each key.
pub collect-DistinctKeys :
    (l set : List Auction) → DistinctKeys set → DistinctKeys (collect_auctions l set)
unfolding collect_auctions
collect-DistinctKeys [] set h = h
collect-DistinctKeys (a ∷ l) set h =
    collect-DistinctKeys l (insert_auction a set) (insert-DistinctKeys a set h)
