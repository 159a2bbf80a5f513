-- ===== src/Command/Flags.antt =====
-- The flag `--port` may stand anywhere.
use kademlia_blockchain_auct.Prelude.{
  ◌≡◌, refl, sym, ap, ◌∙◌, String, List, [], ◌∷◌, ◌++◌, Bool-cases, inl, inr, false, str_eq,
  if_true, if_false,
}
use kademlia_blockchain_auct.Prelude.Result.{Result, ok, err, ◌>>=◌, Result-cases, ok-injective}
use kademlia_blockchain_auct.Crates.{Crates}
use kademlia_blockchain_auct.Command.{
  CommandError, missing_value_for_port, parse_positional, strip_from, strip_global_flags, parse,
}

strip_from-port :
    (value : String) (rest : List String) → strip_from ("--port" ∷ value ∷ rest) ≡ strip_from rest
unfolding strip_from
strip_from-port value rest = refl

strip_from-plain :
    (arg : String) (m ys : List String)
    → str_eq arg "--port" ≡ false
    → strip_from m ≡ ok ys
    → strip_from (arg ∷ m) ≡ ok (arg ∷ ys)
unfolding strip_from
strip_from-plain arg [] ys plain e =
    if_false _ _ plain ∙ ap (λ zs. ok (arg ∷ zs)) (ok-injective {E = CommandError} [] ys e)
strip_from-plain arg (next ∷ m) ys plain e =
    if_false _ _ plain ∙ ap (λ r. r >>= (λ zs. ok (arg ∷ zs))) e

strip_from-append :
    (l m xs ys : List String)
    → strip_from l ≡ ok xs
    → strip_from m ≡ ok ys
    → strip_from (l ++ m) ≡ ok (xs ++ ys)
unfolding strip_from
strip_from-append [] m xs ys e d =
    d ∙ ap (λ zs. ok (zs ++ ys)) (ok-injective {E = CommandError} [] xs e)
strip_from-append (arg ∷ []) m xs ys e d = elim (Bool-cases (str_eq arg "--port")) [
  | inl port ↦ absurd (clash (sym (if_true _ _ port) ∙ e))
  | inr plain ↦
      strip_from-plain arg m ys plain d
      ∙ ap (λ zs. ok (zs ++ ys))
          (ok-injective {E = CommandError} (arg ∷ []) xs (sym (if_false _ _ plain) ∙ e))
]
  where
    clash : ◌≡◌ {A = Result CommandError (List String)} (err missing_value_for_port) (ok xs) → ⊥
    clash e = cc
strip_from-append (arg ∷ next ∷ l) m xs ys e d = elim (Bool-cases (str_eq arg "--port")) [
  | inl port ↦ if_true _ _ port ∙ strip_from-append l m xs ys (sym (if_true _ _ port) ∙ e) d
  | inr plain ↦ elim (Result-cases (strip_from (next ∷ l))) [
    | inl (zs, fine) ↦
        strip_from-plain arg ((next ∷ l) ++ m) (zs ++ ys) plain
          (strip_from-append (next ∷ l) m zs ys fine d)
        ∙ ap (λ rest. ok (rest ++ ys))
            (ok-injective {E = CommandError} (arg ∷ zs) xs
              (sym (if_false _ _ plain ∙ ap (λ r. r >>= (λ rest. ok (arg ∷ rest))) fine) ∙ e))
    | inr (bad, failed) ↦ absurd (
        no_result bad
          (sym (if_false _ _ plain ∙ ap (λ r. r >>= (λ rest. ok (arg ∷ rest))) failed) ∙ e))
  ]
]
  where
    no_result :
        (bad : CommandError) → ◌≡◌ {A = Result CommandError (List String)} (err bad) (ok xs) → ⊥
    no_result bad e = cc

module _ (c : Crates) (app value : String) (before after xs ys : List String) where
  -- Where the arguments before and after it can be stripped on their own, the flag `--port` with its
  -- value may stand anywhere behind the program's name: the command is the one parsed without it.
  pub parse-port :
      strip_from before ≡ ok xs
      → strip_from after ≡ ok ys
      → parse c (app ∷ before ++ "--port" ∷ value ∷ after) ≡ parse c (app ∷ before ++ after)
  unfolding parse strip_global_flags
  parse-port e d =
      let with_flag =
        strip_from-append before ("--port" ∷ value ∷ after) xs ys e
          (strip_from-port value after ∙ d) in
      let without = strip_from-append before after xs ys e d in
      ap (λ r. r >>= parse_positional c) (with_flag ∙ sym without)
