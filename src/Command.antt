-- ===== src/Command.antt =====
-- command.rs: the command line.
pub mod Flags
use kademlia_blockchain_auct.Prelude.{
  ℕ, String, List, [], ◌∷◌, drop, Bool, true, false, Option, some, none, str_eq, parse_u64,
  if◌then◌else◌,
}
use kademlia_blockchain_auct.Prelude.Result.{Result, ok, err, map_err, ok_or, ◌>>=◌}
use kademlia_blockchain_auct.Crates.{Crates}
use kademlia_blockchain_auct.Address.{Address, AddressError, from_str}

pub data Command : Type 0 where
  serve : Command
  create_auction : String → ℕ → Command
  find_auction : Address → Command
  bid : Address → ℕ → Command

pub data CommandError : Type 0 where
  missing_value_for_port invalid_initial_value invalid_auction_key invalid_amount usage :
      CommandError

-- The loop of `strip_global_flags` over the arguments that are left.
unfoldable pub strip_from : List String → Result CommandError (List String)
strip_from [] = ok []
strip_from (arg ∷ []) = if str_eq arg "--port" then err missing_value_for_port else ok (arg ∷ [])
strip_from (arg ∷ next ∷ rest) =
    let skipped = strip_from rest in
    let kept = strip_from (next ∷ rest) in
    if str_eq arg "--port" then skipped else do result ← kept; ok (arg ∷ result)

-- The loop starts behind the name of the program.
unfoldable pub strip_global_flags : List String → Result CommandError (List String)
unfolding strip_from
strip_global_flags args = strip_from (drop 1 args)

module _ (c : Crates) where
  unfoldable pub parse_positional : List String → Result CommandError Command
  parse_positional [] = ok serve
  parse_positional (command ∷ []) = err usage
  parse_positional (command ∷ x ∷ []) =
      if str_eq command "find-auction"
      then map_err (λ e. invalid_auction_key) (from_str c x) >>= (λ key. ok (find_auction key))
      else err usage
  parse_positional (command ∷ x ∷ y ∷ []) =
      if str_eq command "create-auction"
      then ok_or invalid_initial_value (parse_u64 y)
        >>= (λ initial_value. ok (create_auction x initial_value))
      else if str_eq command "bid"
      then map_err (λ e. invalid_auction_key) (from_str c x)
        >>= (λ key. ok_or invalid_amount (parse_u64 y) >>= (λ amount. ok (bid key amount)))
      else err usage
  parse_positional (command ∷ x ∷ y ∷ z ∷ rest) = err usage

  unfoldable pub parse : List String → Result CommandError Command
  unfolding strip_global_flags parse_positional
  parse args = do positional ← strip_global_flags args; parse_positional positional

unfoldable pub is_serve : Command → Bool
is_serve serve = true
is_serve (create_auction object initial_value) = false
is_serve (find_auction key) = false
is_serve (bid key amount) = false
