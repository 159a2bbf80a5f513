-- ===== src/Tests/Auctions.antt =====
-- Runs of the auctions, the wire, the storage, the command line and the proof of work.
use kademlia_blockchain_auct.Prelude.{
  ℕ, ◌≡◌, ◌≤◌, ◌↔◌, ap, ◌==◌, as_bytes, show_u64, ◌+◌, ◌<◌, ◌⊎◌, refl, arith, String, List, [], ◌∷◌,
  ◌++◌, some, Bool, true, false,
}
use Prim.Native.Char.{code}
use Prim.Native.String.{char_at}
use kademlia_blockchain_auct.Prelude.Int.{ℤ, pos}
use kademlia_blockchain_auct.Prelude.BigEndian.{big_endian, to_big_endian}
use kademlia_blockchain_auct.Prelude.Result.{ok, err}
use kademlia_blockchain_auct.Address.{Address, distance}
use kademlia_blockchain_auct.Address.Metric.{distance_metric}
use kademlia_blockchain_auct.Crypto.{solves, proof_of_work}
use kademlia_blockchain_auct.Crypto.Work.{proof_of_work-least}
use kademlia_blockchain_auct.Auction.{Auction, place_bid, close_if_expired, auction_is_closed}
use kademlia_blockchain_auct.Auction.Message.{try_from_message, to_message}
use kademlia_blockchain_auct.Auction.Rules.{
  BidAnswer, place_bid_lem, CloseAnswer, close_if_expired_lem,
}
use kademlia_blockchain_auct.Auction.Reach.{
  Reach, created, bid, close, IsSound, new_with_duration_lem, fresh, Reach-IsSound, close-final,
}
use kademlia_blockchain_auct.Auction.RoundTrip.{try_from_message-to_message}
use kademlia_blockchain_auct.Command.{strip_from, parse}
use kademlia_blockchain_auct.Command.Flags.{parse-port}
use kademlia_blockchain_auct.Storage.{Codec, CodecLaws, read_json, write_json}
use kademlia_blockchain_auct.Storage.RoundTrip.{read_json-write_json}
use kademlia_blockchain_auct.Tests.Sample.{sample_crates, sample_laws}
use kademlia_blockchain_auct.Tests.Data.{
  addr, addr-IsAddress, poster, poster-IsValid, sold, sold-IsValid, empty_disk,
}

place_bid_lem_example : BidAnswer (pos 50) (addr 3) 31 poster
place_bid_lem_example = place_bid_lem (pos 50) (addr 3) 31 poster poster-IsValid

close_if_expired_lem_example : CloseAnswer (pos 100) poster
close_if_expired_lem_example = close_if_expired_lem (pos 100) poster poster-IsValid

close-final_example :
    ((later : ℤ) (buyer : Address) (amount : ℕ)
      → place_bid later buyer amount (close_if_expired (pos 100) poster).0
        ≡ ((close_if_expired (pos 100) poster).0, err auction_is_closed))
    × ((later : ℤ)
        → close_if_expired later (close_if_expired (pos 100) poster).0
          ≡ ((close_if_expired (pos 100) poster).0, false))
close-final_example = close-final (pos 100) poster poster-IsValid (omega arith)

try_from_message-to_message_example :
    try_from_message sample_crates (to_message sample_crates sold) ≡ ok sold
try_from_message-to_message_example =
    try_from_message-to_message sample_crates sample_laws sold sold-IsValid

-- An auction made at 0, with a bid of 30 at 50, closed at 100.
abbrev made : Auction
made = fresh sample_crates sample_laws (pos 0) "signed poster" 25 (addr 1) (pos 100)

abbrev closed_one : Auction
closed_one = (close_if_expired (pos 100) (place_bid (pos 50) (addr 2) 30 made).0).0

closed_one-Reach : Reach sample_crates closed_one
closed_one-Reach = close _ (pos 100) (
    bid made (pos 50) (addr 2) 30
      (created (pos 0) "signed poster" 25 (addr 1) (pos 100) made (addr-IsAddress 1 (omega arith)) (
        new_with_duration_lem sample_crates sample_laws (pos 0) "signed poster" 25 (addr 1)
          (pos 100)))
      (addr-IsAddress 2 (omega arith)))

Reach-IsSound_example : IsSound sample_crates closed_one
Reach-IsSound_example = Reach-IsSound sample_crates sample_laws closed_one closed_one-Reach

parse-port_example :
    parse sample_crates
      ("app" ∷ ("create-auction" ∷ []) ++ "--port" ∷ "8001" ∷ "Poster" ∷ "25" ∷ [])
    ≡ parse sample_crates ("app" ∷ ("create-auction" ∷ []) ++ "Poster" ∷ "25" ∷ [])
unfolding strip_from
parse-port_example =
    parse-port sample_crates "app" "8001" ("create-auction" ∷ []) ("Poster" ∷ "25" ∷ [])
      ("create-auction" ∷ []) ("Poster" ∷ "25" ∷ []) refl refl

distance_metric_example :
    (distance sample_crates (addr 3) (addr 5) ≡ distance sample_crates (addr 5) (addr 3))
    × ((distance sample_crates (addr 3) (addr 5) ≡ 0) ↔ (addr 3 ≡ addr 5))
    × (distance sample_crates (addr 3) (addr 5)
        ≤ distance sample_crates (addr 3) (addr 1) + distance sample_crates (addr 1) (addr 5))
    × ((distance sample_crates (addr 1) (addr 3) ≡ distance sample_crates (addr 1) (addr 5))
        ↔ (addr 3 ≡ addr 5))
distance_metric_example =
    distance_metric sample_crates sample_laws (addr 1) (addr 3) (addr 5)
      (addr-IsAddress 1 (omega arith)) (addr-IsAddress 3 (omega arith))
      (addr-IsAddress 5 (omega arith))

nonce_1 : solves sample_crates "seed" 200 1 ≡ true
unfolding solves as_bytes show_u64 sample_crates big_endian to_big_endian
nonce_1 = refl

proof_of_work-least_example :
    (least : ℕ) × (proof_of_work sample_crates 2 "seed" 200 ≡ some least)
    × (least ≤ 1)
    × (solves sample_crates "seed" 200 least ≡ true)
    × ((m : ℕ) → m < least → solves sample_crates "seed" 200 m ≡ false)
proof_of_work-least_example =
    proof_of_work-least sample_crates "seed" 200 1 2 nonce_1 (omega arith) (omega arith)

-- A codec for lists of flags.
write_flags : List Bool → String
write_flags [] = ""
write_flags (true ∷ l) = String.◌∷◌ (char_at "01" 1) (write_flags l)
write_flags (false ∷ l) = String.◌∷◌ (char_at "01" 0) (write_flags l)

read_flags : String → List Bool
read_flags String.[] = []
read_flags (String.◌∷◌ c s) = (code c == b'1') ∷ read_flags s

flags : Codec Bool
unfolding write_flags read_flags
flags = record { to_string_pretty = write_flags; parse = λ s. some (read_flags s) }

read-write_flags : (l : List Bool) → read_flags (write_flags l) ≡ l
unfolding read_flags write_flags
read-write_flags [] = refl
read-write_flags (true ∷ l) = ap (◌∷◌ true) (read-write_flags l)
read-write_flags (false ∷ l) = ap (◌∷◌ false) (read-write_flags l)

flags_laws : CodecLaws flags
unfolding flags
flags_laws = record { parse_law = λ l. ap some (read-write_flags l) }

abbrev some_flags : List Bool
some_flags = true ∷ false ∷ []

read_json-write_json_example :
    ((write_json flags "data" "data/ledger.json" some_flags empty_disk).0 ≡ ok tt)
    × (read_json flags "data/ledger.json"
          (write_json flags "data" "data/ledger.json" some_flags empty_disk).1
        ≡ ok some_flags)
    × ((other : String)
        → ("data/ledger.json" ≡ other)
          ⊎ ((write_json flags "data" "data/ledger.json" some_flags empty_disk).1.files other
              ≡ empty_disk.files other))
read_json-write_json_example =
    read_json-write_json flags flags_laws "data" "data/ledger.json" some_flags empty_disk refl refl
      refl
