-- ===== src/Storage.antt =====
-- storage.rs: the two JSON files of a node. The disk is a map from paths to texts together with the
-- faults that the next accesses meet; the JSON codec is a parameter.
pub mod RoundTrip
use kademlia_blockchain_auct.Prelude.{
  ℕ, String, List, [], ◌∷◌, Option, none, some, Bool, true, false, ◌<>◌, str_eq, if◌then◌else◌, ◌≡◌,
  refl,
}
use kademlia_blockchain_auct.Prelude.Result.{Result, ok, err}
use kademlia_blockchain_auct.Auction.{Auction}
use kademlia_blockchain_auct.Ledger.{Block}

-- `fails_read`, `fails_create` and `fails_write` say of a path whether the call on it fails.
pub record Disk : Type 0 where
  pub files : String → Option String
  pub fails_read : String → Bool
  pub fails_create : String → Bool
  pub fails_write : String → Bool
  -- What a failed write leaves of the file, which it may have cut short.
  pub torn : String → Option String

pub data StorageError : Type 0 where
  failed_to_read failed_to_parse failed_to_create failed_to_write : String → StorageError

-- `Path::new(data_dir).join(name)` for a directory without a trailing separator.
abbrev pub join : String → String → String
join dir name = dir <> "/" <> name

abbrev pub auctions_file : String
auctions_file = "auctions.json"

abbrev pub ledger_file : String
ledger_file = "ledger.json"

abbrev pub put_file : String → Option String → (String → Option String) → String → Option String
put_file path contents files p = if str_eq p path then contents else files p

-- `serde_json` for lists of one type.
pub record Codec {ℓ} (A : Type ℓ) : Type ℓ where
  pub to_string_pretty : List A → String
  pub parse : String → Option (List A)

pub record CodecLaws {ℓ} {A : Type ℓ} (k : Codec A) : Type ℓ where
  pub parse_law : (xs : List A) → k.parse (k.to_string_pretty xs) ≡ some xs

module _ {ℓ} {A : Type ℓ} (k : Codec A) where
  unfoldable pub read_json : String → Disk → Result StorageError (List A)
  read_json path disk = elim (disk.files path) [
    | none ↦ ok []
    | some contents ↦
        if disk.fails_read path
        then err (failed_to_read path)
        else elim (k.parse contents) [ some values ↦ ok values | none ↦ err (failed_to_parse path) ]
  ]

  -- `parent` is the directory of `path`. `fs::write` truncates before it writes.
  unfoldable pub write_json :
      String → String → List A → Disk → Result StorageError (Unit {0}) × Disk
  write_json parent path value disk =
      if disk.fails_create parent
      then (err (failed_to_create parent), disk)
      else if disk.fails_write path
      then (
        err (failed_to_write path),
        record disk { files = put_file path (disk.torn path) disk.files },
      )
      else (
        ok tt,
        record disk { files = put_file path (some (k.to_string_pretty value)) disk.files },
      )

unfoldable pub load_auctions : Codec Auction → String → Disk → Result StorageError (List Auction)
unfolding read_json
load_auctions k data_dir disk = read_json k (join data_dir auctions_file) disk

unfoldable pub save_auctions :
    Codec Auction → String → List Auction → Disk → Result StorageError (Unit {0}) × Disk
unfolding write_json
save_auctions k data_dir auctions disk =
    write_json k data_dir (join data_dir auctions_file) auctions disk

unfoldable pub load_ledger : Codec Block → String → Disk → Result StorageError (List Block)
unfolding read_json
load_ledger k data_dir disk = read_json k (join data_dir ledger_file) disk

unfoldable pub save_ledger :
    Codec Block → String → List Block → Disk → Result StorageError (Unit {0}) × Disk
unfolding write_json
save_ledger k data_dir ledger disk = write_json k data_dir (join data_dir ledger_file) ledger disk
