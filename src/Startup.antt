-- ===== src/Startup.antt =====
-- main.rs and the key files of utils/crypto_own.rs: how a process gets its keys and its node. OpenSSL's
-- keys are a parameter. A panic in `main` ends the process; here it is an error, with the disk that
-- the process leaves.
pub mod Keys
pub mod Identity
use kademlia_blockchain_auct.Prelude.{
  ℕ, String, List, [], ◌∷◌, Option, none, some, Bool, true, false, if◌then◌else◌,
}
use kademlia_blockchain_auct.Prelude.Int.{ℤ}
use kademlia_blockchain_auct.Prelude.Result.{Result, ok, err, ok_or, map_err}
use kademlia_blockchain_auct.Prelude.Sync.{done}
use kademlia_blockchain_auct.Prelude.Exec.{Exec, pure, lift, ask, ◌>>=◌}
use kademlia_blockchain_auct.Crates.{Crates}
use kademlia_blockchain_auct.Crypto.{format_as_hex_string}
use kademlia_blockchain_auct.Address.{Address, AddressError, from_str}
use kademlia_blockchain_auct.Config.{Config}
use kademlia_blockchain_auct.Config.Read.{read_key}
use kademlia_blockchain_auct.Ledger.{Block}
use kademlia_blockchain_auct.Auction.{Auction}
use kademlia_blockchain_auct.Storage.{Disk, Codec, put_file}
use kademlia_blockchain_auct.Signed.{Signatures, hash_bytes}
use kademlia_blockchain_auct.Node.{Node, new}

-- OpenSSL's RSA keys, and base64. `generated` is what the one `Rsa::generate(2048)` of a start gives;
-- `pkey` is `PKey::from_rsa`.
pub record KeyLibrary (R P : Type 0) : Type 0 where
  pub generated : Option R
  pub pkey : R → Option P
  pub private_key_from_der : List ℕ → Option R
  pub private_key_to_pem_pkcs8 : P → Option String
  pub public_key_to_pem : P → Option String
  pub base64_decode : String → Option (List ℕ)

-- The messages of `expect`, `panic!` and `unwrap`.
pub data StartError : Type 0 where
  failed_to_generate failed_to_create_pkey failed_to_parse_private_key : StartError
  failed_to_get_private_pem failed_to_get_public_pem : StartError
  failed_to_create_directory failed_to_create_file : StartError
  private_key_missing : StartError
  invalid_node_id : AddressError → StartError

abbrev pub Start : Type 0 → Type 0
Start A = Exec Disk StartError A

abbrev pub is_empty : List ℕ → Bool
is_empty [] = true
is_empty (b ∷ bs) = false

-- `fs::read_to_string`
abbrev pub read_to_string : Disk → String → Option String
read_to_string disk path = if disk.fails_read path then none else disk.files path

-- `fs::create_dir_all`
unfoldable pub create_directory : String → Start (Unit {0})
create_directory parent disk =
    done (if disk.fails_create parent then err failed_to_create_directory else ok tt, disk)

-- `File::create`, which leaves the file as it is when it fails, and `write_all` to a buffer that is
-- larger than the text of a key. What the buffer meets when it is dropped and written to the disk is
-- ignored.
unfoldable pub write_key : String → String → Start (Unit {0})
write_key path pem disk =
    if disk.fails_create path
    then done (err failed_to_create_file, disk)
    else if disk.fails_write path
    then done (ok tt, record disk { files = put_file path (disk.torn path) disk.files })
    else done (ok tt, record disk { files = put_file path (some pem) disk.files })

-- `key_dir` is the directory of both key files.
module _ {R P : Type 0} (k : KeyLibrary R P) (key_dir : String) where
  unfoldable pub create_rsa_key_pair : String → String → Start (Unit {0})
  create_rsa_key_pair private_key_path public_key_path = do
    rsa ← lift (ok_or failed_to_generate k.generated)
    pkey ← lift (ok_or failed_to_create_pkey (k.pkey rsa))
    first ← create_directory key_dir
    second ← create_directory key_dir
    private_key_pem ← lift (ok_or failed_to_get_private_pem (k.private_key_to_pem_pkcs8 pkey))
    private_file ← write_key private_key_path private_key_pem
    pub_key_pem ← lift (ok_or failed_to_get_public_pem (k.public_key_to_pem pkey))
    write_key public_key_path pub_key_pem

  unfoldable pub generate_public_key_from_private : List ℕ → String → Start (Unit {0})
  generate_public_key_from_private private_key_der public_key_path = do
    rsa ← lift (ok_or failed_to_parse_private_key (k.private_key_from_der private_key_der))
    pkey ← lift (ok_or failed_to_create_pkey (k.pkey rsa))
    made ← create_directory key_dir
    pub_key_pem ← lift (ok_or failed_to_get_public_pem (k.public_key_to_pem pkey))
    write_key public_key_path pub_key_pem

  -- `Config::read_key` on the disk.
  unfoldable pub key_of : String → Disk → List ℕ
  key_of path disk = read_key (λ x. none) (read_to_string disk) k.base64_decode path

  unfoldable pub key_at : String → Start (List ℕ)
  key_at path = ask (λ disk. done (key_of path disk))

  -- Neither key is there.
  unfoldable pub generate_keys : Config → Start Config
  generate_keys config = do
    created ← create_rsa_key_pair config.private_key_path config.public_key_path
    private_key ← key_at config.private_key_path
    public_key ← key_at config.public_key_path
    pure (record config { private_key = private_key; public_key = public_key })

  -- The private key is there.
  unfoldable pub derive_public_key : Config → Start Config
  derive_public_key config = do
    created ← generate_public_key_from_private config.private_key config.public_key_path
    public_key ← key_at config.public_key_path
    pure (record config { public_key = public_key })

  unfoldable pub setup_keys : Config → Start Config
  setup_keys config =
      if is_empty config.private_key
      then (if is_empty config.public_key
          then generate_keys config
          else lift (err private_key_missing))
      else if is_empty config.public_key
      then derive_public_key config
      else pure config

  -- The node that `main` runs, after its configuration was read.
  unfoldable pub start_node :
      Codec Auction → Codec Block → Crates → Signatures → ℤ → Config → Start Node
  start_node auction_codec block_codec c g now config = do
    config ← setup_keys config
    address ← lift (
        map_err invalid_node_id
          (from_str c (format_as_hex_string c (hash_bytes c g config.public_key))))
    ask (λ disk.
        done (new auction_codec block_codec now address "127.0.0.1" config.port config disk))
