-- ===== src/Startup/Keys.antt =====
-- The keys of a process: utils/crypto_own.rs, `setup_keys`, with the key files on the disk.
use kademlia_blockchain_auct.Prelude.{
  ℕ, ◌≡◌, ap, ◌∙◌, String, List, some, none, false, str_eq, if_false,
}
use kademlia_blockchain_auct.Prelude.Result.{ok}
use kademlia_blockchain_auct.Prelude.Sync.{done}
use kademlia_blockchain_auct.Prelude.Exec.{pure}
use kademlia_blockchain_auct.Config.{Config}
use kademlia_blockchain_auct.Config.Read.{read_key}
use kademlia_blockchain_auct.Storage.{Disk, put_file}
use kademlia_blockchain_auct.Startup.{KeyLibrary, Start, is_empty, key_of, setup_keys}

abbrev written : String → String → Disk → Disk
written path pem disk = record disk { files = put_file path (some pem) disk.files }

module _ {R P : Type 0} (k : KeyLibrary R P) (key_dir : String) where
  -- The key in the text of a PEM file.
  abbrev pub pem_key : String → List ℕ
  pem_key pem = read_key (λ x. none) (λ path. some pem) k.base64_decode ""

  -- OpenSSL's calls succeed, and the PEM text of a key holds a key.
  pub record Working : Type 0 where
    pub generates : (r : R) × (k.generated ≡ some r)
    pub pkeys : (r : R) → (p : P) × (k.pkey r ≡ some p)
    pub privates :
        (p : P)
        → (pem : String) × (k.private_key_to_pem_pkcs8 p ≡ some pem)
          × (is_empty (pem_key pem) ≡ false)
    pub publics :
        (p : P)
        → (pem : String) × (k.public_key_to_pem p ≡ some pem) × (is_empty (pem_key pem) ≡ false)

  -- The disk lets the process read and write its two key files.
  pub record Ready (config : Config) (disk : Disk) : Type 0 where
    pub creates : disk.fails_create key_dir ≡ false
    pub creates_private : disk.fails_create config.private_key_path ≡ false
    pub creates_public : disk.fails_create config.public_key_path ≡ false
    pub writes_private : disk.fails_write config.private_key_path ≡ false
    pub writes_public : disk.fails_write config.public_key_path ≡ false
    pub reads_private : disk.fails_read config.private_key_path ≡ false
    pub reads_public : disk.fails_read config.public_key_path ≡ false
    pub apart : str_eq config.private_key_path config.public_key_path ≡ false

  -- The configuration has the keys that the files hold.
  abbrev pub OnDisk : Config → Disk → Type 0
  OnDisk config disk =
      (config.private_key ≡ key_of k key_dir config.private_key_path disk)
      × (config.public_key ≡ key_of k key_dir config.public_key_path disk)

  pub setup_keys-full :
      (config : Config) (disk : Disk)
      → is_empty config.private_key ≡ false
      → is_empty config.public_key ≡ false
      → setup_keys k key_dir config disk ≡ done (ok config, disk)
  unfolding setup_keys pure
  setup_keys-full config disk e e' =
      ap (λ (m : Start Config). m disk) (if_false _ _ e ∙ if_false _ _ e')

  -- A start that ends with keys which the files hold, and which the next start takes as they are.
  abbrev pub Lasting : Config → Disk → Type 0
  Lasting config disk =
      (config' : Config) × (disk' : Disk) × (setup_keys k key_dir config disk
        ≡ done (ok config', disk'))
      × (config'
          ≡ record config { private_key = config'.private_key; public_key = config'.public_key })
      × OnDisk config' disk'
      × (setup_keys k key_dir config' disk' ≡ done (ok config', disk'))
