-- ===== src/Startup/Identity.antt =====
-- main.rs: the node that a process starts with.
use kademlia_blockchain_auct.Prelude.{ℕ, ◌<◌, ◌≡◌, refl, ap, ◌∙◌, String, List, []}
use kademlia_blockchain_auct.Prelude.Int.{ℤ}
use kademlia_blockchain_auct.Prelude.Result.{ok, map_err}
use kademlia_blockchain_auct.Prelude.Sync.{done}
use kademlia_blockchain_auct.Prelude.Exec.{lift, ask, bind-done}
use kademlia_blockchain_auct.Crates.{Crates, CratesLaws}
use kademlia_blockchain_auct.Crypto.{format_as_hex_string}
use kademlia_blockchain_auct.Address.{Address, IsAddress, from_str, to_string}
use kademlia_blockchain_auct.Address.Text.{from_str-to_string}
use kademlia_blockchain_auct.Config.{Config}
use kademlia_blockchain_auct.Routing.Table.{new_table}
use kademlia_blockchain_auct.Routing.Insert.{new_table-IsTable}
use kademlia_blockchain_auct.Auction.{Auction}
use kademlia_blockchain_auct.Ledger.{Block}
use kademlia_blockchain_auct.Ledger.Chain.{IsLedger}
use kademlia_blockchain_auct.Storage.{Disk, Codec, load_auctions, load_ledger}
use kademlia_blockchain_auct.Signed.{Signatures, hash_bytes}
use kademlia_blockchain_auct.Node.{Node, new, value_or_empty}
use kademlia_blockchain_auct.Node.Set.{collect-DistinctKeys}
use kademlia_blockchain_auct.Node.Run.{IsNode}
use kademlia_blockchain_auct.Startup.{KeyLibrary, invalid_node_id, setup_keys, start_node}

module _ {R P : Type 0} (k : KeyLibrary R P) (key_dir : String) (auction_codec : Codec Auction)
    (block_codec : Codec Block) (c : Crates) (block_json : Block → String) (g : Signatures) where
  -- The address of the holder of a public key.
  abbrev address_of : List ℕ → Address
  address_of public_key = record { bytes = c.sha256 public_key }

  -- The text of the hash of a key is always an address.
  from_str-hash :
      CratesLaws c
      → (key : List ℕ)
      → from_str c (format_as_hex_string c (hash_bytes c g key)) ≡ ok (address_of key)
  unfolding format_as_hex_string hash_bytes to_string
  from_str-hash laws key =
      let h = laws.sha256_law key in
      ap (from_str c) (laws.format_law (c.sha256 key) h.0 h.1)
      ∙ from_str-to_string c laws (address_of key) h

  new-IsNode :
      (now : ℤ) (id : Address) (config : Config) (disk : Disk)
      → IsAddress id
      → 0 < config.max_kbucket_entries
      → IsLedger c block_json (value_or_empty (load_ledger block_codec config.data_dir disk))
      → IsNode auction_codec block_codec c block_json (record {
        node = new auction_codec block_codec now id "127.0.0.1" config.port config disk;
        disk = disk;
      })
  unfolding new new_table
  new-IsNode now id config disk h room ledger = record {
    table =
        new_table-IsTable c now (record { id = id; ip = "127.0.0.1"; port = config.port }) config h;
    room = room;
    distinct =
        collect-DistinctKeys (value_or_empty (load_auctions auction_codec config.data_dir disk)) []
          tt;
    ledger = ledger;
  }

  -- A start goes on to make the node when the setup of the keys succeeds.
  start_node_lem :
      CratesLaws c
      → (now : ℤ) (config config' : Config) (disk disk' : Disk)
      → setup_keys k key_dir config disk ≡ done (ok config', disk')
      → start_node k key_dir auction_codec block_codec c g now config disk
        ≡ done (
          ok (
              new auction_codec block_codec now
                (address_of config'.public_key)
                "127.0.0.1"
                config'.port
                config'
                disk'),
          disk',
        )
  unfolding start_node lift ask
  start_node_lem laws now config config' disk disk' e =
      bind-done _ _ disk config' disk' e
      ∙ bind-done _ _ disk' (address_of config'.public_key) disk' (
          ap (λ r. done (map_err invalid_node_id r, disk')) (from_str-hash laws config'.public_key))

  -- When the setup of the keys succeeds, so does the start, whatever the public key is. If buckets
  -- have room for an entry, and the ledger that is read from the disk is a ledger, or none is read,
  -- then the process has a well-formed node, whose id is the hash of its public key, with the
  -- configuration that the setup of the keys gives.
  pub start_node-IsNode :
      CratesLaws c
      → (now : ℤ) (config config' : Config) (disk disk' : Disk)
      → setup_keys k key_dir config disk ≡ done (ok config', disk')
      → 0 < config'.max_kbucket_entries
      → IsLedger c block_json (value_or_empty (load_ledger block_codec config'.data_dir disk'))
      → (node : Node) × (start_node k key_dir auction_codec block_codec c g now config disk
          ≡ done (ok node, disk'))
        × (node.node_info.id.bytes ≡ c.sha256 config'.public_key)
        × (node.config ≡ config')
        × IsNode auction_codec block_codec c block_json (record { node = node; disk = disk' })
  unfolding new
  start_node-IsNode laws now config config' disk disk' e room ledger =
      let id = address_of config'.public_key in
      (
        new auction_codec block_codec now id "127.0.0.1" config'.port config' disk',
        start_node_lem laws now config config' disk disk' e,
        refl,
        refl,
        new-IsNode now id config' disk' (laws.sha256_law config'.public_key) room ledger,
      )
