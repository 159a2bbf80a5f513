-- ===== src/Lib.antt =====
-- A verification library for the Kademlia auction system: a peer-to-peer network that keeps
-- auctions in a Kademlia hash table, and a ledger of the auctions that were won.
--
-- The parts and their files. Paths are from the repository's root. Address:
-- src/blockchain/address.rs, the 32-byte addresses of nodes and auctions and their XOR distance.
-- Peer: `NodeInfo` of src/node.rs and its message. Config: src/utils/config.rs, the configuration
-- and, in Config/Read, how it is read. Crypto: `hash_data` of src/utils/crypto_own.rs and
-- src/utils.rs. Signed: the signed messages of src/utils/crypto_own.rs. Routing: src/routing/, the
-- buckets of contacts (`insert_contact`, `find_node_id`, `get_k_closest_nodes`). Auction:
-- src/auction.rs, the rules of bidding and closing; Auction/Message has the auctions of
-- proto/kademlia.proto. Ledger: src/blockchain/block.rs, src/blockchain/transaction.rs and
-- src/consensus.rs. Storage: src/storage.rs. Node: src/node.rs, which ties these together: its
-- routing table, its set of auctions and its ledger, each behind a lock, and the two files on disk.
-- Command: src/command.rs. Rpc: src/g_rpc/, the remote calls. Rpc/Message has the other messages of
-- proto/kademlia.proto, Rpc/Call one call from the caller's side; Rpc/Server has the handlers of
-- src/g_rpc/server.rs (Handshake: `ping`, `bootstrap`, `challenge_resolution`; Lookup: `store`,
-- `find_node`, `find_value`), its other files are proofs; Rpc/Client has the operations of
-- src/g_rpc/client.rs (Calls: the remote calls; Publish: publishing and the automation; Find: the
-- two searches; Join: `join_network`; Commands: `run` and `run_command`), its other files are
-- proofs. Startup: src/main.rs and the key files of src/utils/crypto_own.rs, up to the node that a
-- process runs. Rpc/Together puts a client and a server together: the client's network is the
-- server. The server and the client of a process share one node: `context.node` is cloned, but its
-- table, auctions and ledger are behind `Arc`. Prelude has the shared helpers, Tests the concrete
-- runs.
--
-- How state and effects are modelled. A lock is the value that it guards and whether it is
-- poisoned. The clock, the disk and its faults are arguments; a call gives its result together with
-- the state that it leaves, on an error too. A panic is a value (`Outcome`). A `HashSet` is a list
-- in its iteration order, keyed by the auction's key. A `U256` is its number below 2 ^ 256, a `u64`
-- a natural number, an `i64` an integer whose sums wrap around as in a release build, where a debug
-- build panics. The methods of the server and of the client are `Exec`: they take a state and give
-- a result, or a panic, with the state that is left. The network with everything behind it is a
-- parameter with a state of its own that each call may change; so are the client's clock and random
-- numbers. The server handles one request after another: the two steps of `challenge_resolution`
-- (`find_challenge`, `settle_challenge`), between which the code holds no lock, follow each other
-- at once. A remote call comes back, with an answer or an error. `+` on a bid panics on overflow or
-- wraps around, as `overflow_checks` says; the other sums wrap around. Crates that the program
-- calls are the record `Crates` with their documented laws (`CratesLaws`); `serde_json`, base64,
-- OpenSSL's keys and signatures and prost's encoding are parameters. A panic of `main` is an error
-- of `Startup`, with the disk that the process leaves.
--
-- Bounds and fuel. `proof_of_work` runs on fuel, one unit for each nonce that it tries; a solution
-- at nonce n below 2 ^ 64 needs n + 1. The scan of the buckets gets one round for each bucket of
-- the table but the first, after which every bucket has been visited. The table has 255 buckets.
-- The loops of the client's two searches take one unit of fuel for each round.
-- `iterative_find_node` ends because there are 2 ^ 256 addresses and each is queried at most once.
-- Of the endless loop of `start` the first rounds are modelled, as many as are asked for.
--
-- Not modelled: nodes that never answer; handlers that run at the same time; the threads and their
-- interleaving inside one handler, the signal handler, logging and printing; generated code and
-- third-party crates.
pub mod Prelude
pub mod Crates
pub mod Address
pub mod Config
pub mod Peer
pub mod Routing
pub mod Crypto
pub mod Auction
pub mod Ledger
pub mod Startup
pub mod Storage
pub mod Signed
pub mod Node
pub mod Command
pub mod Rpc
pub mod Tests
