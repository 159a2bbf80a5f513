-- ===== src/Config/Read.antt =====
-- utils/config.rs: the configuration read from the arguments, the environment and the key files.
-- The environment, the files and the base64 decoder are parameters.
use mathlib.Core.Option
use kademlia_blockchain_auct.Prelude.{
  ℕ, ◌^◌, ◌<>◌, String, List, [], ◌∷◌, Option, some, none, Bool, true, false, not, filter, str_eq,
  show_u64, parse_uint, parse_signed, lines, starts_with, if◌then◌else◌,
}
use kademlia_blockchain_auct.Prelude.Int.{ℤ, pos, of_sign}
use kademlia_blockchain_auct.Config.{Config}

-- `args.iter().position(|arg| arg == "--port").and_then(|index| args.get(index + 1))`
unfoldable pub port_argument : List String → Option String
port_argument [] = none
port_argument (arg ∷ rest) =
    if str_eq arg "--port"
    then elim rest [ [] ↦ none | value ∷ _ ↦ some value ]
    else port_argument rest

-- `parse` of the types that the configuration has.
abbrev pub parse_i64 : String → Option ℤ
parse_i64 s = Option.map of_sign (parse_signed s)

abbrev pub parse_bool : String → Option Bool
parse_bool s = if str_eq s "true" then some true else if str_eq s "false" then some false else none

concat : List String → String
concat [] = ""
concat (l ∷ ls) = l <> concat ls

-- `env` is `env::var`, `none` on an error; `files` is `fs::read_to_string`.
module _ (env : String → Option String) (files : String → Option String)
    (base64_decode : String → Option (List ℕ)) where
  -- `parse` is `FromStr` of the type.
  unfoldable pub read_envvar {ℓ} : {A : Type ℓ} → (String → Option A) → String → A → A
  read_envvar parse key default_value = elim (env key) [
    | none ↦ default_value
    | some val ↦ elim (parse val) [ some a ↦ a | none ↦ default_value ]
  ]

  unfoldable pub read_key : String → List ℕ
  unfolding concat
  read_key file_path =
      let pem_content : String = elim (files file_path) [ some content ↦ content | none ↦ "" ] in
      let base64_data =
        concat (filter (λ line. not (starts_with "-----" line)) (lines pem_content)) in
      elim (base64_decode base64_data) [ some bytes ↦ bytes | none ↦ [] ]

  -- `none` when the program exits, for want of a port.
  unfoldable pub read : List String → Option Config
  unfolding read_envvar read_key port_argument
  read args = elim (port_argument args) [
    | none ↦ none
    | some port_str ↦ elim (parse_uint (2 ^ 32) port_str) [
      | none ↦ none
      | some port ↦
          let key_dir = "./keys/" <> show_u64 port in
          let public_key_path = key_dir <> "/public_key.pem" in
          let private_key_path = key_dir <> "/private_key.pem" in
          some (record {
            port = port;
            bootstrap_peer_ip = read_envvar some "BOOTSTRAP_PEER_IP" "127.0.0.1";
            bootstrap_peer_port = read_envvar (parse_uint (2 ^ 32)) "BOOTSTRAP_PEER_PORT" 8000;
            max_kbucket_entries = read_envvar (parse_uint (2 ^ 64)) "MAX_N_KBUCKET_ENTRIES" 2;
            k_value = read_envvar (parse_uint (2 ^ 64)) "K_VALUE" 2;
            private_key = read_key private_key_path;
            public_key = read_key public_key_path;
            private_key_path = private_key_path;
            public_key_path = public_key_path;
            data_dir = "./data/" <> show_u64 port;
            peer_sync_ms = read_envvar (parse_uint (2 ^ 64)) "PEER_SYNC_MS" 10000;
            challenge_difficulty = read_envvar (parse_uint (2 ^ 32)) "CHALLENGE_DIFFICULTY" 5;
            n_max_retries = read_envvar (parse_uint (2 ^ 8)) "N_MAX_RETRIES" 3;
            consensus_mode = read_envvar some "CONSENSUS_MODE" "pow";
            reputation_threshold = read_envvar (parse_uint (2 ^ 64)) "REPUTATION_THRESHOLD" 1;
            automation_enabled = read_envvar parse_bool "AUTOMATION_ENABLED" false;
            automation_interval_ms =
                read_envvar (parse_uint (2 ^ 64)) "AUTOMATION_INTERVAL_MS" 5000;
            auction_duration_ms = read_envvar parse_i64 "AUCTION_DURATION_MS" (pos 30000);
          })
    ]
  ]
