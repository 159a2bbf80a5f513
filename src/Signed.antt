-- ===== src/Signed.antt =====
-- utils/crypto_own.rs: signed messages. OpenSSL's RSA signatures over SHA-256 and prost's encoding
-- are parameters.
pub mod Accept
use kademlia_blockchain_auct.Prelude.{
  ℕ, String, List, Option, some, none, Bool, true, false, str_eq, if◌then◌else◌, ◌≡◌,
}
use kademlia_blockchain_auct.Prelude.Result.{Result, ok, err}
use kademlia_blockchain_auct.Crates.{Crates}
use kademlia_blockchain_auct.Peer.{NodeInfo, NodeInformation, to_information}
use kademlia_blockchain_auct.Crypto.{format_as_hex_string}

-- proto/kademlia.proto
pub record AuthenticatedMessage : Type 0 where
  pub sender : Option NodeInformation
  pub public_key : List ℕ
  pub signature : List ℕ
  pub payload : List ℕ

-- Keys are DER texts; `none` is an error of OpenSSL.
pub record Signatures : Type 0 where
  pub sign : (private_key_der message : List ℕ) → Option (List ℕ)
  pub verify : (payload signature public_key_der : List ℕ) → Option Bool

-- A signature made with the private key verifies under the public key.
abbrev pub IsKeyPair : Signatures → List ℕ → List ℕ → Type 0
IsKeyPair g private_key public_key =
    (message signature : List ℕ)
    → g.sign private_key message ≡ some signature
    → g.verify message signature public_key ≡ some true

-- `prost::Message` for one type of messages.
pub record Wire {ℓ} (A : Type ℓ) : Type ℓ where
  pub encode : A → List ℕ
  pub decode : List ℕ → Option A

pub data SignError : Type 0 where
  signing_failed : SignError

pub data Status : Type 0 where
  signature_check_error invalid_signature sender_mismatch failed_to_decode : Status

module _ (c : Crates) (g : Signatures) where
  unfoldable pub hash_bytes : List ℕ → ℕ
  hash_bytes input = c.from_big_endian (c.sha256 input)

  unfoldable pub verify_signature : List ℕ → List ℕ → List ℕ → Option Bool
  verify_signature payload signature public_key_der = g.verify payload signature public_key_der

  module _ {ℓ} {A : Type ℓ} (w : Wire A) where
    unfoldable pub sign_and_wrap :
        NodeInfo → A → List ℕ → List ℕ → Result SignError AuthenticatedMessage
    unfolding to_information
    sign_and_wrap node_info message private_key_der public_key_der =
        let message_bytes = w.encode message in
        elim (g.sign private_key_der message_bytes) [
          | none ↦ err signing_failed
          | some signature ↦ ok (record {
            sender = some (to_information c node_info);
            public_key = public_key_der;
            signature = signature;
            payload = message_bytes;
          })
        ]

    abbrev pub sender_is : String → Option NodeInformation → Bool
    sender_is id sender = elim sender [ some s ↦ str_eq s.id id | none ↦ false ]

    unfoldable pub extract_and_verify :
        AuthenticatedMessage → Result Status (A × AuthenticatedMessage)
    unfolding verify_signature hash_bytes format_as_hex_string
    extract_and_verify msg = elim (verify_signature msg.payload msg.signature msg.public_key) [
      | none ↦ err signature_check_error
      | some false ↦ err invalid_signature
      | some true ↦
          let calculated_id = format_as_hex_string c (hash_bytes msg.public_key) in
          if sender_is calculated_id msg.sender
          then elim (w.decode msg.payload) [
            | some payload ↦ ok (payload, msg)
            | none ↦ err failed_to_decode
          ]
          else err sender_mismatch
    ]
