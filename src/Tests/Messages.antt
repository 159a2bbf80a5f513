-- ===== src/Tests/Messages.antt =====
-- Runs of signed messages, with a signature that repeats the key before the message.
use mathlib.Core.Option.{some-injective}
use kademlia_blockchain_auct.Prelude.{ℕ, ◌≡◌, ◌⊎◌, refl, ap, sym, List, [], ◌∷◌, ◌++◌, some}
use kademlia_blockchain_auct.Prelude.Result.{ok, err}
use kademlia_blockchain_auct.Address.{Address, address_eq, address_eq_iff}
use kademlia_blockchain_auct.Peer.{NodeInfo, to_information}
use kademlia_blockchain_auct.Signed.{
  AuthenticatedMessage, Signatures, IsKeyPair, Wire, sign_and_wrap, extract_and_verify, Status,
}
use kademlia_blockchain_auct.Signed.Accept.{
  Accepted, extract_and_verify-sign_and_wrap, extract_and_verify_lem,
}
use kademlia_blockchain_auct.Tests.Sample.{sample_crates, sample_laws}

abbrev pub bytes_of : List ℕ → Address
bytes_of bs = record { bytes = bs }

abbrev pub repeated : Signatures
repeated = record {
  sign = λ key message. some (key ++ message);
  verify =
      λ payload signature key. some (address_eq (bytes_of signature) (bytes_of (key ++ payload)));
}

abbrev plain : Wire (List ℕ)
plain = record { encode = λ message. message; decode = λ bytes. some bytes }

abbrev pub key : List ℕ
key = 1 ∷ 2 ∷ 3 ∷ []

pub key-IsKeyPair : IsKeyPair repeated key key
key-IsKeyPair message signature e = ap some (
    (address_eq_iff (bytes_of signature) (bytes_of (key ++ message))).1
      (ap bytes_of (some-injective signature (key ++ message) (sym e))))

abbrev pub owner : NodeInfo
owner = record { id = record { bytes = sample_crates.sha256 key }; ip = "127.0.0.1"; port = 8000 }

-- The message 7, signed by the owner.
abbrev signed : AuthenticatedMessage
signed = record {
  sender = some (to_information sample_crates owner);
  public_key = key;
  signature = key ++ 7 ∷ [];
  payload = 7 ∷ [];
}

signed_lem : sign_and_wrap sample_crates repeated plain owner (7 ∷ []) key key ≡ ok signed
unfolding sign_and_wrap
signed_lem = refl

extract_and_verify-sign_and_wrap_example :
    extract_and_verify sample_crates repeated plain signed ≡ ok (7 ∷ [], signed)
extract_and_verify-sign_and_wrap_example =
    extract_and_verify-sign_and_wrap sample_crates sample_laws repeated plain owner (7 ∷ []) key key
      signed refl key-IsKeyPair refl signed_lem

extract_and_verify_lem_example :
    ((payload : List ℕ) × (extract_and_verify sample_crates repeated plain signed
        ≡ ok (payload, signed))
      × Accepted sample_crates sample_laws repeated plain signed payload)
    ⊎ ((bad : Status) × (extract_and_verify sample_crates repeated plain signed ≡ err bad))
extract_and_verify_lem_example =
    extract_and_verify_lem sample_crates sample_laws repeated plain signed
