-- ===== src/Signed/Accept.antt =====
-- Which messages are accepted.
use kademlia_blockchain_auct.Prelude.{
  ℕ, ◌≡◌, ◌⊎◌, String, refl, ap, sym, ◌∙◌, List, Option, some, none, true, false, Bool-cases,
  Option-cases, inl, inr, if_true, if_false, str_eq_iff, str_eq_refl,
}
use kademlia_blockchain_auct.Prelude.Result.{Result, ok, err, ok-injective}
use kademlia_blockchain_auct.Crates.{Crates, CratesLaws}
use kademlia_blockchain_auct.Address.{to_string}
use kademlia_blockchain_auct.Peer.{NodeInfo, NodeInformation, to_information}
use kademlia_blockchain_auct.Crypto.{format_as_hex_string}
use kademlia_blockchain_auct.Signed.{
  AuthenticatedMessage, Signatures, IsKeyPair, Wire, sign_and_wrap, extract_and_verify, hash_bytes,
  sender_is, verify_signature, SignError, signing_failed, Status, signature_check_error,
  invalid_signature, sender_mismatch, failed_to_decode,
}

module _ {ℓ} {A : Type ℓ} (c : Crates) (laws : CratesLaws c) (g : Signatures) (w : Wire A) where
  hex_of_hash :
      (n : NodeInfo) (key : List ℕ)
      → n.id.bytes ≡ c.sha256 key
      → format_as_hex_string c (hash_bytes c g key) ≡ to_string c n.id
  unfolding format_as_hex_string hash_bytes to_string
  hex_of_hash n key e =
      let h = laws.sha256_law key in
      laws.format_law (c.sha256 key) h.0 h.1 ∙ ap c.hex_encode (sym e)

  sender_is_own :
      (n : NodeInfo) (key : List ℕ)
      → n.id.bytes ≡ c.sha256 key
      → sender_is c g w (format_as_hex_string c (hash_bytes c g key)) (some (to_information c n))
        ≡ true
  unfolding to_information
  sender_is_own n key e = rw (hex_of_hash n key e) (str_eq_refl (to_string c n.id))

  abbrev pub wrapped : NodeInfo → A → List ℕ → List ℕ → AuthenticatedMessage
  wrapped n message public_key signature = record {
    sender = some (to_information c n);
    public_key = public_key;
    signature = signature;
    payload = w.encode message;
  }

  not_signed :
      (n : NodeInfo) (message : A) (private_key public_key : List ℕ)
      → g.sign private_key (w.encode message) ≡ none
      → sign_and_wrap c g w n message private_key public_key ≡ err signing_failed
  unfolding sign_and_wrap
  not_signed n message private_key public_key e = rw (e, sign_and_wrap) refl

  pub is_signed :
      (n : NodeInfo) (message : A) (private_key public_key signature : List ℕ)
      → g.sign private_key (w.encode message) ≡ some signature
      → sign_and_wrap c g w n message private_key public_key
        ≡ ok (wrapped n message public_key signature)
  unfolding sign_and_wrap
  is_signed n message private_key public_key signature e = rw (e, sign_and_wrap) refl

  accepted :
      (n : NodeInfo) (message : A) (public_key signature : List ℕ)
      → n.id.bytes ≡ c.sha256 public_key
      → g.verify (w.encode message) signature public_key ≡ some true
      → w.decode (w.encode message) ≡ some message
      → extract_and_verify c g w (wrapped n message public_key signature)
        ≡ ok (message, wrapped n message public_key signature)
  unfolding extract_and_verify
  accepted n message public_key signature own valid coded =
      let verified : verify_signature c g (w.encode message) signature public_key ≡ some true =
        unfold verify_signature in valid in
      rw (verified, extract_and_verify)
        (if_true _ _ (sender_is_own n public_key own) ∙ rw coded refl)

  -- For a node whose address is the hash of its public key, a matching pair of keys, and a message
  -- whose encoding is read back: if signing succeeds, the wrapped message is accepted and gives the
  -- same message.
  pub extract_and_verify-sign_and_wrap :
      (n : NodeInfo) (message : A) (private_key public_key : List ℕ) (m : AuthenticatedMessage)
      → n.id.bytes ≡ c.sha256 public_key
      → IsKeyPair g private_key public_key
      → w.decode (w.encode message) ≡ some message
      → sign_and_wrap c g w n message private_key public_key ≡ ok m
      → extract_and_verify c g w m ≡ ok (message, m)
  extract_and_verify-sign_and_wrap n message private_key public_key m own pair coded e =
      elim (Option-cases (g.sign private_key (w.encode message))) [
        | inl failed ↦ absurd (clash (sym (not_signed n message private_key public_key failed) ∙ e))
        | inr (s, signed) ↦
            rw
              (ok-injective {E = SignError} m (wrapped n message public_key s)
                (sym e ∙ is_signed n message private_key public_key s signed))
              (accepted n message public_key s own (pair (w.encode message) s signed) coded)
      ]
    where
      clash : ◌≡◌ {A = Result SignError AuthenticatedMessage} (err signing_failed) (ok m) → ⊥
      clash e = cc

  -- A message that is signed names the node that signed it.
  pub sender-sign_and_wrap :
      (n : NodeInfo) (message : A) (private_key public_key : List ℕ) (m : AuthenticatedMessage)
      → sign_and_wrap c g w n message private_key public_key ≡ ok m
      → m.sender ≡ some (to_information c n)
  sender-sign_and_wrap n message private_key public_key m e =
      elim (Option-cases (g.sign private_key (w.encode message))) [
        | inl failed ↦ absurd (clash (sym (not_signed n message private_key public_key failed) ∙ e))
        | inr (s, signed) ↦
            ap (λ (x : AuthenticatedMessage). x.sender)
              (ok-injective {E = SignError} m (wrapped n message public_key s)
                (sym e ∙ is_signed n message private_key public_key s signed))
      ]
    where
      clash : ◌≡◌ {A = Result SignError AuthenticatedMessage} (err signing_failed) (ok m) → ⊥
      clash e = cc

  -- What an accepted message shows.
  abbrev pub Accepted : AuthenticatedMessage → A → Type ℓ
  Accepted msg payload =
      (g.verify msg.payload msg.signature msg.public_key ≡ some true)
      × ((s : NodeInformation) × (msg.sender ≡ some s)
          × (s.id ≡ format_as_hex_string c (hash_bytes c g msg.public_key)))
      × (w.decode msg.payload ≡ some payload)

  sender_is-true :
      (id : String) (o : Option NodeInformation)
      → sender_is c g w id o ≡ true
      → (s : NodeInformation) × (o ≡ some s) × (s.id ≡ id)
  sender_is-true id none e = absurd cc
  sender_is-true id (some s) e = (s, refl, (str_eq_iff s.id id).0 e)

  -- For any message, one of two cases holds. It is accepted: its signature verifies under the public
  -- key that it carries, it names a sender whose id is the hex text of the hash of that key, and the
  -- result is the decoded payload with the message itself. Or it is refused with an error.
  pub extract_and_verify_lem :
      (msg : AuthenticatedMessage)
      → ((payload : A) × (extract_and_verify c g w msg ≡ ok (payload, msg)) × Accepted msg payload)
        ⊎ ((bad : Status) × (extract_and_verify c g w msg ≡ err bad))
  unfolding extract_and_verify verify_signature
  extract_and_verify_lem msg =
      elim (Option-cases (g.verify msg.payload msg.signature msg.public_key)) [
        | inl e ↦ inr (signature_check_error, rw (e, extract_and_verify) refl)
        | inr (false, e) ↦ inr (invalid_signature, rw (e, extract_and_verify) refl)
        | inr (true, e) ↦
            elim (Bool-cases (
              sender_is c g w (format_as_hex_string c (hash_bytes c g msg.public_key))
                msg.sender)) [
                  | inr f ↦ inr (sender_mismatch, rw (e, extract_and_verify) (if_false _ _ f))
                  | inl t ↦ elim (Option-cases (w.decode msg.payload)) [
                    | inl d ↦
                        inr
                          (failed_to_decode, rw (e, extract_and_verify) (if_true _ _ t ∙ rw d refl))
                    | inr (payload, d) ↦ inl (
                      payload,
                      rw (e, extract_and_verify) (if_true _ _ t ∙ rw d refl),
                      (e, sender_is-true _ msg.sender t, d),
                    )
                  ]
                ]
      ]
