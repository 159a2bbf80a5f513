-- ===== src/Rpc/Server/Promise.antt =====
-- g_rpc/server.rs: what the handshake promises, in terms of the abstract challenges.
use mathlib.Core.Path.{subst}
use mathlib.Core.Option.{some-injective}
use kademlia_blockchain_auct.Prelude.{
  ℕ, ◌≡◌, refl, sym, ◌∙◌, String, none, some, Option-cases, Bool, false, true, ◌↔◌, inl, inr,
}
use kademlia_blockchain_auct.Prelude.Int.{ℤ}
use kademlia_blockchain_auct.Prelude.Result.{ok}
use kademlia_blockchain_auct.Crates.{CratesLaws}
use kademlia_blockchain_auct.Rpc.Server.Judge.{IsSolution, accepts_iff}
use kademlia_blockchain_auct.Signed.{AuthenticatedMessage}
use kademlia_blockchain_auct.Rpc.Message.{Libraries, BootstrapRequest, ChallengeResolutionRequest}
use kademlia_blockchain_auct.Rpc.Server.{Challenge, SKademliaServer, Received, receive, reply}
use kademlia_blockchain_auct.Rpc.Server.Handshake.{accepts, bootstrap, challenge_resolution}
use kademlia_blockchain_auct.Rpc.Server.Challenges.{
  Pending, pending, issue, settle, judge, new_challenge, bootstrap_lem, challenge_resolution_lem,
}

-- The id has a challenge that the nonce solves in time.
abbrev pub Solves : Libraries → ℤ → String → ℕ → Pending → Type 0
Solves l now id nonce p =
    (challenge : Challenge) × (p id ≡ some challenge) × IsSolution l.crates now challenge nonce

judge_iff :
    (l : Libraries) (laws : CratesLaws l.crates) (now : ℤ) (id : String) (nonce : ℕ) (p : Pending)
    → (judge l now id nonce p ≡ true) ↔ Solves l now id nonce p
unfolding judge
judge_iff l laws now id nonce p = elim (Option-cases (p id)) [
  | inl e ↦ (
    λ h. absurd (cc (sym (rejected e) ∙ h)),
    λ (challenge, waits, good). absurd (cc (sym e ∙ waits)),
  )
  | inr (challenge, e) ↦
      let (to, from) = accepts_iff l.crates laws now challenge nonce in
      (
        λ h. (challenge, e, to (sym (judged challenge e) ∙ h)),
        λ (other, waits, good).
            judged challenge e
            ∙ from (
                subst (λ x. IsSolution l.crates now x nonce)
                  (sym (some-injective challenge other (sym e ∙ waits))) good),
      )
]
  where
    rejected : p id ≡ none → judge l now id nonce p ≡ false
    rejected e = rw (e, judge) refl

    judged :
        (challenge : Challenge)
        → p id ≡ some challenge
        → judge l now id nonce p ≡ accepts l.crates now challenge nonce
    judged challenge e = rw (e, judge) refl

module _ (l : Libraries) {N : Type 0} where
  -- For any verified requests, the handlers of the handshake do what the abstract challenges say:
  -- `bootstrap` issues a challenge of the configured difficulty for ten minutes to the sender's id and
  -- replies with it; `challenge_resolution`, when no other handler runs between its two steps,
  -- replies that the solution is accepted exactly when the sender's id has a challenge, the time is
  -- not past its expiration, and the hash of its text and the nonce is below 2 ^ (256 - difficulty),
  -- and uses the challenge up in either case. No other part of the server changes.
  pub handshake_refines :
      (s : SKademliaServer N) (now : ℤ) (hash : ℕ) (first second : AuthenticatedMessage)
      (r : Received BootstrapRequest) (q : Received ChallengeResolutionRequest)
      → CratesLaws l.crates
      → receive l l.wires.bootstrap_request first ≡ ok r
      → receive l l.wires.challenge_resolution_request second ≡ ok q
      → ((s' : SKademliaServer N) × (bootstrap l hash now first s
            ≡ reply l l.wires.bootstrap_response
                (record {
                  hash = l.crates.u256_to_string hash;
                  difficulty = s.state.node.config.challenge_difficulty;
                })
                s')
          × (pending s' ≡ issue r.sender_proto.id (new_challenge l hash now s) (pending s))
          × (s'.state ≡ s.state)
          × (s'.net ≡ s.net))
        × ((accepted : Bool) × (s' : SKademliaServer N) × (challenge_resolution l now second s
              ≡ reply l l.wires.challenge_resolution_response (record { accepted = accepted }) s')
            × ((accepted ≡ true) ↔ Solves l now q.sender_proto.id q.payload.nonce (pending s))
            × (pending s' ≡ settle q.sender_proto.id (pending s))
            × (s'.state ≡ s.state)
            × (s'.net ≡ s.net))
  handshake_refines s now hash first second r q laws e f =
      let id = q.sender_proto.id in
      let (s', done_s', p, state, net) = challenge_resolution_lem l s now second q f in
      (
        bootstrap_lem l s now hash first r e,
        (
          judge l now id q.payload.nonce (pending s),
          s',
          done_s',
          judge_iff l laws now id q.payload.nonce (pending s),
          p,
          state,
          net,
        ),
      )
