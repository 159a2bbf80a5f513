-- ===== src/Rpc/Server/Challenges.antt =====
-- g_rpc/server.rs: the challenges of the nodes that join, as a function from ids to challenges.
use mathlib.Core.Path.{fun_ext}
use kademlia_blockchain_auct.Prelude.{
  ℕ, ◌≡◌, refl, ap, sym, ◌∙◌, String, Option, none, some, Option-cases, Bool, false, str_eq,
  str_eq_iff, if◌then◌else◌, inl, inr, Bool-cases,
}
use kademlia_blockchain_auct.Prelude.Int.{ℤ, add_i64}
use kademlia_blockchain_auct.Prelude.Sync.{done}
use kademlia_blockchain_auct.Prelude.Result.{ok}
use kademlia_blockchain_auct.Prelude.Assoc.{get, insert, remove, get-insert, get-remove}
use kademlia_blockchain_auct.Prelude.Exec.{lift, ◌>>=◌}
use kademlia_blockchain_auct.Signed.{AuthenticatedMessage}
use kademlia_blockchain_auct.Rpc.Message.{Libraries, BootstrapRequest, ChallengeResolutionRequest}
use kademlia_blockchain_auct.Rpc.Server.{Challenge, SKademliaServer, Received, receive, reply}
use kademlia_blockchain_auct.Rpc.Server.Handshake.{
  accepts, ten_minutes, save_challenge, bootstrap, resolve, resolve-none, resolve-some,
  challenge_resolution,
}

-- The challenge that waits for each id.
abbrev pub Pending : Type 0
Pending = String → Option Challenge

abbrev pub pending : {N : Type 0} → SKademliaServer N → Pending
pending s id = get id s.challenges_map

-- What the handshake promises: a new challenge takes the place of the old one, and a solution uses
-- the challenge up, whether it is accepted or not.
unfoldable pub issue : String → Challenge → Pending → Pending
issue id challenge p k = if str_eq id k then some challenge else p k

unfoldable pub settle : String → Pending → Pending
settle id p k = if str_eq id k then none else p k

-- Whether the solution is good.
unfoldable pub judge : Libraries → ℤ → String → ℕ → Pending → Bool
unfolding accepts
judge l now id nonce p = elim (p id) [
  | none ↦ false
  | some challenge ↦ accepts l.crates now challenge nonce
]

module _ (l : Libraries) {N : Type 0} where
  settle-pending :
      (s : SKademliaServer N) (id : String)
      → pending s id ≡ none
      → pending s ≡ settle id (pending s)
  unfolding settle
  settle-pending s id e = fun_ext (λ k. elim (Bool-cases (str_eq id k)) [
    | inl same ↦ rw same (ap (pending s) (sym ((str_eq_iff id k).0 same)) ∙ e)
    | inr other ↦ rw other refl
  ])

  resolve_lem :
      (s : SKademliaServer N) (now : ℤ) (q : Received ChallengeResolutionRequest)
      → (s' : SKademliaServer N) × (resolve l now q s
          ≡ done (ok (judge l now q.sender_proto.id q.payload.nonce (pending s)), s'))
        × (pending s' ≡ settle q.sender_proto.id (pending s))
        × (s'.state ≡ s.state)
        × (s'.net ≡ s.net)
  unfolding settle judge
  resolve_lem s now q =
      let id = q.sender_proto.id in
      elim (Option-cases (get id s.challenges_map)) [
        | inl e ↦ (s, rw (e, judge) (resolve-none l now q s e), settle-pending s id e, refl, refl)
        | inr (challenge, e) ↦ (
          record s { challenges_map = remove id s.challenges_map },
          rw (e, judge) (resolve-some l now q challenge s e),
          fun_ext (λ k. get-remove k id s.challenges_map),
          refl,
          refl,
        )
      ]

  abbrev pub new_challenge : ℕ → ℤ → SKademliaServer N → Challenge
  new_challenge hash now s = record {
    hash = hash;
    difficulty = s.state.node.config.challenge_difficulty;
    expiration = add_i64 now ten_minutes;
  }

  pub challenge_resolution_lem :
      (s : SKademliaServer N) (now : ℤ) (message : AuthenticatedMessage)
      (q : Received ChallengeResolutionRequest)
      → receive l l.wires.challenge_resolution_request message ≡ ok q
      → (s' : SKademliaServer N) × (challenge_resolution l now message s
          ≡ reply l l.wires.challenge_resolution_response
              (record { accepted = judge l now q.sender_proto.id q.payload.nonce (pending s) })
              s')
        × (pending s' ≡ settle q.sender_proto.id (pending s))
        × (s'.state ≡ s.state)
        × (s'.net ≡ s.net)
  unfolding challenge_resolution ◌>>=◌ lift
  challenge_resolution_lem s now message q f =
      let (s', done_s', p, state, net) = resolve_lem s now q in
      (s', rw (f, challenge_resolution, done_s') refl, p, state, net)

  -- The two handlers, with the server that they leave written out.
  abbrev pub after_bootstrap : ℕ → ℤ → String → SKademliaServer N → SKademliaServer N
  after_bootstrap hash now id s = record s {
    challenges_map = insert id (new_challenge hash now s) s.challenges_map;
  }

  pub bootstrap-reply :
      (s : SKademliaServer N) (now : ℤ) (hash : ℕ) (message : AuthenticatedMessage)
      (r : Received BootstrapRequest)
      → receive l l.wires.bootstrap_request message ≡ ok r
      → bootstrap l hash now message s
        ≡ reply l l.wires.bootstrap_response
            (record {
              hash = l.crates.u256_to_string hash;
              difficulty = s.state.node.config.challenge_difficulty;
            })
            (after_bootstrap hash now r.sender_proto.id s)
  unfolding bootstrap save_challenge ◌>>=◌ lift
  bootstrap-reply s now hash message r e = rw (e, bootstrap) refl

  abbrev pub after_resolution : String → SKademliaServer N → SKademliaServer N
  after_resolution id s = record s { challenges_map = remove id s.challenges_map }

  pub challenge_resolution-reply :
      (s : SKademliaServer N) (now : ℤ) (message : AuthenticatedMessage)
      (q : Received ChallengeResolutionRequest) (challenge : Challenge)
      → receive l l.wires.challenge_resolution_request message ≡ ok q
      → pending s q.sender_proto.id ≡ some challenge
      → challenge_resolution l now message s
        ≡ reply l l.wires.challenge_resolution_response
            (record { accepted = accepts l.crates now challenge q.payload.nonce })
            (after_resolution q.sender_proto.id s)
  unfolding challenge_resolution ◌>>=◌ lift
  challenge_resolution-reply s now message q challenge f waits =
      let resolved : resolve l now q s
          ≡ done (
            ok (accepts l.crates now challenge q.payload.nonce),
            after_resolution q.sender_proto.id s,
          ) =
        resolve-some l now q challenge s waits in
      rw (f, challenge_resolution, resolved) refl

  pub bootstrap_lem :
      (s : SKademliaServer N) (now : ℤ) (hash : ℕ) (message : AuthenticatedMessage)
      (r : Received BootstrapRequest)
      → receive l l.wires.bootstrap_request message ≡ ok r
      → (s' : SKademliaServer N) × (bootstrap l hash now message s
          ≡ reply l l.wires.bootstrap_response
              (record {
                hash = l.crates.u256_to_string hash;
                difficulty = s.state.node.config.challenge_difficulty;
              })
              s')
        × (pending s' ≡ issue r.sender_proto.id (new_challenge hash now s) (pending s))
        × (s'.state ≡ s.state)
        × (s'.net ≡ s.net)
  unfolding bootstrap save_challenge ◌>>=◌ lift issue
  bootstrap_lem s now hash message r e = (
    record s {
      challenges_map = insert r.sender_proto.id (new_challenge hash now s) s.challenges_map;
    },
    rw (e, bootstrap) refl,
    fun_ext (λ k. get-insert k r.sender_proto.id (new_challenge hash now s) s.challenges_map),
    refl,
    refl,
  )
