-- ===== src/Rpc/Server/Waiting.antt =====
-- g_rpc/server.rs: what becomes of a challenge while other requests are served.
use mathlib.Core.Path.{subst}
use kademlia_blockchain_auct.Prelude.{
  ℕ, ◌≡◌, refl, ap, sym, ◌∙◌, String, List, Option, none, some, true, false, All, All-map, str_eq,
  str_eq_iff, if_true, if_false, inl, inr, Bool-cases,
}
use kademlia_blockchain_auct.Prelude.Int.{ℤ, add_i64, ltb_ℤ}
use kademlia_blockchain_auct.Prelude.Sync.{done}
use kademlia_blockchain_auct.Prelude.Result.{Result, ok}
use kademlia_blockchain_auct.Prelude.Assoc.{get, insert, remove, get-insert, get-remove, str_ne}
use kademlia_blockchain_auct.Crates.{CratesLaws}
use kademlia_blockchain_auct.Crypto.{solves}
use kademlia_blockchain_auct.Node.{State}
use kademlia_blockchain_auct.Node.Sound.{Sound-start}
use kademlia_blockchain_auct.Signed.{AuthenticatedMessage}
use kademlia_blockchain_auct.Rpc.Message.{Libraries, BootstrapRequest, ChallengeResolutionRequest}
use kademlia_blockchain_auct.Rpc.Call.{Network, to_bootstrap, to_challenge_resolution}
use kademlia_blockchain_auct.Rpc.Server.{
  Challenge, SKademliaServer, HandlerError, Received, receive, reply,
}
use kademlia_blockchain_auct.Rpc.Server.Handshake.{
  accepts, ten_minutes, bootstrap, challenge_resolution,
}
use kademlia_blockchain_auct.Rpc.Server.Serve.{Request, serve}
use kademlia_blockchain_auct.Rpc.Server.Join.{Allows}
use kademlia_blockchain_auct.Rpc.Server.Run.{IsSoundNode, serve-Good}
use kademlia_blockchain_auct.Rpc.Server.Challenges.{
  Pending, pending, issue, judge, new_challenge, bootstrap_lem, challenge_resolution_lem,
}

module _ (l : Libraries) {N : Type 0} (network : Network N) (laws : CratesLaws l.crates)
    (id : String) where
  -- The request does not change what waits for the id.
  abbrev pub NoBootstrap : Request → Type 0
  NoBootstrap r =
      (received : Received BootstrapRequest)
      → r.method ≡ to_bootstrap
      → receive l l.wires.bootstrap_request r.message ≡ ok received
      → ¬ (received.sender_proto.id ≡ id)

  abbrev pub NoResolution : Request → Type 0
  NoResolution r =
      (received : Received ChallengeResolutionRequest)
      → r.method ≡ to_challenge_resolution
      → receive l l.wires.challenge_resolution_request r.message ≡ ok received
      → ¬ (received.sender_proto.id ≡ id)

  Waiting : Option Challenge → List (String × Challenge) → Type 0
  Waiting o m = get id m ≡ o

  Waiting-insert :
      (o : Option Challenge) (k : String) (challenge : Challenge) (m : List (String × Challenge))
      → ¬ (k ≡ id)
      → Waiting o m
      → Waiting o (insert k challenge m)
  unfolding Waiting
  Waiting-insert o k challenge m ne h =
      get-insert id k challenge m ∙ if_false _ _ (str_ne k id ne) ∙ h

  Waiting-remove :
      (o : Option Challenge) (k : String) (m : List (String × Challenge))
      → ¬ (k ≡ id)
      → Waiting o m
      → Waiting o (remove k m)
  unfolding Waiting
  Waiting-remove o k m ne h = get-remove id k m ∙ if_false _ _ (str_ne k id ne) ∙ h

  Waiting-remove_fresh :
      (k : String) (m : List (String × Challenge)) → Waiting none m → Waiting none (remove k m)
  unfolding Waiting
  Waiting-remove_fresh k m h = elim (Bool-cases (str_eq k id)) [
    | inl e ↦ get-remove id k m ∙ if_true _ _ e
    | inr e ↦ get-remove id k m ∙ if_false _ _ e ∙ h
  ]

  Allows-NoBootstrap : (r : Request) → NoBootstrap r → Allows l (Waiting none) r
  Allows-NoBootstrap r fresh = record {
    adds = λ received e f challenge m h. Waiting-insert none _ challenge m (fresh received e f) h;
    drops = λ received e f m h. Waiting-remove_fresh _ m h;
  }

  Allows-Waiting :
      (o : Option Challenge) (r : Request) → NoBootstrap r → NoResolution r → Allows l (Waiting o) r
  Allows-Waiting o r fresh apart = record {
    adds = λ received e f challenge m h. Waiting-insert o _ challenge m (fresh received e f) h;
    drops = λ received e f m h. Waiting-remove o _ m (apart received e f) h;
  }

  -- If no challenge waits for an id, as in a new server or right after a solution was judged, and then
  -- any requests are served of which none is a verified bootstrap request of that id, a verified
  -- solution of that id is not accepted, whatever its nonce and the time.
  pub challenge_resolution-unissued :
      (requests : List Request) (s : SKademliaServer N) (now : ℤ) (message : AuthenticatedMessage)
      (q : Received ChallengeResolutionRequest)
      → IsSoundNode l network laws s.state
      → s.state.node.routing_table.table.poisoned ≡ false
      → pending s id ≡ none
      → All NoBootstrap requests
      → receive l l.wires.challenge_resolution_request message ≡ ok q
      → q.sender_proto.id ≡ id
      → (answers : List (Result HandlerError AuthenticatedMessage)) × (s1 s2 : SKademliaServer N)
        × (serve l network requests s ≡ done (answers, s1))
        × (challenge_resolution l now message s1
            ≡ reply l l.wires.challenge_resolution_response (record { accepted = false }) s2)
  unfolding judge Waiting
  challenge_resolution-unissued requests s now message q h healthy none_waits fresh e same =
      let (answers, s1, e1, _, good) =
        serve-Good l network laws s.state (Waiting none) requests s
          (All-map Allows-NoBootstrap requests fresh)
          (Sound-start _ _ _ _ s.state h healthy, none_waits) in
      let (s2, e2, _, _, _) = challenge_resolution_lem l s1 now message q e in
      let refused : judge l now q.sender_proto.id q.payload.nonce (pending s1) ≡ false =
        rw same (rw (good.1, judge) refl) in
      (
        answers,
        s1,
        s2,
        e1,
        e2
            ∙ ap (λ b. reply l l.wires.challenge_resolution_response (record { accepted = b }) s2)
                refused,
      )

  -- The whole handshake: the server gets a verified bootstrap request of an id and then serves any
  -- requests of which none is a verified bootstrap request or solution of that id. If the id then
  -- sends, before the challenge expires, a verified nonce that solves it at the configured
  -- difficulty, the server replies that the nonce is accepted.
  pub challenge_resolution-bootstrap :
      (requests : List Request) (s : SKademliaServer N) (start now : ℤ) (hash : ℕ)
      (first second : AuthenticatedMessage) (r : Received BootstrapRequest)
      (q : Received ChallengeResolutionRequest)
      → IsSoundNode l network laws s.state
      → s.state.node.routing_table.table.poisoned ≡ false
      → receive l l.wires.bootstrap_request first ≡ ok r
      → r.sender_proto.id ≡ id
      → All (λ request. NoBootstrap request × NoResolution request) requests
      → receive l l.wires.challenge_resolution_request second ≡ ok q
      → q.sender_proto.id ≡ id
      → ltb_ℤ (add_i64 start ten_minutes) now ≡ false
      → solves l.crates
          (l.crates.u256_to_string hash)
          s.state.node.config.challenge_difficulty
          q.payload.nonce
        ≡ true
      → (answers : List (Result HandlerError AuthenticatedMessage)) × (s1 s2 s3 : SKademliaServer N)
        × (bootstrap l hash start first s
            ≡ reply l l.wires.bootstrap_response
                (record {
                  hash = l.crates.u256_to_string hash;
                  difficulty = s.state.node.config.challenge_difficulty;
                })
                s1)
        × (serve l network requests s1 ≡ done (answers, s2))
        × (challenge_resolution l now second s2
            ≡ reply l l.wires.challenge_resolution_response (record { accepted = true }) s3)
  unfolding judge accepts solves issue Waiting
  challenge_resolution-bootstrap requests s start now hash first second r q h healthy e is_id apart
        f is_id' in_time solved =
      let (s1, e1, p1, same, _) = bootstrap_lem l s start hash first r e in
      let challenge = new_challenge l hash start s in
      let issued : get id s1.challenges_map ≡ some challenge =
        ap (λ (p : Pending). p id) p1 ∙ if_true _ _ ((str_eq_iff r.sender_proto.id id).1 is_id) in
      let (answers, s2, e2, _, good) =
        serve-Good l network laws s1.state (Waiting (some challenge)) requests s1
          (All-map (λ r fresh. Allows-Waiting (some challenge) r fresh.0 fresh.1) requests apart)
          (
            Sound-start _ _ _ _ s1.state (subst (IsSoundNode l network laws) (sym same) h)
                (ap (λ (t : State). t.node.routing_table.table.poisoned) same ∙ healthy),
            issued,
          ) in
      let (s3, e3, _, _, _) = challenge_resolution_lem l s2 now second q f in
      let accepted : judge l now q.sender_proto.id q.payload.nonce (pending s2) ≡ true =
        rw is_id' (rw (good.1, judge) (if_false _ _ in_time ∙ solved)) in
      (
        answers,
        s1,
        s2,
        s3,
        e1,
        e2,
        e3
            ∙ ap (λ b. reply l l.wires.challenge_resolution_response (record { accepted = b }) s3)
                accepted,
      )
