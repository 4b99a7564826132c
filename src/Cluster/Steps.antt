-- ===== src/Cluster/Steps.antt =====
-- A new candidate, and a server that answers a vote request, in the election invariant.
use raft_2pc_database.Prelude.{
  ℕ, ◌<◌, ◌==◌, ==_iff, ℤ, pos, false, Bool-cases, ◌≡◌, ◌≢◌, ◌⊎◌, inl, inr, refl, sym, subst, ◌∙◌,
  minus_one, arith, some, List, [], ◌∷◌, add_int, ◌<ℤ◌,
}
use raft_2pc_database.Message.{RequestVoteReq, RequestVoteRsp}
use raft_2pc_database.RaftState.{RaftState, Role}
use raft_2pc_database.RequestVote
use raft_2pc_database.Server.{become_candidate, vote_req}
use raft_2pc_database.Cluster.{
  Packet, request, response, Sent, first, later, update, Cluster, request_to, requests, id_of,
}
use raft_2pc_database.Cluster.Election.{
  Votes, record_vote, Honest, Genuine, Inv, Extends, record_vote-Extends, Honest-Extends,
  Genuine-Extends, become_candidate-Honest, answer_cases, vote_free, voter-Honest,
}

pub Sent-nil : {p : Packet} → ¬ Sent p []
Sent-nil s = elim s [ ]

Sent-cons : {p q : Packet} {ps : List Packet} → Sent p (q ∷ ps) → (p ≡ q) ⊎ Sent p ps
Sent-cons (first e) = inl e
Sent-cons (later s) = inr s

Sent-request_to :
    (i : ℕ) (req : RequestVoteReq) (j : ℕ) (ps : List Packet) (p : Packet)
    → Sent p (request_to i req j ps)
    → ((j ≢ i) × (p ≡ request i j req)) ⊎ Sent p ps
Sent-request_to i req j ps p sent = elim (Bool-cases (j == i)) [
  | inl self ↦ inr (rw self at sent)
  | inr away ↦ elim (Sent-cons (rw away at sent)) [
    | inl e ↦ inl (ground arith, e)
    | inr old ↦ inr old
  ]
]

Sent-requests :
    (i : ℕ) (req : RequestVoteReq) (ps : List Packet) (p : Packet)
    → Sent p (requests i req ps)
    → ((j : ℕ) × (j < 3) × (j ≢ i) × (p ≡ request i j req)) ⊎ Sent p ps
Sent-requests i req ps p sent = elim (Sent-request_to i req 0 _ p sent) [
  | inl (ne, e) ↦ inl (0, omega arith, ne, e)
  | inr sent₁ ↦ elim (Sent-request_to i req 1 _ p sent₁) [
    | inl (ne, e) ↦ inl (1, omega arith, ne, e)
    | inr sent₂ ↦ elim (Sent-request_to i req 2 ps p sent₂) [
      | inl (ne, e) ↦ inl (2, omega arith, ne, e)
      | inr old ↦ inr old
    ]
  ]
]

record_vote_self : (votes : Votes) (i : ℕ) (t : ℤ) (c : ℕ) → record_vote votes i t c i t ≡ some c
record_vote_self votes i t c = ground arith

record_vote_ne :
    (votes : Votes) (i : ℕ) (t : ℤ) (c j : ℕ) (u : ℤ)
    → j ≢ i
    → record_vote votes i t c j u ≡ votes j u
record_vote_ne votes i t c j u ne = ground arith

module _ (cluster_id : ℕ) where
  pub update-Honest :
      (votes : Votes) (server : ℕ → RaftState) (i : ℕ) (s : RaftState)
      → ((j : ℕ) → j < 3 → j ≢ i → Honest cluster_id votes j (server j))
      → Honest cluster_id votes i s
      → (j : ℕ) → j < 3
      → Honest cluster_id votes j (update server i s j)
  update-Honest votes server i s others self j small = elim (Bool-cases (j == i)) [
    | inl same ↦ rw same (subst (λ k. Honest cluster_id votes k s) (sym ((==_iff j i).0 same)) self)
    | inr away ↦ rw away (others j small (ground arith))
  ]

  -- A server becomes a candidate.
  pub elect-Inv :
      (c : Cluster) (i : ℕ)
      → i < 3
      → (c.server i).current_term <ℤ add_int (c.server i).current_term (pos 1)
      → Inv cluster_id c
      → let s = become_candidate (id_of cluster_id i) (c.server i) in
        Inv cluster_id (record {
          server = update c.server i s;
          network = requests i (vote_req (id_of cluster_id i) s) c.network;
        })
  elect-Inv c i small up inv =
      let s = c.server i in
      let term = add_int s.current_term (pos 1) in
      let votes' = record_vote inv.votes i term i in
      let ext =
        record_vote-Extends cluster_id inv.votes i term i ((inv.honest i small).future term up) in
      record {
        votes = votes';
        honest =
            update-Honest votes' c.server i (become_candidate (id_of cluster_id i) s)
              (λ j lt ne.
                Honest-Extends cluster_id inv.votes votes' j (c.server j) ext
                  (λ u. record_vote_ne inv.votes i term i j u ne) (inv.honest j lt))
              (become_candidate-Honest cluster_id inv.votes i s up (inv.honest i small));
        genuine = λ p sent.
            elim (Sent-requests i (vote_req (id_of cluster_id i) _) c.network p sent) [
              | inl (j, lt, ne, e) ↦
                  subst (Genuine cluster_id votes') (sym e)
                    (unfold vote_req in (refl, small, lt, ne))
              | inr old ↦ Genuine-Extends cluster_id inv.votes votes' p ext (inv.genuine p old)
            ];
      }

  -- The network with one more response.
  response-Genuine :
      (votes votes' : Votes) (from to : ℕ) (rsp : RequestVoteRsp) (ps : List Packet)
      → Extends cluster_id votes votes'
      → ((p : Packet) → Sent p ps → Genuine cluster_id votes p)
      → Genuine cluster_id votes' (response from to rsp)
      → (p : Packet) → Sent p (response from to rsp ∷ ps)
      → Genuine cluster_id votes' p
  response-Genuine votes votes' from to rsp ps ext old new p sent = elim (Sent-cons sent) [
    | inl e ↦ subst (Genuine cluster_id votes') (sym e) new
    | inr before ↦ Genuine-Extends cluster_id votes votes' p ext (old p before)
  ]

  -- A server answers a vote request: it refuses and stays as it was, or it votes.
  module _ (c : Cluster) (from to : ℕ) (req : RequestVoteReq) (inv : Inv cluster_id c) where
    abbrev voter : RaftState
    voter = c.server to

    abbrev after : RaftState × RequestVoteRsp
    after = RequestVote.answer req voter

    abbrev answered : Cluster
    answered = record {
      server = update c.server to after.0;
      network = response to from after.1 ∷ c.network;
    }

    refuse-Inv :
        from < 3
        → to < 3
        → to ≢ from
        → after.1.vote_granted ≡ false
        → after.0 ≡ voter
        → Inv cluster_id answered
    refuse-Inv from_lt to_lt ne refused unchanged = record {
      votes = inv.votes;
      honest =
          update-Honest inv.votes c.server to after.0 (λ j lt _. inv.honest j lt)
            (subst (Honest cluster_id inv.votes to) (sym unchanged) (inv.honest to to_lt));
      genuine =
          response-Genuine inv.votes inv.votes to from after.1 c.network
            (record { keeps = λ i t d h. h }) inv.genuine (to_lt, from_lt, ne, λ granted. cc);
    }

    grant-Inv :
        from < 3
        → to < 3
        → to ≢ from
        → after.1.term ≡ after.0.current_term
        → after.0.role ≡ Role.follower
        → after.0.voted_for ≡ id_of cluster_id from
        → (voter.current_term <ℤ after.0.current_term)
          ⊎ ((after.0.current_term ≡ voter.current_term) × (voter.voted_for ≡ minus_one))
        → Inv cluster_id answered
    grant-Inv from_lt to_lt ne term follower voted fresh =
        let t = after.0.current_term in
        let votes' = record_vote inv.votes to t from in
        let free = vote_free cluster_id inv.votes to voter after.0 (inv.honest to to_lt) fresh in
        let ext = record_vote-Extends cluster_id inv.votes to t from free in
        record {
          votes = votes';
          honest =
              update-Honest votes' c.server to after.0
                (λ j lt away.
                  Honest-Extends cluster_id inv.votes votes' j (c.server j) ext
                    (λ u. record_vote_ne inv.votes to t from j u away) (inv.honest j lt))
                (voter-Honest cluster_id inv.votes to from voter after.0 (inv.honest to to_lt)
                  follower voted (ground arith));
          genuine =
              response-Genuine inv.votes votes' to from after.1 c.network ext inv.genuine
                (to_lt, from_lt, ne, λ granted. rw term (record_vote_self inv.votes to t from));
        }

    pub vote-Inv : Genuine cluster_id inv.votes (request from to req) → Inv cluster_id answered
    vote-Inv (candidate, from_lt, to_lt, ne) = elim (answer_cases cluster_id req voter) [
      | inl (refused, unchanged) ↦ refuse-Inv from_lt to_lt ne refused unchanged
      | inr (granted, term, follower, voted, fresh) ↦
          grant-Inv from_lt to_lt ne term follower (voted ∙ candidate) fresh
    ]
