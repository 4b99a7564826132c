-- ===== src/Cluster/Election.antt =====
-- The election invariant: who voted for whom, and what a server and a packet say of it.
use raft_2pc_database.Prelude.{
  ℕ, ◌<◌, ◌==◌, ==_iff, ℤ, pos, minus_one, true, false, if◌then◌else◌, ◌≡◌, ◌≢◌, ◌⊎◌, inl, inr,
  refl, sym, ◌∙◌, arith, add_int, ◌≤ℤ◌, ◌<ℤ◌, eq_ℤ, eq_ℤ_iff, eq_of_parts, int32, ◌+ℤ◌, Option,
  none, some, ◌&&◌, Bool-cases,
}
use raft_2pc_database.Message.{RequestVoteReq, RequestVoteRsp}
use raft_2pc_database.RaftState.{RaftState, Role}
use raft_2pc_database.RequestVote
use raft_2pc_database.Server.{become_candidate}
use raft_2pc_database.Cluster.{Packet, request, response, Sent, Cluster, id_of}
use raft_2pc_database.Cluster.Quiet.{Quiet}

-- Who voted for whom in which term, over the whole run.
abbrev pub Votes : Type 0
Votes = ℕ → ℤ → Option ℕ

abbrev pub record_vote : Votes → ℕ → ℤ → ℕ → Votes
record_vote v i t c j u = if j == i && eq_ℤ u t then some c else v j u

module _ (cluster_id : ℕ) where
  -- What the votes say about one server.
  pub record Honest (votes : Votes) (i : ℕ) (s : RaftState) : Type 0 where
    pub unvoted : s.voted_for ≡ minus_one → votes i s.current_term ≡ none
    pub future : (t : ℤ) → s.current_term <ℤ t → votes i t ≡ none
    pub standing :
        s.role ≡ Role.candidate → (s.vote_granted_num ≡ pos 1) × (votes i s.current_term ≡ some i)
    pub elected :
        s.role ≡ Role.leader
        → (votes i s.current_term ≡ some i)
          × ((j : ℕ) × (j < 3) × (j ≢ i) × (votes j s.current_term ≡ some i))

  -- And about a packet: a request comes from a candidate to another server, a granted response
  -- from a server that has voted.
  abbrev pub Genuine : Votes → Packet → Type 0
  Genuine votes (request from to req) =
      (req.candidate_id ≡ id_of cluster_id from) × (from < 3) × (to < 3) × (to ≢ from)
  Genuine votes (response from to rsp) =
      (from < 3)
      × (to < 3)
      × (from ≢ to)
      × (rsp.vote_granted ≡ true → votes from rsp.term ≡ some to)

  pub record Inv (c : Cluster) : Type 0 where
    pub votes : Votes
    pub honest : (i : ℕ) → i < 3 → Honest votes i (c.server i)
    pub genuine : (p : Packet) → Sent p c.network → Genuine votes p

  -- A vote that was free before keeps all others.
  pub record Extends (votes votes' : Votes) : Type 0 where
    pub keeps : (i : ℕ) (t : ℤ) (c : ℕ) → votes i t ≡ some c → votes' i t ≡ some c

  pub record_vote-Extends :
      (votes : Votes) (i : ℕ) (t : ℤ) (c : ℕ)
      → votes i t ≡ none
      → Extends votes (record_vote votes i t c)
  record_vote-Extends votes i t c free = record {
    keeps = λ j u d h. ground (arith, eq_ℤ_iff u t, ==_iff j i);
  }

  pub Honest-Quiet :
      (votes : Votes) (i : ℕ) (s t : RaftState) → Honest votes i s → Quiet s t → Honest votes i t
  Honest-Quiet votes i s t h q = record {
    unvoted = λ e. elim (Bool-cases (eq_ℤ s.current_term t.current_term)) [
      | inl same ↦ ground (arith, h.unvoted, eq_ℤ_iff s.current_term t.current_term)
      | inr up ↦ h.future t.current_term (ground arith)
    ];
    future = λ u lt. h.future u (ground arith);
    standing = λ e. ground (arith, h.standing);
    elected =
        λ e. elim q.role_down [ inl f ↦ cc | inr (r, term, num) ↦ rw term (h.elected (sym r ∙ e)) ];
  }

  pub Honest-Extends :
      (votes votes' : Votes) (i : ℕ) (s : RaftState)
      → Extends votes votes'
      → ((t : ℤ) → votes' i t ≡ votes i t)
      → Honest votes i s
      → Honest votes' i s
  Honest-Extends votes votes' i s ext alike h = record {
    unvoted = λ e. alike s.current_term ∙ h.unvoted e;
    future = λ u lt. alike u ∙ h.future u lt;
    standing = λ e. let (one, self) = h.standing e in (one, ext.keeps _ _ _ self);
    elected = λ e.
        let (self, other) = h.elected e in
        (ext.keeps _ _ _ self, (other.0, other.1, other.2, ext.keeps _ _ _ other.3));
  }

  pub Genuine-Extends :
      (votes votes' : Votes) (p : Packet)
      → Extends votes votes'
      → Genuine votes p
      → Genuine votes' p
  Genuine-Extends votes votes' (request from to req) ext g = g
  Genuine-Extends votes votes' (response from to rsp) ext (a, b, ne, v) =
      (a, b, ne, λ granted. ext.keeps _ _ _ (v granted))

  -- A server that becomes a candidate votes for itself.
  pub become_candidate-Honest :
      (votes : Votes) (i : ℕ) (s : RaftState)
      → s.current_term <ℤ add_int s.current_term (pos 1)
      → Honest votes i s
      → Honest
          (record_vote votes i (add_int s.current_term (pos 1)) i)
          i
          (become_candidate (id_of cluster_id i) s)
  unfolding become_candidate
  become_candidate-Honest votes i s up h = record {
    unvoted = λ e. ground arith;
    future = λ u lt. ground (arith, h.future u);
    standing = λ e.
        ground (arith, eq_ℤ_iff (add_int s.current_term (pos 1)) (add_int s.current_term (pos 1)));
    elected = λ e. cc;
  }

  -- The three ways through `RequestVoteExecutor::executeReq`.
  pub answer_cases :
      (req : RequestVoteReq) (s : RaftState)
      → let (t, rsp) = RequestVote.answer req s in
        ((rsp.vote_granted ≡ false) × (t ≡ s))
        ⊎ ((rsp.vote_granted ≡ true)
            × (rsp.term ≡ t.current_term)
            × (t.role ≡ Role.follower)
            × (t.voted_for ≡ req.candidate_id)
            × ((s.current_term <ℤ t.current_term)
                ⊎ ((t.current_term ≡ s.current_term) × (s.voted_for ≡ minus_one))))
  unfolding RequestVote.answer
  answer_cases req s =
      ground (arith, eq_ℤ_iff s.voted_for minus_one, eq_of_parts req.term s.current_term)

  -- A granted vote was free.
  pub vote_free :
      (votes : Votes) (i : ℕ) (s t : RaftState)
      → Honest votes i s
      → (s.current_term <ℤ t.current_term)
        ⊎ ((t.current_term ≡ s.current_term) × (s.voted_for ≡ minus_one))
      → votes i t.current_term ≡ none
  vote_free votes i s t h (inl up) = h.future t.current_term up
  vote_free votes i s t h (inr (same, unvoted)) = rw same (h.unvoted unvoted)

  pub voter-Honest :
      (votes : Votes) (i from : ℕ) (s t : RaftState)
      → Honest votes i s
      → t.role ≡ Role.follower
      → t.voted_for ≡ id_of cluster_id from
      → s.current_term ≤ℤ t.current_term
      → Honest (record_vote votes i t.current_term from) i t
  voter-Honest votes i from s t h follower voted up = record {
    unvoted = λ e. ground arith;
    future = λ u lt. ground (arith, h.future u);
    standing = λ e. cc;
    elected = λ e. cc;
  }

  receive_vote_cases :
      (rsp : RequestVoteRsp) (s : RaftState)
      → (RequestVote.receive_vote rsp s ≡ s)
        ⊎ ((s.role ≡ Role.candidate)
            × (rsp.term ≡ s.current_term)
            × (rsp.vote_granted ≡ true)
            × (RequestVote.receive_vote rsp s ≡ RequestVote.count_vote s))
  unfolding RequestVote.receive_vote
  receive_vote_cases rsp s = ground (arith, eq_ℤ_iff rsp.term s.current_term)

  -- A candidate has one vote, its own: the first that is counted makes it the leader.
  count_vote_lem :
      (s : RaftState)
      → s.vote_granted_num ≡ pos 1
      → let t = RequestVote.count_vote s in
        (t.role ≡ Role.leader) × (t.current_term ≡ s.current_term) × (t.voted_for ≡ s.voted_for)
  unfolding RequestVote.count_vote int32 ◌+ℤ◌
  count_vote_lem s one = rw one (refl, refl, refl)

  count_vote-Honest :
      (votes : Votes) (i from : ℕ) (s : RaftState)
      → from < 3
      → from ≢ i
      → votes from s.current_term ≡ some i
      → s.role ≡ Role.candidate
      → Honest votes i s
      → Honest votes i (RequestVote.count_vote s)
  count_vote-Honest votes i from s small ne vote role h =
      let (one, self) = h.standing role in
      let (leads, term, voted) = count_vote_lem s one in
      record {
        unvoted = λ e. rw term (h.unvoted (sym voted ∙ e));
        future = λ u lt. h.future u (rw term at lt);
        standing = λ e. cc;
        elected = λ e. rw term (self, (from, small, ne, vote));
      }

  step_down-Quiet : (term : ℤ) (s : RaftState) → Quiet s (RequestVote.step_down term s)
  unfolding RequestVote.step_down
  step_down-Quiet term s = ground arith

  -- A response that is counted makes a candidate the leader; any other raises the term at most.
  pub counted-Honest :
      (votes : Votes) (i from : ℕ) (rsp : RequestVoteRsp) (s : RaftState)
      → Genuine votes (response from i rsp)
      → Honest votes i s
      → Honest votes i (RequestVote.step_down rsp.term (RequestVote.receive_vote rsp s))
  counted-Honest votes i from rsp s (small, _, ne, vote) h =
      Honest-Quiet votes i _ _
        (elim (receive_vote_cases rsp s) [
          | inl unchanged ↦ rw unchanged h
          | inr (role, term, granted, counted) ↦
              rw counted
                (count_vote-Honest votes i from s small ne (rw term at (vote granted)) role h)
        ])
        (step_down-Quiet rsp.term (RequestVote.receive_vote rsp s))
