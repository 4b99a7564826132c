-- ===== src/RequestVote/Voting.antt =====
-- When a server votes, and what the vote changes.
use raft_2pc_database.Prelude.{
  minus_one, true, false, ◌≡◌, ◌↔◌, ◌⊎◌, ◌≢◌, arith, ◌≤ℤ◌, ◌<ℤ◌, eq_of_parts, eq_ℤ_iff,
}
use raft_2pc_database.Message.{RequestVoteReq}
use raft_2pc_database.RaftState.{RaftState, lastlogindex}
use raft_2pc_database.RequestVote.{answer}

-- A candidate that a server which has not voted in the term would vote for.
abbrev pub MayVote : RequestVoteReq → RaftState → Type 0
MayVote req s =
    (s.current_term <ℤ req.term)
    ⊎ ((req.term ≡ s.current_term)
        × (lastlogindex s <ℤ req.last_log_index)
        × (s.voted_for ≡ minus_one))

-- A vote is granted for a newer term, whatever the candidate's log is, or in the current term to
-- a candidate with a larger last log index if the server has not voted; and in no other case.
pub answer_grants :
    (req : RequestVoteReq) (s : RaftState) → ((answer req s).1.vote_granted ≡ true) ↔ MayVote req s
unfolding answer
answer_grants req s = (
  λ granted. ground (arith, eq_of_parts req.term s.current_term, eq_ℤ_iff s.voted_for minus_one),
  λ may. ground (arith, eq_ℤ_iff s.voted_for minus_one),
)

-- Once a server has voted, a request of its term or an older one is not granted and changes
-- nothing.
pub answer_once :
    (req : RequestVoteReq) (s : RaftState)
    → s.voted_for ≢ minus_one
    → req.term ≤ℤ s.current_term
    → ((answer req s).1.vote_granted ≡ false) × ((answer req s).0 ≡ s)
unfolding answer
answer_once req s voted old = ground arith
