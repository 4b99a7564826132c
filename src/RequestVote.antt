-- ===== src/RequestVote.antt =====
-- RequestVoteExecutor (server/src/excutor/requestVoteExecutor.cpp).
pub mod Voting
use raft_2pc_database.Prelude.{
  ℕ, ℤ, pos, minus_one, Bool, true, false, if◌then◌else◌, ◌&&◌, ◌||◌, ltb_ℤ, leb_ℤ, eq_ℤ, add_int,
  int32, length, replicate,
}
use raft_2pc_database.Message.{RequestVoteReq, RequestVoteRsp, WrapperMessage}
use raft_2pc_database.Aio.{AioCall}
use raft_2pc_database.RaftState.{RaftState, Role, lastlogindex, log_size}
use raft_2pc_database.World.{World, respond, with_raft, issue}

-- The first test of `executeReq`: an out-of-date term, or the same term and no longer log.
unfoldable pub is_rejected : RequestVoteReq → RaftState → Bool
is_rejected req s =
    ltb_ℤ req.term s.current_term
    || eq_ℤ req.term s.current_term && leb_ℤ req.last_log_index (lastlogindex s)

-- `if (req.term() > current_term_)`: the new term begins with no vote.
unfoldable pub update_term : RequestVoteReq → RaftState → RaftState
update_term req s =
    if ltb_ℤ s.current_term req.term
    then record s { current_term = req.term; voted_for = minus_one }
    else s

unfoldable pub grant_vote : RequestVoteReq → RaftState → RaftState
grant_vote req s = record s {
  voted_for = req.candidate_id;
  role = Role.follower;
  heard_heart_beat = true;
}

-- The state and the response of `executeReq`.
unfoldable pub answer : RequestVoteReq → RaftState → RaftState × RequestVoteRsp
unfolding is_rejected update_term grant_vote
answer req s =
    if is_rejected req s
    then (s, record { term = s.current_term; vote_granted = false })
    else let s₁ = update_term req s in
      if eq_ℤ s₁.voted_for minus_one
      then (grant_vote req s₁, record { term = s₁.current_term; vote_granted = true })
      else (s₁, record { term = s₁.current_term; vote_granted = false })

unfoldable pub execute_req : ℤ → RequestVoteReq → World → World
unfolding answer
execute_req client_socket req w =
    let (s, rsp) = answer req w.raft in
    respond client_socket (WrapperMessage.request_vote_rsp rsp) (with_raft s w)

-- A granted vote of the current term is counted; with two votes the candidate becomes leader.
unfoldable pub count_vote : RaftState → RaftState
count_vote s =
    let votes = add_int s.vote_granted_num (pos 1) in
    if leb_ℤ (pos 2) votes
    then record s {
      vote_granted_num = votes;
      role = Role.leader;
      matched_log_size = replicate 3 (log_size s);
    }
    else record s { vote_granted_num = votes }

-- The first `if` of `executeRsp`.
unfoldable pub receive_vote : RequestVoteRsp → RaftState → RaftState
unfolding count_vote
receive_vote rsp s = elim s.role [
  | Role.candidate ↦ if eq_ℤ rsp.term s.current_term && rsp.vote_granted then count_vote s else s
  | _ ↦ s
]

-- The second: a newer term makes the server a follower.
unfoldable pub step_down : ℤ → RaftState → RaftState
step_down term s =
    if ltb_ℤ s.current_term term then record s { current_term = term; role = Role.follower } else s

unfoldable pub execute_rsp : ℤ → RequestVoteRsp → World → World
unfolding receive_vote step_down
execute_rsp client_socket rsp w =
    issue (AioCall.close client_socket) (with_raft (step_down rsp.term (receive_vote rsp w.raft)) w)
