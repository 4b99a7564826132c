-- ===== src/Tests/Elections.antt =====
-- One election of cluster 0: server 0 asks, server 1 votes, and server 0 is leader.
use raft_2pc_database.Prelude.{ℕ, pos, minus_one, true, ◌≡◌, refl, ◌↔◌, arith, int32, ◌+ℤ◌}
use raft_2pc_database.Command.Decimal.{decimal_fmt}
use raft_2pc_database.DataShard.{load_data_shard, read_file}
use raft_2pc_database.Message.{RequestVoteReq, RequestVoteRsp}
use raft_2pc_database.RaftState
use raft_2pc_database.RaftState.{RaftState, Role, lastlogindex, lastlogterm}
use raft_2pc_database.RequestVote
use raft_2pc_database.Server.{become_candidate, vote_req}
use raft_2pc_database.RequestVote.Voting.{MayVote, answer_grants}
use raft_2pc_database.Cluster.{Reach, Cluster, start, next, elect, vote, count, first}
use raft_2pc_database.Cluster.Safety.{election_safety}
use raft_2pc_database.Tests.Inputs.{no_json, empty_disk}

abbrev first_state : RaftState
first_state = RaftState.init (pos 0) (pos 0)

abbrev first_req : RequestVoteReq
first_req = record {
  candidate_id = pos 0;
  term = pos 1;
  last_log_index = minus_one;
  last_log_term = minus_one;
}

abbrev first_rsp : RequestVoteRsp
first_rsp = record { term = pos 1; vote_granted = true }

elected :
    (c : Cluster) × Reach decimal_fmt no_json 0 empty_disk c
    × ((c.server 0).role ≡ Role.leader)
    × ((c.server 0).current_term ≡ pos 1)
unfolding load_data_shard read_file RaftState.init become_candidate vote_req lastlogindex
    lastlogterm RequestVote.answer RequestVote.receive_vote RequestVote.step_down int32 ◌+ℤ◌
elected = (
  _,
  next
      (next (next start (elect 0 (omega arith) (ground arith) (omega arith)))
        (vote 0 1 first_req (first refl)))
      (count 1 0 first_rsp (first refl)),
  refl,
  refl,
)

abbrev leader_index : ℕ
leader_index = 0

election_safety_example : leader_index ≡ leader_index
election_safety_example =
    election_safety decimal_fmt no_json 0 empty_disk elected.1 leader_index leader_index
      (omega arith) (omega arith) elected.2 elected.2 refl

answer_grants_example :
    ((RequestVote.answer first_req first_state).1.vote_granted ≡ true)
    ↔ MayVote first_req first_state
answer_grants_example = answer_grants first_req first_state

abbrev voted_state : RaftState
voted_state = record first_state { current_term = pos 1; voted_for = pos 2 }
