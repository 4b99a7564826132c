-- ===== src/Tests/Replays.antt =====
-- A follower and the abstract state machine of its commands.
use raft_2pc_database.Prelude.{pos, minus_one, refl, arith, ◌≤ℤ◌, ◌<ℤ◌, ◌-◌, drop}
use raft_2pc_database.RaftState
use raft_2pc_database.RaftState.{RaftState}
use raft_2pc_database.AppendEntries.StateMachine.{Balances, view, replay, Mirrors, committed_size}
use raft_2pc_database.AppendEntries.Refinement.{Agrees, answer-Mirrors}
use raft_2pc_database.AppendEntries.LeaderRefinement.{execute_rsp-Mirrors}
use raft_2pc_database.Tests.Inputs.{no_json}
use raft_2pc_database.Tests.Replications.{
  leading, granted, append_rsp, behind, append_req, answered, base_at_one,
}

-- The balances before the first commit.
abbrev at_start : Balances
at_start = view behind.local_balance_tb

behind-Mirrors : Mirrors at_start behind
unfolding RaftState.init replay
behind-Mirrors = refl

commit_ge : minus_one ≤ℤ behind.commit_index
unfolding RaftState.init
commit_ge = omega arith

commit_lt : behind.commit_index <ℤ pos 2
unfolding RaftState.init
commit_lt = omega arith

commit_up : behind.commit_index ≤ℤ append_req.commit_index
unfolding RaftState.init
commit_up = omega arith

behind-Agrees :
    Agrees (committed_size behind.commit_index - 1) append_req.entries (drop 1 behind.log)
unfolding RaftState.init
behind-Agrees = tt

answer-Mirrors_example : Mirrors at_start answered.0
answer-Mirrors_example =
    answer-Mirrors at_start append_req behind 1 (omega arith) commit_ge commit_lt commit_up
      (omega arith) base_at_one behind-Agrees behind-Mirrors answered.2

-- The same for the leader that is about to commit.
abbrev leader_start : Balances
leader_start = view leading.raft.local_balance_tb

leading-Mirrors : Mirrors leader_start leading.raft
unfolding RaftState.init replay
leading-Mirrors = refl

leading_ge : minus_one ≤ℤ leading.raft.commit_index
unfolding RaftState.init
leading_ge = omega arith

leading_lt : leading.raft.commit_index <ℤ pos 1
unfolding RaftState.init
leading_lt = omega arith

leading_up : leading.raft.commit_index ≤ℤ leading.raft.coming_commit_index
unfolding RaftState.init
leading_up = omega arith

execute_rsp-Mirrors_example : Mirrors leader_start granted.0.raft
execute_rsp-Mirrors_example =
    execute_rsp-Mirrors no_json leader_start (pos 9) append_rsp leading (omega arith) leading_ge
      leading_lt leading_up (omega arith) leading-Mirrors granted.1
