-- ===== src/Tests/Atomicity.antt =====
-- A transaction between the shards 0 and 1: both prepare, and both commit.
use raft_2pc_database.Prelude.{pos, false, ◌≡◌, refl, arith, ◌+◌, ◌%◌, ◌^◌, ◌∙◌, sym}
use raft_2pc_database.Command.Decimal.{decimal_fmt}
use raft_2pc_database.Message.{CrossShardPhaseType}
use raft_2pc_database.RaftState
use raft_2pc_database.CrossShard.{committed, execute_req}
use raft_2pc_database.CrossShard.Decision.{commit_logged}
use raft_2pc_database.AppendEntries.Conservation.{money}
use raft_2pc_database.CrossShard.Shards.{Shards, Reach, ShardStep}
use raft_2pc_database.CrossShard.Transaction.{reach_conserves}
use raft_2pc_database.Tests.Inputs.{no_json}
use raft_2pc_database.Tests.Transactions.{shard, cross_req, sender_shard, receiver_shard}

abbrev start : Shards
start = record { sender = shard (pos 0); receiver = shard (pos 1) }

no_commit_0 : committed (pos 9) start.sender.raft.log ≡ false
unfolding RaftState.init committed
no_commit_0 = refl

no_commit_1 : committed (pos 9) start.receiver.raft.log ≡ false
unfolding RaftState.init committed
no_commit_1 = refl

delivered :
    (now : Shards) × Reach decimal_fmt no_json cross_req start now
    × (committed (pos 9) now.sender.raft.log ≡ committed (pos 9) now.receiver.raft.log)
unfolding execute_req
delivered = (
  _,
  Reach.at_receiver
      (Reach.at_sender
        (Reach.at_receiver
          (Reach.at_sender Reach.begin (ShardStep.phase (pos 5) CrossShardPhaseType.prepare _))
          (ShardStep.phase (pos 6) CrossShardPhaseType.prepare _))
        (ShardStep.phase (pos 5) CrossShardPhaseType.commit _))
      (ShardStep.phase (pos 6) CrossShardPhaseType.commit _),
  commit_logged decimal_fmt no_json (record cross_req { phase = CrossShardPhaseType.commit }) _
        (pos 5)
      ∙ sym (
          commit_logged decimal_fmt no_json
            (record cross_req { phase = CrossShardPhaseType.commit }) _ (pos 6)),
)

reach_conserves_example :
    (money delivered.0.sender.raft + money delivered.0.receiver.raft) % 2 ^ 32
    ≡ (money start.sender.raft + money start.receiver.raft) % 2 ^ 32
reach_conserves_example =
    reach_conserves decimal_fmt no_json cross_req start sender_shard receiver_shard (ground arith)
      no_commit_0 no_commit_1 delivered.1 delivered.2
