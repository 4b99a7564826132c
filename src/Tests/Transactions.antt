-- ===== src/Tests/Transactions.antt =====
-- Transactions on the items 1 and 2 of shard 0, and between item 1 and item 1001 of shard 1.
use raft_2pc_database.Prelude.{ℤ, pos, negsuc, some, [], ◌∷◌, ◌≡◌, refl, arith, ◌++◌, ◌||◌, eq_ℤ}
use raft_2pc_database.Prelude.Table.{value}
use raft_2pc_database.Command.Decimal.{decimal_fmt}
use raft_2pc_database.Command.Format.{pays}
use raft_2pc_database.Command.Scan.{scan_pays}
use raft_2pc_database.Command.RoundTrip.{scan_pays-pays}
use raft_2pc_database.Message.{
  IntraShardReq, CrossShardReq, CrossShardPhaseType, CrossShardResultType,
}
use raft_2pc_database.RaftState
use raft_2pc_database.RaftState.{RaftState, Role, LogEntry}
use raft_2pc_database.World.{World, respond}
use raft_2pc_database.IntraShard
use raft_2pc_database.IntraShard.{new_entry}
use raft_2pc_database.IntraShard.Admission.{Refused, locked, balance, execute_req-accepts}
use raft_2pc_database.CrossShard.{execute_commit, execute_abort, execute_prepare, rsp}
use raft_2pc_database.CrossShard.Decision.{commit_once, abort_refuses_prepare}
use raft_2pc_database.Tests.Inputs.{no_json, empty_disk}

abbrev pub shard : ℤ → World
shard cluster_id = record {
  raft = record (RaftState.init cluster_id (pos 0)) {
    role = Role.leader;
    current_term = pos 1;
    local_balance_tb = (pos 1, pos 10) ∷ (pos 2, pos 10) ∷ (pos 1001, pos 10) ∷ [];
  };
  calls = [];
  disk = empty_disk;
}

abbrev small_req : IntraShardReq
small_req = record {
  cluster_id = pos 0;
  sender_id = pos 1;
  receiver_id = pos 2;
  amount = pos 3;
  id = pos 7;
}

abbrev large_req : IntraShardReq
large_req = record small_req { amount = pos 11 }

abbrev next_req : IntraShardReq
next_req = record small_req { sender_id = pos 2; receiver_id = pos 5; id = pos 8 }

abbrev pub cross_req : CrossShardReq
cross_req = record {
  phase = CrossShardPhaseType.commit;
  sender_cluster_id = pos 0;
  receiver_cluster_id = pos 1;
  sender_id = pos 1;
  receiver_id = pos 1001;
  amount = pos 4;
  id = pos 9;
}

small_req-not_Refused : ¬ Refused small_req (shard (pos 0)).raft
unfolding RaftState.init value IntraShard.id_exists
small_req-not_Refused = ground arith

execute_req-accepts_example :
    let w = shard (pos 0) in
    let w' = IntraShard.execute_req decimal_fmt (pos 5) small_req w in
    (w'.raft.log ≡ w.raft.log ++ (new_entry decimal_fmt (pos 5) small_req w.raft ∷ []))
    × (w'.calls ≡ w.calls)
    × ((k : ℤ) → locked k w'.raft ≡ (eq_ℤ k (pos 1) || eq_ℤ k (pos 2) || locked k w.raft))
    × ((k : ℤ) → balance k w'.raft ≡ balance k w.raft)
execute_req-accepts_example =
    execute_req-accepts decimal_fmt (pos 5) small_req (shard (pos 0)) small_req-not_Refused

commit_once_example :
    let w' = execute_commit decimal_fmt no_json (pos 5) cross_req (shard (pos 0)) in
    execute_commit decimal_fmt no_json (pos 6) cross_req w'
    ≡ respond (pos 6) (rsp CrossShardResultType.ack cross_req) w'
commit_once_example =
    commit_once decimal_fmt no_json (pos 5) (pos 6) cross_req cross_req (shard (pos 0)) refl

abort_refuses_prepare_example :
    let w' = execute_abort decimal_fmt no_json (pos 5) cross_req (shard (pos 0)) in
    let w'' = execute_prepare decimal_fmt no_json (pos 6) cross_req w' in
    (w''.raft.log ≡ w'.raft.log)
    × (w''.calls ≡ (respond (pos 6) (rsp CrossShardResultType.no_vote cross_req) w').calls)
abort_refuses_prepare_example =
    abort_refuses_prepare decimal_fmt no_json (pos 5) (pos 6) cross_req cross_req (shard (pos 0))
      refl

pub sender_shard : (shard (pos 0)).raft.cluster_id ≡ pos 0
unfolding RaftState.init
sender_shard = refl

pub receiver_shard : (shard (pos 1)).raft.cluster_id ≡ pos 1
unfolding RaftState.init
receiver_shard = refl

scan_pays-pays_example :
    scan_pays (pays decimal_fmt (pos 12) (pos 7) (negsuc 4)) ≡ some (pos 12, pos 7, negsuc 4)
scan_pays-pays_example =
    scan_pays-pays decimal_fmt (pos 12) (pos 7) (negsuc 4) (omega arith, omega arith)
      (omega arith, omega arith) (omega arith, omega arith)
