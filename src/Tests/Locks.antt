-- ===== src/Tests/Locks.antt =====
-- A prepared transaction that keeps others out, and a leader that is ready for any answer.
use raft_2pc_database.Prelude.{
  ℤ, pos, ◌≡◌, refl, arith, ok, ◌++◌, [], ◌∷◌, eq_ℤ, ◌&&◌, ◌||◌, ◌+◌, ◌<◌, ◌^◌, length, ◌+ℤ◌, int32,
}
use raft_2pc_database.Prelude.Table.{value, lookup}
use raft_2pc_database.Command.Decimal.{decimal_fmt, decimal_digits, digits_before}
use raft_2pc_database.Command.Format.{pays, format_int}
use raft_2pc_database.Command.Scan.{scan_pays, is_cross_shard, scan_int}
use raft_2pc_database.Message.{IntraShardReq, CrossShardReq, CrossShardPhaseType}
use raft_2pc_database.RaftState
use raft_2pc_database.World.{World}
use raft_2pc_database.IntraShard.Admission.{locked, balance}
use raft_2pc_database.CrossShard.{
  holds_sender, holds_receiver, execute_prepare, prepare_entry, prepared_or_aborted,
}
use raft_2pc_database.CrossShard.Locks.{RefusedPrepare, execute_prepare-accepts}
use raft_2pc_database.AppendEntries.{execute_rsp}
use raft_2pc_database.AppendEntries.Ready.{IsReady, StaysReady}
use raft_2pc_database.IntraShard
use raft_2pc_database.CrossShard
use raft_2pc_database.Server.Leadership.{LeaderRun, run-execute_rsp_ok}
use raft_2pc_database.Tests.Inputs.{no_json}
use raft_2pc_database.Tests.Transactions.{shard, cross_req}
use raft_2pc_database.Tests.Replications.{leading, append_rsp}

abbrev prepare_req : CrossShardReq
prepare_req = record cross_req { phase = CrossShardPhaseType.prepare }

prepare_req-accepted : ¬ RefusedPrepare prepare_req (shard (pos 0)).raft
unfolding RaftState.init value lookup prepared_or_aborted
prepare_req-accepted = ground arith

execute_prepare-accepts_example :
    let w = shard (pos 0) in
    let w' = execute_prepare decimal_fmt no_json (pos 5) prepare_req w in
    (w'.raft.log
      ≡ w.raft.log ++ (prepare_entry decimal_fmt no_json (pos 5) prepare_req w.raft ∷ []))
    × (w'.calls ≡ w.calls)
    × ((k : ℤ)
        → locked k w'.raft ≡ (
            holds_sender prepare_req w.raft && eq_ℤ k (pos 1)
            || (holds_receiver prepare_req w.raft && eq_ℤ k (pos 1001) || locked k w.raft)))
    × ((k : ℤ) → balance k w'.raft ≡ balance k w.raft)
execute_prepare-accepts_example =
    execute_prepare-accepts decimal_fmt no_json (pos 5) prepare_req (shard (pos 0))
      prepare_req-accepted

leading-IsReady : IsReady leading.raft
unfolding RaftState.init is_cross_shard scan_pays scan_int pays format_int decimal_digits
    digits_before ◌+ℤ◌ int32
leading-IsReady = record {
  slots = refl;
  short = omega arith;
  commit_from = omega arith;
  commit_inside = omega arith;
  coming_inside = omega arith;
  can_finish = (refl, tt);
}

abbrev pub later_req : IntraShardReq
later_req = record {
  cluster_id = pos 0;
  sender_id = pos 1;
  receiver_id = pos 2;
  amount = pos 1;
  id = pos 8;
}

abbrev after_requests : World
after_requests =
    CrossShard.execute_req decimal_fmt no_json (pos 6) prepare_req
      (IntraShard.execute_req decimal_fmt (pos 5) later_req leading)

busy_run : LeaderRun decimal_fmt no_json leading 2 after_requests
busy_run =
    LeaderRun.takes_cross (pos 6) prepare_req
      (LeaderRun.takes_intra (pos 5) later_req LeaderRun.elected
        (omega arith, omega arith, omega arith))
      (omega arith, omega arith, omega arith)

has_room : length leading.raft.log + 2 < 2 ^ 31
unfolding RaftState.init
has_room = omega arith

run-execute_rsp_ok_example :
    (u : World) × (execute_rsp no_json (pos 9) append_rsp after_requests ≡ ok u)
    × StaysReady after_requests u
run-execute_rsp_ok_example =
    run-execute_rsp_ok decimal_fmt no_json leading leading-IsReady (pos 9) append_rsp 1 has_room
      busy_run refl
