-- ===== src/Tests/Positions.antt =====
-- A leader that logs a transaction, and the follower that it tells of it.
use raft_2pc_database.Prelude.{
  pos, ok, at, ◌≡◌, refl, arith, int32, ◌+ℤ◌, ◌-ℤ◌, ◌+◌, ◌<◌, ◌^◌, length,
}
use raft_2pc_database.Prelude.Table.{value, lookup, insert, touch}
use raft_2pc_database.Command.Decimal.{decimal_fmt, decimal_digits, digits_before}
use raft_2pc_database.Command.Format.{pays, format_int}
use raft_2pc_database.Command.Scan.{scan_pays, is_cross_shard, scan_int}
use raft_2pc_database.Message.{AppendEntriesReq, AppendEntriesRsp}
use raft_2pc_database.RaftState
use raft_2pc_database.RaftState.{RaftState, prevlogindex, prevlogterm}
use raft_2pc_database.World.{World}
use raft_2pc_database.IntraShard
use raft_2pc_database.AppendEntries.{
  answer, is_mismatch, hear_leader, accept_entries, replicate_log, merge_entries, commit_entries,
}
use raft_2pc_database.AppendEntries.Ready.{IsReady}
use raft_2pc_database.Server.{heart_beat, entries_from, peer_id}
use raft_2pc_database.Server.Leadership.{LeaderRun}
use raft_2pc_database.Server.Positions.{IsPlaced, run-IsPlaced}
use raft_2pc_database.Tests.Inputs.{no_json}
use raft_2pc_database.Tests.Beats.{leading_from}
use raft_2pc_database.Tests.Locks.{later_req}
use raft_2pc_database.Tests.Replications.{behind}

-- It has sent the first of its entries, and matched it.
abbrev leads : World
leads = leading_from (pos 1)

leads-IsReady : IsReady leads.raft
unfolding RaftState.init is_cross_shard scan_pays scan_int pays format_int decimal_digits
    digits_before ◌+ℤ◌ int32
leads-IsReady = record {
  slots = refl;
  short = omega arith;
  commit_from = omega arith;
  commit_inside = omega arith;
  coming_inside = omega arith;
  can_finish = (refl, (refl, tt));
}

abbrev logged : World
logged = IntraShard.execute_req decimal_fmt (pos 5) later_req leads

told :
    (req : AppendEntriesReq) × (t : RaftState) × (rsp : AppendEntriesRsp) × (heart_beat
        (pos 0)
        1
        logged.raft
      ≡ ok req)
    × (answer req behind ≡ ok (t, rsp))
    × (length t.log ≡ 3)
unfolding heart_beat prevlogindex prevlogterm entries_from peer_id answer is_mismatch hear_leader
    accept_entries replicate_log merge_entries commit_entries RaftState.init int32 ◌+ℤ◌ ◌-ℤ◌
    IntraShard.execute_req IntraShard.is_refused IntraShard.touch_tables IntraShard.id_exists
    IntraShard.accept IntraShard.new_entry value lookup insert touch
told = (_, _, _, refl, refl, refl)

has_room : length leads.raft.log + 1 < 2 ^ 31
has_room = omega arith

logs_one : LeaderRun decimal_fmt no_json leads 1 logged
logs_one =
    LeaderRun.takes_intra (pos 5) later_req LeaderRun.elected
      (omega arith, omega arith, omega arith)

matched_one : at logged.raft.matched_log_size (pos 1) ≡ ok (pos 1)
unfolding IntraShard.execute_req IntraShard.is_refused IntraShard.touch_tables IntraShard.id_exists
    IntraShard.accept IntraShard.new_entry value lookup insert touch RaftState.init
matched_one = refl

run-IsPlaced_example : IsPlaced logged.raft × IsPlaced told.1
run-IsPlaced_example =
    run-IsPlaced decimal_fmt no_json leads leads-IsReady (pos 0) 1 1 behind has_room logs_one
      matched_one (omega arith) (omega arith) (refl, (refl, tt)) (refl, (refl, tt)) told.3 told.4
