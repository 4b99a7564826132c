-- ===== src/Tests/Winning.antt =====
-- A candidate that gets its second vote.
use raft_2pc_database.Prelude.{pos, ok, true, [], ◌∷◌, ◌≡◌, refl, arith, int32, ◌+ℤ◌}
use raft_2pc_database.Command.Decimal.{decimal_fmt, decimal_digits, digits_before}
use raft_2pc_database.Command.Format.{pays, format_int}
use raft_2pc_database.Command.Scan.{scan_pays, is_cross_shard, scan_int}
use raft_2pc_database.Message.{RequestVoteRsp}
use raft_2pc_database.RaftState
use raft_2pc_database.RaftState.{Role}
use raft_2pc_database.Executors.{all_executors}
use raft_2pc_database.Server.{AioServer, process_vote_rsp, start}
use raft_2pc_database.Server.Winning.{Wins, NewLeader, process_vote_rsp-NewLeader}
use raft_2pc_database.Tests.Inputs.{no_json}
use raft_2pc_database.Tests.Servers.{timed_server}
use raft_2pc_database.Tests.Replications.{behind}

abbrev asking : AioServer
asking = record timed_server {
  world = record timed_server.world {
    raft = record behind { role = Role.candidate; vote_granted_num = pos 1 };
  };
}

abbrev vote : RequestVoteRsp
vote = record { term = pos 2; vote_granted = true }

second_vote : Wins vote asking.world.raft
unfolding int32 ◌+ℤ◌
second_vote = record { candidate = refl; term = refl; granted = refl; majority = refl }

process_vote_rsp-NewLeader_example :
    (t : AioServer) × (process_vote_rsp (all_executors decimal_fmt no_json) (pos 6) vote asking
      ≡ ok t)
    × NewLeader asking.world.raft t.world.raft
unfolding start RaftState.init is_cross_shard scan_pays scan_int pays format_int decimal_digits
    digits_before ◌+ℤ◌ int32
process_vote_rsp-NewLeader_example =
    process_vote_rsp-NewLeader decimal_fmt no_json (pos 6) vote asking
      (([], pos 8001) ∷ ([], pos 8002) ∷ ([], pos 8003) ∷ []) refl (omega arith) second_vote
      (omega arith) (omega arith) (omega arith) (refl, (refl, tt))
