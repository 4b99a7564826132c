-- ===== src/Server/Winning.antt =====
-- The vote that makes a candidate the leader (`RequestVoteExecutor::executeRsp`, and what
-- `AIOServer::process` does with it).
use raft_2pc_database.Prelude.{
  ◌≤◌, ◌<◌, ◌^◌, ℤ, pos, minus_one, true, List, length, All, leb_ℤ, ◌≤ℤ◌, ◌<ℤ◌, add_int, sub_int,
  int32, ◌-ℤ◌, ok, at, ◌≡◌, refl, arith, ap,
}
use raft_2pc_database.Message.{RequestVoteRsp}
use raft_2pc_database.Command.Format.{Fmt}
use raft_2pc_database.DataShard.{Json}
use raft_2pc_database.RaftState.{RaftState, Role, log_size}
use raft_2pc_database.World.{World}
use raft_2pc_database.RequestVote
use raft_2pc_database.RequestVote.{step_down, receive_vote, count_vote}
use raft_2pc_database.Executors.{Executors, all_executors}
use raft_2pc_database.AppendEntries.Finishing.{CanFinish}
use raft_2pc_database.AppendEntries.Ready.{IsReady}
use raft_2pc_database.Server.Defs.{AioServer, Address}
use raft_2pc_database.Server.Broadcast.{broadcast_heart_beat}
use raft_2pc_database.Server.FirstBeat.{IsFresh, broadcast_heart_beat-fresh}
use raft_2pc_database.Server.Beats.{broadcast_heart_beat-raft}
use raft_2pc_database.Server.Process.{in_world, process_vote_rsp, with_world}

-- The response completes the majority of a candidate.
pub record Wins (rsp : RequestVoteRsp) (s : RaftState) : Type 0 where
  pub candidate : s.role ≡ Role.candidate
  pub term : rsp.term ≡ s.current_term
  pub granted : rsp.vote_granted ≡ true
  pub majority : leb_ℤ (pos 2) (add_int s.vote_granted_num (pos 1)) ≡ true

-- What is left of the state when the vote has been counted.
record Won (s t : RaftState) : Type 0 where
  pub leads : t.role ≡ Role.leader
  pub same_term : t.current_term ≡ s.current_term
  pub fresh : IsFresh t
  pub same_log : t.log ≡ s.log
  pub same_commit : t.commit_index ≡ s.commit_index

counted-Won :
    (rsp : RequestVoteRsp) (s : RaftState)
    → Wins rsp s
    → Won s (step_down rsp.term (receive_vote rsp s))
unfolding step_down receive_vote count_vote
counted-Won rsp s h = record {
  leads = ground (arith, h.candidate, h.term, h.granted, h.majority);
  same_term = ground (arith, h.candidate, h.term, h.granted, h.majority);
  fresh = ground (arith, h.candidate, h.term, h.granted, h.majority);
  same_log = ground (arith, h.candidate, h.term, h.granted, h.majority);
  same_commit = ground (arith, h.candidate, h.term, h.granted, h.majority);
}

-- A new leader: of the same term and with the same log, ready for any answer, and with the whole
-- log as the matched part of each server.
pub record NewLeader (s t : RaftState) : Type 0 where
  pub leads : t.role ≡ Role.leader
  pub same_term : t.current_term ≡ s.current_term
  pub same_log : t.log ≡ s.log
  pub fresh : IsFresh t
  pub ready : IsReady t

-- The coming commit index that the first heart beat sets.
beaten-NewLeader :
    (s u : RaftState)
    → length s.log < 2 ^ 31
    → minus_one ≤ℤ s.commit_index
    → s.commit_index <ℤ pos (length s.log)
    → All CanFinish s.log
    → Won s u
    → NewLeader s (record u { coming_commit_index = sub_int (log_size u) (pos 1) })
unfolding int32 ◌-ℤ◌
beaten-NewLeader s u small from inside finish won =
    let size : length u.log ≡ length s.log = ap length won.same_log in
    let short : length u.log < 2 ^ 31 = omega (arith, size) in
    record {
      leads = won.leads;
      same_term = won.same_term;
      same_log = won.same_log;
      fresh = won.fresh;
      ready = record {
        slots = ap length won.fresh;
        short = short;
        commit_from = rw won.same_commit from;
        commit_inside = rw (won.same_commit, size) inside;
        coming_inside = ground (arith, short);
        can_finish = rw won.same_log finish;
      };
    }

process_vote_rsp-leads :
    (executors : Executors) (fd : ℤ) (rsp : RequestVoteRsp) (server server₁ : AioServer) (w : World)
    → in_world server (executors.request_vote.execute_rsp fd rsp server.world) ≡ ok server₁
    → server₁.world.raft.role ≡ Role.leader
    → broadcast_heart_beat server₁ ≡ ok w
    → process_vote_rsp executors fd rsp server ≡ ok (with_world server₁ w)
unfolding process_vote_rsp
process_vote_rsp-leads executors fd rsp server server₁ w first leads sent =
    ground (arith, first, leads, sent)

-- A candidate for which a vote of its own term completes the majority becomes the leader of its
-- term without undefined behaviour: its log stays as it is, the heart beats to the other servers
-- are defined, also for an empty log, every server's count of matched entries is the size of the
-- log, and it can take any answer of a follower. This holds if its cluster has at least three
-- addresses, its log is shorter than 2^31 entries, its commit index is at least -1 and in the
-- log, and its commands can be read.
pub process_vote_rsp-NewLeader :
    (fmt : Fmt) (json : Json) (fd : ℤ) (rsp : RequestVoteRsp) (server : AioServer)
    (row : List Address)
    → at server.server_addresses server.cluster_id ≡ ok row
    → 3 ≤ length row
    → Wins rsp server.world.raft
    → length server.world.raft.log < 2 ^ 31
    → minus_one ≤ℤ server.world.raft.commit_index
    → server.world.raft.commit_index <ℤ pos (length server.world.raft.log)
    → All CanFinish server.world.raft.log
    → (t : AioServer) × (process_vote_rsp (all_executors fmt json) fd rsp server ≡ ok t)
      × NewLeader server.world.raft t.world.raft
unfolding RequestVote.execute_rsp
process_vote_rsp-NewLeader fmt json fd rsp server row known full wins small from inside finish =
    let s = server.world.raft in
    let won = counted-Won rsp s wins in
    let server₁ = with_world server (RequestVote.execute_rsp fd rsp server.world) in
    let (w, sent) =
      broadcast_heart_beat-fresh server₁ row known full won.fresh
        (omega (arith, small, ap length won.same_log)) in
    let leader = beaten-NewLeader s server₁.world.raft small from inside finish won in
    (
      with_world server₁ w,
      process_vote_rsp-leads (all_executors fmt json) fd rsp server server₁ w refl won.leads sent,
      rw (broadcast_heart_beat-raft server₁ w sent) leader,
    )
