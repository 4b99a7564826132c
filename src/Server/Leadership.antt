-- ===== src/Server/Leadership.antt =====
-- A leader between two elections: requests, heart beats (AIOServer::broadcast_heart_beat) and the
-- answers of its followers, in any order.
use raft_2pc_database.Prelude.{
  ℕ, suc, ◌+◌, ◌≤◌, ◌<◌, ◌^◌, ℤ, pos, length, ◌≡◌, ◌∙◌, sym, subst, arith, ok, int32, ◌-ℤ◌, sub_int,
  ok-injective,
}
use raft_2pc_database.Message.{AppendEntriesRsp, CrossShardReq, IntraShardReq}
use raft_2pc_database.Command.Format.{Fmt}
use raft_2pc_database.DataShard.{Json}
use raft_2pc_database.RaftState.{RaftState, log_size}
use raft_2pc_database.World.{World}
use raft_2pc_database.AppendEntries.{execute_rsp}
use raft_2pc_database.AppendEntries.Indices.{IndexedFrom}
use raft_2pc_database.AppendEntries.Ready.{IsReady, StaysReady}
use raft_2pc_database.AppendEntries.LeaderTotality.{execute_rsp-IsReady}
use raft_2pc_database.IntraShard
use raft_2pc_database.CrossShard
use raft_2pc_database.CrossShard.Growth.{Grown-IsReady, Grown-IndexedFrom}
use raft_2pc_database.CrossShard.Requests.{InRanges, intra-Grown, cross-Grown}
use raft_2pc_database.Server.Defs.{AioServer}
use raft_2pc_database.Server.Broadcast.{broadcast_heart_beat}
use raft_2pc_database.Server.Beats.{broadcast_heart_beat-raft}

-- What a leader has handled, with the number of steps. The numbers of a request are of type int,
-- and a follower has no negative id.
pub data LeaderRun (fmt : Fmt) (json : Json) (w : World) : ℕ → World → Type 0 where
  elected : LeaderRun fmt json w 0 w
  takes_intra :
      {n : ℕ} {t : World} (fd : ℤ) (req : IntraShardReq)
      → LeaderRun fmt json w n t
      → InRanges req.sender_id req.receiver_id req.amount
      → LeaderRun fmt json w (suc n) (IntraShard.execute_req fmt fd req t)
  takes_cross :
      {n : ℕ} {t : World} (fd : ℤ) (req : CrossShardReq)
      → LeaderRun fmt json w n t
      → InRanges req.sender_id req.receiver_id req.amount
      → LeaderRun fmt json w (suc n) (CrossShard.execute_req fmt json fd req t)
  hears :
      {n : ℕ} {t u : World} (fd : ℤ) (rsp : AppendEntriesRsp) (m : ℕ)
      → LeaderRun fmt json w n t
      → rsp.server_id ≡ pos m
      → execute_rsp json fd rsp t ≡ ok u
      → LeaderRun fmt json w (suc n) u
  beats :
      {n : ℕ} {u : World} (server : AioServer)
      → LeaderRun fmt json w n server.world
      → broadcast_heart_beat server ≡ ok u
      → LeaderRun fmt json w (suc n) u

beat-IsReady :
    (s : RaftState)
    → IsReady s
    → IsReady (record s { coming_commit_index = sub_int (log_size s) (pos 1) })
unfolding int32 ◌-ℤ◌
beat-IsReady s h = record {
  slots = h.slots;
  short = h.short;
  commit_from = h.commit_from;
  commit_inside = h.commit_inside;
  coming_inside = ground (arith, h.short);
  can_finish = h.can_finish;
}

module _ (fmt : Fmt) (json : Json) (w : World) (ready : IsReady w.raft) where
  -- What holds after so many steps.
  abbrev Reached : ℕ → RaftState → Type 0
  Reached n t =
      IsReady t
      × (length t.log ≤ length w.raft.log + n)
      × (IndexedFrom 0 w.raft.log → IndexedFrom 0 t.log)

  pub run-IsReady :
      {n : ℕ} {t : World}
      → length w.raft.log + n < 2 ^ 31
      → LeaderRun fmt json w n t
      → Reached n t.raft
  run-IsReady room LeaderRun.elected = (ready, omega arith, λ h. h)
  run-IsReady {n = suc n} room (LeaderRun.takes_intra {t = t} fd req run range) =
      let (before, size, placed) = run-IsReady (omega (arith, room)) run in
      let grown = intra-Grown fmt json fd req t range in
      let (after, more) = Grown-IsReady t.raft _ (omega (arith, size, room)) grown before in
      (
        after,
        omega (arith, size, more),
        λ h. Grown-IndexedFrom t.raft _ (omega (arith, size, room)) grown (placed h),
      )
  run-IsReady {n = suc n} room (LeaderRun.takes_cross {t = t} fd req run range) =
      let (before, size, placed) = run-IsReady (omega (arith, room)) run in
      let grown = cross-Grown fmt json fd req t range in
      let (after, more) = Grown-IsReady t.raft _ (omega (arith, size, room)) grown before in
      (
        after,
        omega (arith, size, more),
        λ h. Grown-IndexedFrom t.raft _ (omega (arith, size, room)) grown (placed h),
      )
  run-IsReady {n = suc n} {t = u} room (LeaderRun.hears {t = t} fd rsp m run from done) =
      let (before, size, placed) = run-IsReady (omega (arith, room)) run in
      let (v, result, stays) = execute_rsp-IsReady json rsp m from fd t before in
      let is_u : v ≡ u = ok-injective (sym result ∙ done) in
      subst (λ (x : World). Reached (suc n) x.raft) is_u
        (stays.ready, omega (arith, size, stays.same_length), λ h. stays.placed (placed h))
  run-IsReady {n = suc n} {t = u} room (LeaderRun.beats server run sent) =
      let (before, size, placed) = run-IsReady (omega (arith, room)) run in
      subst (Reached (suc n)) (sym (broadcast_heart_beat-raft server u sent))
        (beat-IsReady server.world.raft before, omega (arith, size), placed)

  -- A leader handles the answer of a follower without undefined behaviour: no read out of
  -- bounds, and no variable that sscanf leaves unset; and it stays ready for the next one, with
  -- as many entries. This holds after any sequence of intra-shard requests, cross-shard requests
  -- in any phase, answers of followers and heart beats that were sent, whose numbers are of type
  -- int and whose follower ids are not negative, if at the start it has three matched sizes, a
  -- commit index of at least -1 in its log, a coming commit index below the end of the log and
  -- commands that can be read, and if the log has room for one entry for each step below 2^31.
  pub run-execute_rsp_ok :
      {n : ℕ} {t : World} (fd : ℤ) (rsp : AppendEntriesRsp) (m : ℕ)
      → length w.raft.log + n < 2 ^ 31
      → LeaderRun fmt json w n t
      → rsp.server_id ≡ pos m
      → (u : World) × (execute_rsp json fd rsp t ≡ ok u) × StaysReady t u
  run-execute_rsp_ok {t = t} fd rsp m room run from =
      execute_rsp-IsReady json rsp m from fd t (run-IsReady room run).0
