-- ===== src/Server/Process.antt =====
-- `process`, and the event loop `run`.
use raft_2pc_database.Prelude.{
  ℤ, Bool, true, false, if◌then◌else◌, ◌&&◌, ◌||◌, eq_ℤ, Result, ok, exited, ◌>>=◌,
}
use raft_2pc_database.Message.{WrapperMessage, RequestVoteRsp}
use raft_2pc_database.Executors.{Executors}
use raft_2pc_database.RaftState.{Role}
use raft_2pc_database.World.{World}
use raft_2pc_database.Server.Defs.{AioServer}
use raft_2pc_database.Server.Broadcast.{broadcast_heart_beat}

abbrev pub with_world : AioServer → World → AioServer
with_world server w = record server { world = w }

-- `then` with the state of the server put back.
abbrev pub in_world : AioServer → Result World → Result AioServer
in_world server r = r >>= λ w. ok (with_world server w)

abbrev pub is_self : ℤ → ℤ → AioServer → Bool
is_self cluster_id server_id server =
    eq_ℤ cluster_id server.cluster_id && eq_ℤ server_id server.server_id

-- A message for which `process` has no case, such as a response to a client: `fatal_error`.
abbrev pub unknown_message : Result AioServer
unknown_message = exited 1

module _ (executors : Executors) where
  -- The response to a vote may make the server leader, and then it sends a heart beat at once.
  unfoldable pub process_vote_rsp : ℤ → RequestVoteRsp → AioServer → Result AioServer
  process_vote_rsp client_socket rsp server =
      in_world server (executors.request_vote.execute_rsp client_socket rsp server.world)
      >>= λ server₁. elim server₁.world.raft.role [
        | Role.leader ↦ in_world server₁ (broadcast_heart_beat server₁)
        | _ ↦ ok server₁
      ]

  -- The messages of the second part of `process`.
  unfoldable pub dispatch : ℤ → WrapperMessage → AioServer → Result AioServer
  unfolding process_vote_rsp
  dispatch fd (WrapperMessage.intra_shard_req req) server =
      if eq_ℤ req.cluster_id server.cluster_id
      then in_world server (executors.intra_shard.execute_req fd req server.world)
      else ok server
  dispatch fd (WrapperMessage.cross_shard_req req) server =
      if eq_ℤ req.sender_cluster_id server.cluster_id
        || eq_ℤ req.receiver_cluster_id server.cluster_id
      then in_world server (executors.cross_shard.execute_req fd req server.world)
      else ok server
  dispatch fd (WrapperMessage.append_entries_req req) server =
      in_world server (executors.append_entries.execute_req fd req server.world)
  dispatch fd (WrapperMessage.append_entries_rsp rsp) server =
      in_world server (executors.append_entries.execute_rsp fd rsp server.world)
  dispatch fd (WrapperMessage.request_vote_req req) server =
      in_world server (executors.request_vote.execute_req fd req server.world)
  dispatch fd (WrapperMessage.request_vote_rsp rsp) server = process_vote_rsp fd rsp server
  dispatch fd (WrapperMessage.print_balance_req req) server =
      if is_self req.cluster_id req.server_id server
      then in_world server (executors.print_balance.execute_req fd req server.world)
      else ok server
  dispatch fd (WrapperMessage.print_datastore_req req) server =
      if is_self req.cluster_id req.server_id server
      then in_world server (executors.print_datastore.execute_req fd req server.world)
      else ok server
  dispatch fd _ server = unknown_message

  -- The control messages come first; all others are dropped while the server pretends to fail.
  unfoldable pub process : ℤ → WrapperMessage → AioServer → Result AioServer
  unfolding dispatch
  process fd (WrapperMessage.exit t) server = ok (
      if is_self t.cluster_id t.server_id server
      then record server { keep_running = false }
      else server)
  process fd (WrapperMessage.resume t) server = ok (
      if is_self t.cluster_id t.server_id server
      then record server { pretend_fail = false }
      else server)
  process fd (WrapperMessage.stop t) server = ok (
      if is_self t.cluster_id t.server_id server
      then record server { pretend_fail = true }
      else server)
  process fd msg server = if server.pretend_fail then ok server else dispatch fd msg server
