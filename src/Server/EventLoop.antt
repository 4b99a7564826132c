-- ===== src/Server/EventLoop.antt =====
-- The event loop: `AIOServer::run`, over the completions that io_uring delivers.
use raft_2pc_database.Prelude.{
  ℕ, ℤ, pos, negsuc, Bool, true, false, not, if◌then◌else◌, ◌&&◌, eq_ℤ, ltb_ℤ, List, [], ◌∷◌,
  Result, ok, ◌>>=◌,
}
use raft_2pc_database.Executors.{Executors}
use raft_2pc_database.Aio.{AioCall, AioMessageType, AioEventType, AioData, Completion}
use raft_2pc_database.Util.{Util}
use raft_2pc_database.RaftState.{Role}
use raft_2pc_database.World.{Disk, issue, with_raft}
use raft_2pc_database.RaftState
use raft_2pc_database.Server.Defs.{AioServer, Address, heat_beat_interval_ms, term_timeout_ms}
use raft_2pc_database.Server.Broadcast.{broadcast_vote, broadcast_heart_beat}
use raft_2pc_database.Server.Process.{with_world, in_world, process}

-- `-ETIME`
abbrev pub minus_etime : ℤ
minus_etime = negsuc 61

abbrev pub issue_call : AioCall → AioServer → AioServer
issue_call c server = with_world server (issue c server.world)

abbrev pub add_timeout : ℕ → AioServer → AioServer
add_timeout ms = issue_call (AioCall.add_timeout_request (pos ms))

-- `raft_state_->heard_heart_beat_ = false`
abbrev pub forget_heart_beat : AioServer → AioServer
forget_heart_beat server =
    with_world server
      (with_raft (record server.world.raft { heard_heart_beat = false }) server.world)

-- EVENT_TIMEOUT
unfoldable pub on_timeout : AioServer → Result AioServer
on_timeout server =
    if server.pretend_fail
    then ok (add_timeout term_timeout_ms server)
    else elim server.world.raft.role [
      | Role.follower ↦
          (if server.world.raft.heard_heart_beat
            then ok server
            else in_world server (broadcast_vote server))
          >>= λ server₁. ok (add_timeout term_timeout_ms (forget_heart_beat server₁))
      | Role.candidate ↦ in_world server (broadcast_vote server) >>= λ server₁.
          ok (add_timeout term_timeout_ms server₁)
      | Role.leader ↦ in_world server (broadcast_heart_beat server) >>= λ server₁.
          ok (add_timeout heat_beat_interval_ms server₁)
    ]

abbrev pub is_timeout : AioEventType → Bool
is_timeout AioEventType.event_timeout = true
is_timeout _ = false

-- EVENT_WRITE
unfoldable pub on_write : AioData → AioServer → AioServer
on_write event server = elim event.message_type [
  | AioMessageType.wait_response ↦ issue_call (AioCall.add_read_request event.fd) server
  | _ ↦ issue_call (AioCall.close event.fd) server
]

module _ (executors : Executors) (util : Util) where
  -- EVENT_READ: the message in the first `res` bytes of the buffer.
  unfoldable pub on_read : ℤ → AioData → AioServer → Result AioServer
  unfolding process
  on_read res event server = process executors event.fd (util.parse_buf_to_msg event.buf res) server

  -- The `switch` of `run`.
  unfoldable pub on_event : ℤ → ℤ → AioData → AioServer → Result AioServer
  unfolding on_timeout on_read on_write
  on_event server_socket res event server = elim event.event_type [
    | AioEventType.event_timeout ↦ on_timeout server
    | AioEventType.event_accept ↦ ok (
        issue_call (AioCall.add_read_request res)
          (issue_call (AioCall.add_accept_request server_socket) server))
    | AioEventType.event_connect ↦
        ok (issue_call (AioCall.add_write_request_buf event.fd event.buf event.message_type) server)
    | AioEventType.event_read ↦ on_read res event server
    | AioEventType.event_write ↦ ok (on_write event server)
  ]

  -- One round of the loop.
  unfoldable pub handle : ℤ → Completion → AioServer → Result AioServer
  unfolding on_event
  handle server_socket Completion.wait_failed server = ok server
  handle server_socket (Completion.completed res event) server =
      if not (eq_ℤ res minus_etime) && ltb_ℤ res (pos 0)
      then ok server
      else if eq_ℤ res minus_etime && not (is_timeout event.event_type)
      then ok server
      else on_event server_socket res event server

  -- `while (keep_running_)`, on the completions in their order.
  unfoldable pub run_loop : ℤ → List Completion → AioServer → Result AioServer
  unfolding handle
  run_loop server_socket [] server = ok server
  run_loop server_socket (c ∷ cs) server =
      let more = handle server_socket c server >>= run_loop server_socket cs in
      if server.keep_running then more else ok server

  unfoldable pub run : ℤ → List Completion → AioServer → Result AioServer
  unfolding run_loop
  run server_socket completions server =
      run_loop server_socket completions
        (add_timeout term_timeout_ms (issue_call (AioCall.add_accept_request server_socket) server))

-- The members as the constructor sets them, with the data shard loaded.
unfoldable pub start : Util → ℤ → ℤ → Address → List (List Address) → Disk → AioServer
start util cluster_id server_id routing_service server_addresses disk = record {
  cluster_id = cluster_id;
  server_id = server_id;
  routing_service = routing_service;
  server_addresses = server_addresses;
  pretend_fail = false;
  keep_running = true;
  world = record {
    raft = util.load_data_shard disk (RaftState.init cluster_id server_id);
    calls = [];
    disk = disk;
  };
}
