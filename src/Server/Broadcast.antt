-- ===== src/Server/Broadcast.antt =====
-- `broadcast_vote` and `broadcast_heart_beat`.
use raft_2pc_database.Prelude.{
  ℕ, zero, suc, ◌/◌, ◌%◌, ℤ, pos, negsuc, if◌then◌else◌, add_int, sub_int, List, [], map, drop,
  Result, ok, at, ◌>>=◌, negate, eq_ℤ,
}
use raft_2pc_database.Message.{Entry, RequestVoteReq, AppendEntriesReq, WrapperMessage}
use raft_2pc_database.Aio.{AioCall, AioMessageType}
use raft_2pc_database.RaftState.{
  RaftState, LogEntry, Role, lastlogindex, lastlogterm, prevlogindex, prevlogterm, log_size,
}
use raft_2pc_database.World.{World, issue, with_raft}
use raft_2pc_database.Server.Defs.{AioServer, Address, server_num_per_cluster}

-- `/` and `%` by SERVER_NUM_PER_CLUSTER, which round towards zero.
abbrev pub div_cluster : ℤ → ℤ
div_cluster (pos n) = pos (n / server_num_per_cluster)
div_cluster (negsuc n) = negate (suc n / server_num_per_cluster)

abbrev pub mod_cluster : ℤ → ℤ
mod_cluster (pos n) = pos (n % server_num_per_cluster)
mod_cluster (negsuc n) = negate (suc n % server_num_per_cluster)

unfoldable pub become_candidate : ℤ → RaftState → RaftState
become_candidate server_id s = record s {
  role = Role.candidate;
  current_term = add_int s.current_term (pos 1);
  voted_for = server_id;
  vote_granted_num = pos 1;
}

unfoldable pub vote_req : ℤ → RaftState → RequestVoteReq
unfolding lastlogindex lastlogterm
vote_req server_id s = record {
  candidate_id = server_id;
  term = s.current_term;
  last_log_index = lastlogindex s;
  last_log_term = lastlogterm s;
}

unfoldable pub connect : Address → WrapperMessage → AioMessageType → World → World
connect (ip, port) msg ty = issue (AioCall.add_connect_request ip port msg ty)

unfoldable pub connect_server : AioServer → ℕ → WrapperMessage → World → Result World
unfolding connect
connect_server server idx msg w = do
  row ← at server.server_addresses server.cluster_id
  address ← at row (pos idx)
  ok (connect address msg AioMessageType.wait_response w)

-- The loop of `broadcast_vote` from `idx`, with the rounds left. The server itself is left out.
unfoldable pub send_votes : AioServer → ℕ → ℕ → World → Result World
unfolding vote_req connect_server
send_votes server zero idx w = ok w
send_votes server (suc k) idx w =
    let msg = WrapperMessage.request_vote_req (vote_req server.server_id w.raft) in
    (if eq_ℤ (pos idx) (mod_cluster server.server_id)
      then ok w
      else connect_server server idx msg w)
    >>= send_votes server k (suc idx)

unfoldable pub broadcast_vote : AioServer → Result World
unfolding become_candidate vote_req connect send_votes
broadcast_vote server =
    let s = become_candidate server.server_id server.world.raft in
    let msg = WrapperMessage.request_vote_req (vote_req server.server_id s) in
    send_votes server server_num_per_cluster 0
      (connect server.routing_service msg AioMessageType.no_response (with_raft s server.world))

-- The heart beat to the routing service; the fields that are not set keep their defaults.
unfoldable pub routing_heart_beat : ℤ → RaftState → AppendEntriesReq
routing_heart_beat server_id s = record {
  term = s.current_term;
  leader_id = server_id;
  prev_log_index = pos 0;
  prev_log_term = pos 0;
  entries = [];
  commit_index = pos 0;
  server_id = pos 0;
}

abbrev pub message_entry : LogEntry → Entry
message_entry e = record { term = e.term; index = e.index; command = e.command; id = e.id }

-- The entries from `matched_log_size_[idx]` on; the loop compares with an unsigned size, so that a
-- negative start gives none.
unfoldable pub entries_from : ℤ → List LogEntry → List Entry
entries_from (pos m) log = map message_entry (drop m log)
entries_from (negsuc _) log = []

-- `server_id_ / SERVER_NUM_PER_CLUSTER * SERVER_NUM_PER_CLUSTER + idx`
unfoldable pub peer_id : ℤ → ℕ → ℤ
peer_id server_id idx =
    let quotient = div_cluster server_id in
    add_int (add_int (add_int quotient quotient) quotient) (pos idx)

unfoldable pub heart_beat : ℤ → ℕ → RaftState → Result AppendEntriesReq
unfolding prevlogindex prevlogterm entries_from peer_id
heart_beat server_id idx s = do
  prev_log_index ← prevlogindex s (pos idx)
  prev_log_term ← prevlogterm s (pos idx)
  matched ← at s.matched_log_size (pos idx)
  ok (record {
    term = s.current_term;
    leader_id = server_id;
    prev_log_index = prev_log_index;
    prev_log_term = prev_log_term;
    entries = entries_from matched s.log;
    commit_index = s.commit_index;
    server_id = peer_id server_id idx;
  })

-- The loop of `broadcast_heart_beat` from `idx`, with the rounds left.
unfoldable pub send_heart_beats : AioServer → ℕ → ℕ → World → Result World
unfolding heart_beat connect_server
send_heart_beats server zero idx w = ok w
send_heart_beats server (suc k) idx w =
    (if eq_ℤ (pos idx) (mod_cluster server.server_id)
      then ok w
      else (heart_beat server.server_id idx w.raft >>= λ req.
          connect_server server idx (WrapperMessage.append_entries_req req) w))
    >>= send_heart_beats server k (suc idx)

unfoldable pub broadcast_heart_beat : AioServer → Result World
unfolding routing_heart_beat connect send_heart_beats
broadcast_heart_beat server =
    let w = server.world in
    let msg = WrapperMessage.append_entries_req (routing_heart_beat server.server_id w.raft) in
    let w₁ = connect server.routing_service msg AioMessageType.no_response w in
    let s = record w₁.raft { coming_commit_index = sub_int (log_size w₁.raft) (pos 1) } in
    send_heart_beats server server_num_per_cluster 0 (with_raft s w₁)
