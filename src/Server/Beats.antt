-- ===== src/Server/Beats.antt =====
-- What the two broadcasts of a server make of its Raft state (`AIOServer::broadcast_vote`,
-- `AIOServer::broadcast_heart_beat`).
use raft_2pc_database.Prelude.{
  ℕ, zero, suc, pos, ◌≡◌, arith, sub_int, ok, ◌∙◌, Ensures-of, >>=-eq-ok, ◌>>=◌,
}
use raft_2pc_database.Message.{WrapperMessage}
use raft_2pc_database.Aio.{AioMessageType}
use raft_2pc_database.RaftState.{log_size}
use raft_2pc_database.World.{World, with_raft}
use raft_2pc_database.Server.Defs.{AioServer}
use raft_2pc_database.Server.Broadcast.{
  become_candidate, send_votes, broadcast_vote, send_heart_beats, broadcast_heart_beat,
  connect_server, connect, heart_beat, vote_req, routing_heart_beat,
}

connect_server-raft :
    (server : AioServer) (idx : ℕ) (msg : WrapperMessage) (w t : World)
    → connect_server server idx msg w ≡ ok t
    → t.raft ≡ w.raft
unfolding connect_server connect
connect_server-raft server idx msg w t h = ground arith

send_votes-raft :
    (server : AioServer) (k idx : ℕ) (w t : World)
    → send_votes server k idx w ≡ ok t
    → t.raft ≡ w.raft
unfolding send_votes
send_votes-raft server zero idx w t h = ground arith
send_votes-raft server (suc k) idx w t h =
    let (w₁, sent, rest) = >>=-eq-ok _ (send_votes server k (suc idx)) h in
    send_votes-raft server k (suc idx) w₁ t rest
    ∙ ground (
      arith,
      Ensures-of (λ (v : World). v.raft ≡ w.raft)
          (connect_server server idx
            (WrapperMessage.request_vote_req (vote_req server.server_id w.raft)) w)
          (connect_server-raft server idx
            (WrapperMessage.request_vote_req (vote_req server.server_id w.raft)) w),
      sent,
    )

one_heart_beat-raft :
    (server : AioServer) (idx : ℕ) (w t : World)
    → (heart_beat server.server_id idx w.raft >>= λ req.
        connect_server server idx (WrapperMessage.append_entries_req req) w)
      ≡ ok t
    → t.raft ≡ w.raft
one_heart_beat-raft server idx w t h =
    let (req, _, sent) = >>=-eq-ok (heart_beat server.server_id idx w.raft) _ h in
    connect_server-raft server idx (WrapperMessage.append_entries_req req) w t sent

send_heart_beats-raft :
    (server : AioServer) (k idx : ℕ) (w t : World)
    → send_heart_beats server k idx w ≡ ok t
    → t.raft ≡ w.raft
unfolding send_heart_beats
send_heart_beats-raft server zero idx w t h = ground arith
send_heart_beats-raft server (suc k) idx w t h =
    let (w₁, sent, rest) = >>=-eq-ok _ (send_heart_beats server k (suc idx)) h in
    send_heart_beats-raft server k (suc idx) w₁ t rest
    ∙ ground (arith, one_heart_beat-raft server idx w w₁, sent)

pub broadcast_vote-raft :
    (server : AioServer) (t : World)
    → broadcast_vote server ≡ ok t
    → t.raft ≡ become_candidate server.server_id server.world.raft
unfolding broadcast_vote connect
broadcast_vote-raft server t h =
    let s = become_candidate server.server_id server.world.raft in
    let msg = WrapperMessage.request_vote_req (vote_req server.server_id s) in
    let w =
      connect server.routing_service msg AioMessageType.no_response (with_raft s server.world) in
    send_votes-raft server 3 0 w t h

pub broadcast_heart_beat-raft :
    (server : AioServer) (t : World)
    → broadcast_heart_beat server ≡ ok t
    → t.raft ≡ record server.world.raft {
      coming_commit_index = sub_int (log_size server.world.raft) (pos 1);
    }
unfolding broadcast_heart_beat connect
broadcast_heart_beat-raft server t h =
    let w =
      connect server.routing_service
        (WrapperMessage.append_entries_req (routing_heart_beat server.server_id server.world.raft))
        AioMessageType.no_response server.world in
    let s = record w.raft { coming_commit_index = sub_int (log_size w.raft) (pos 1) } in
    send_heart_beats-raft server 3 0 (with_raft s w) t h
