-- ===== src/Server/Keeping.antt =====
-- What a server keeps of its Raft state over its event loop, if the executors keep it.
use raft_2pc_database.Prelude.{
  List, [], ◌∷◌, Bool-cases, inl, inr, false, subst, sym, ok-injective, ℤ, ◌≡◌, sym, arith, ok,
  Ensures-of, Result, >>=-eq-ok,
}
use raft_2pc_database.Message.{WrapperMessage, RequestVoteRsp}
use raft_2pc_database.Aio.{AioData, Completion}
use raft_2pc_database.RaftState.{RaftState}
use raft_2pc_database.World.{World}
use raft_2pc_database.Executors.{Executors}
use raft_2pc_database.Server.Beats.{broadcast_vote-raft, broadcast_heart_beat-raft}
use raft_2pc_database.Executors.Laws.{LawfulExecutors}
use raft_2pc_database.Util.{Util}
use raft_2pc_database.Server.Defs.{AioServer}
use raft_2pc_database.Server.Broadcast.{become_candidate, broadcast_vote, broadcast_heart_beat}
use raft_2pc_database.Server.Process.{in_world, process_vote_rsp, dispatch, process}
use raft_2pc_database.Server.EventLoop.{on_timeout, on_write, on_read, on_event, handle, run_loop}

-- A relation between the Raft states before and after a piece of the server, and what it allows.
pub record Keeping (R : RaftState → RaftState → Type 0) : Type 0 where
  pub same : (s : RaftState) → R s s
  pub trans : {a b c : RaftState} → R a b → R b c → R a c
  pub beat : (s : RaftState) (z : ℤ) → R s (record s { coming_commit_index = z })
  pub forget : (s : RaftState) → R s (record s { heard_heart_beat = false })

module _ {R : RaftState → RaftState → Type 0} (keeping : Keeping R) where
  -- A piece of the server that ends with the relation kept.
  abbrev Keeps : AioServer → AioServer → Type 0
  Keeps server t = R server.world.raft t.world.raft

  in_world-Keeps :
      (server : AioServer) (r : Result World) (t : AioServer)
      → ((w : World) → r ≡ ok w → R server.world.raft w.raft)
      → in_world server r ≡ ok t
      → Keeps server t
  in_world-Keeps server r t law h =
      let (w, done, e) = >>=-eq-ok r _ h in
      subst (λ (u : AioServer). Keeps server u) (ok-injective e) (law w done)

  vote_beat-Keeps :
      (server t : AioServer)
      → R server.world.raft (become_candidate server.server_id server.world.raft)
      → in_world server (broadcast_vote server) ≡ ok t
      → Keeps server t
  vote_beat-Keeps server t starts h =
      in_world-Keeps server (broadcast_vote server) t
        (λ w sent. subst (R server.world.raft) (sym (broadcast_vote-raft server w sent)) starts) h

  leader_beat-Keeps :
      (server t : AioServer) → in_world server (broadcast_heart_beat server) ≡ ok t → Keeps server t
  leader_beat-Keeps server t h =
      in_world-Keeps server (broadcast_heart_beat server) t
        (λ w sent.
          subst (R server.world.raft) (sym (broadcast_heart_beat-raft server w sent))
            (keeping.beat server.world.raft _))
        h

  module _ (executors : Executors) (laws : LawfulExecutors R executors) where
    process_vote_rsp-Keeps :
        (fd : ℤ) (rsp : RequestVoteRsp) (server t : AioServer)
        → process_vote_rsp executors fd rsp server ≡ ok t
        → Keeps server t
    unfolding process_vote_rsp
    process_vote_rsp-Keeps fd rsp server t h =
        let (server₁, first, h₁) =
          >>=-eq-ok (in_world server (executors.request_vote.execute_rsp fd rsp server.world)) _
            h in
        let kept =
          in_world-Keeps server (executors.request_vote.execute_rsp fd rsp server.world) server₁
            (laws.vote_rsp fd rsp server.world) first in
        keeping.trans kept
          (ground (arith, h₁, leader_beat-Keeps server₁ t, keeping.same server₁.world.raft))

    dispatch-Keeps :
        (fd : ℤ) (msg : WrapperMessage) (server t : AioServer)
        → dispatch executors fd msg server ≡ ok t
        → Keeps server t
    unfolding dispatch
    dispatch-Keeps fd (WrapperMessage.intra_shard_req req) server t h = ground (
      arith,
      h,
      keeping.same server.world.raft,
      in_world-Keeps server (executors.intra_shard.execute_req fd req server.world) t
          (laws.intra fd req server.world),
    )
    dispatch-Keeps fd (WrapperMessage.cross_shard_req req) server t h = ground (
      arith,
      h,
      keeping.same server.world.raft,
      in_world-Keeps server (executors.cross_shard.execute_req fd req server.world) t
          (laws.cross fd req server.world),
    )
    dispatch-Keeps fd (WrapperMessage.append_entries_req req) server t h =
        in_world-Keeps server (executors.append_entries.execute_req fd req server.world) t
          (laws.append_req fd req server.world) h
    dispatch-Keeps fd (WrapperMessage.append_entries_rsp rsp) server t h =
        in_world-Keeps server (executors.append_entries.execute_rsp fd rsp server.world) t
          (laws.append_rsp fd rsp server.world) h
    dispatch-Keeps fd (WrapperMessage.request_vote_req req) server t h =
        in_world-Keeps server (executors.request_vote.execute_req fd req server.world) t
          (laws.vote_req fd req server.world) h
    dispatch-Keeps fd (WrapperMessage.request_vote_rsp rsp) server t h =
        process_vote_rsp-Keeps fd rsp server t h
    dispatch-Keeps fd (WrapperMessage.print_balance_req req) server t h = ground (
      arith,
      h,
      keeping.same server.world.raft,
      in_world-Keeps server (executors.print_balance.execute_req fd req server.world) t
          (laws.balance fd req server.world),
    )
    dispatch-Keeps fd (WrapperMessage.print_datastore_req req) server t h = ground (
      arith,
      h,
      keeping.same server.world.raft,
      in_world-Keeps server (executors.print_datastore.execute_req fd req server.world) t
          (laws.datastore fd req server.world),
    )
    dispatch-Keeps fd WrapperMessage.not_set server t h = cc
    dispatch-Keeps fd (WrapperMessage.stop m) server t h = cc
    dispatch-Keeps fd (WrapperMessage.resume m) server t h = cc
    dispatch-Keeps fd (WrapperMessage.exit m) server t h = cc
    dispatch-Keeps fd (WrapperMessage.intra_shard_rsp m) server t h = cc
    dispatch-Keeps fd (WrapperMessage.cross_shard_rsp m) server t h = cc
    dispatch-Keeps fd (WrapperMessage.print_balance_rsp m) server t h = cc
    dispatch-Keeps fd (WrapperMessage.print_datastore_rsp m) server t h = cc

    process-Keeps :
        (fd : ℤ) (msg : WrapperMessage) (server t : AioServer)
        → process executors fd msg server ≡ ok t
        → Keeps server t
    unfolding process
    process-Keeps fd msg server t h =
        ground (arith, keeping.same server.world.raft, dispatch-Keeps fd msg server t)

    module _ (util : Util) where
      on_timeout-Keeps :
          (server t : AioServer)
          → R server.world.raft (become_candidate server.server_id server.world.raft)
          → on_timeout server ≡ ok t
          → Keeps server t
      unfolding on_timeout
      on_timeout-Keeps server t starts h = ground (
        arith,
        keeping.same server.world.raft,
        keeping.forget server.world.raft,
        Ensures-of
            (λ (u : AioServer).
              R server.world.raft (record u.world.raft { heard_heart_beat = false }))
            (in_world server (broadcast_vote server))
            (λ (u : AioServer) sent.
              keeping.trans (vote_beat-Keeps server u starts sent) (keeping.forget u.world.raft)),
        Ensures-of (Keeps server) (in_world server (broadcast_vote server))
            (λ (u : AioServer). vote_beat-Keeps server u starts),
        Ensures-of (Keeps server) (in_world server (broadcast_heart_beat server))
            (leader_beat-Keeps server),
      )

      on_event-Keeps :
          (socket res : ℤ) (event : AioData) (server t : AioServer)
          → R server.world.raft (become_candidate server.server_id server.world.raft)
          → on_event executors util socket res event server ≡ ok t
          → Keeps server t
      unfolding on_event on_read on_write
      on_event-Keeps socket res event server t up h = ground (
        arith,
        h,
        keeping.same server.world.raft,
        on_timeout-Keeps server t up,
        process-Keeps event.fd (util.parse_buf_to_msg event.buf res) server t,
      )

      -- For every completion that the event loop handles without an exit or undefined behaviour,
      -- the term of the server does not go down, and a vote that the server has cast is kept while
      -- its term stays the same. The executors are any that keep this law themselves, and the term
      -- has not reached the largest int.
      pub handle-Keeps :
          (socket : ℤ) (c : Completion) (server : AioServer) {t : AioServer}
          → R server.world.raft (become_candidate server.server_id server.world.raft)
          → handle executors util socket c server ≡ ok t
          → R server.world.raft t.world.raft
      unfolding handle
      handle-Keeps socket Completion.wait_failed server up h =
          ground (arith, keeping.same server.world.raft)
      handle-Keeps socket (Completion.completed res event) server {t} up h =
          ground
            (arith, h, keeping.same server.world.raft, on_event-Keeps socket res event server t up)

      -- The whole loop, for a relation that every election keeps.
      pub run_loop-Keeps :
          ((id : ℤ) (s : RaftState) → R s (become_candidate id s))
          → (socket : ℤ) (cs : List Completion) (server : AioServer) {t : AioServer}
          → run_loop executors util socket cs server ≡ ok t
          → R server.world.raft t.world.raft
      unfolding run_loop
      run_loop-Keeps starts socket [] server {t} h =
          subst (λ (u : AioServer). Keeps server u) (ok-injective h)
            (keeping.same server.world.raft)
      run_loop-Keeps starts socket (c ∷ cs) server {t} h = elim (Bool-cases server.keep_running) [
        | inl running ↦
            let (server₁, handled, rest) =
              >>=-eq-ok (handle executors util socket c server) (run_loop executors util socket cs)
                (simp running at h) in
            keeping.trans
              (handle-Keeps socket c server (starts server.server_id server.world.raft) handled)
              (run_loop-Keeps starts socket cs server₁ rest)
        | inr stopped ↦
            subst (λ (u : AioServer). Keeps server u) (ok-injective (rw stopped at h))
              (keeping.same server.world.raft)
      ]
