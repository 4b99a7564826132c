-- ===== src/Server/Timeouts.antt =====
-- The timer of a follower that hears nothing from a leader (`AIOServer::run`, EVENT_TIMEOUT).
use raft_2pc_database.Prelude.{
  ℕ, zero, suc, ◌+◌, ℤ, pos, true, false, if◌then◌else◌, eq_ℤ, add_int, List, [], ◌∷◌, ◌++◌,
  append_assoc, append-nil, length, get_elem?, some, ok, at, ◌≡◌, refl, arith, ap, ◌∙◌, sym,
  Bool-cases, inl, inr,
}
use raft_2pc_database.Executors.{Executors}
use raft_2pc_database.Util.{Util}
use raft_2pc_database.Message.{WrapperMessage}
use raft_2pc_database.Aio.{AioCall, AioData, AioEventType, AioMessageType, Completion}
use raft_2pc_database.RaftState.{RaftState, Role, lastlogindex, lastlogterm}
use raft_2pc_database.World.{World, with_raft}
use raft_2pc_database.Server.Defs.{AioServer, Address, term_timeout_ms}
use raft_2pc_database.Server.Broadcast.{
  mod_cluster, become_candidate, vote_req, connect, connect_server, send_votes, broadcast_vote,
}
use raft_2pc_database.Server.Process.{with_world}
use raft_2pc_database.Server.EventLoop.{
  add_timeout, forget_heart_beat, on_timeout, on_event, handle, run_loop, minus_etime,
}

-- The connection for a message to the address at position `idx`, if that is not the own one.
abbrev pub request : ℤ → WrapperMessage → ℕ → Address → List AioCall
request self msg idx (ip, port) =
    if eq_ℤ (pos idx) self
    then []
    else AioCall.add_connect_request ip port msg AioMessageType.wait_response ∷ []

-- The connections to the addresses from position `idx` on.
abbrev pub requests : ℤ → WrapperMessage → ℕ → List Address → List AioCall
requests self msg idx [] = []
requests self msg idx (a ∷ row) = request self msg idx a ++ requests self msg (suc idx) row

abbrev with_calls : List AioCall → World → World
with_calls calls w = record w { calls = w.calls ++ calls }

-- The request that a server sends for its vote.
abbrev pub vote_msg : ℤ → RaftState → WrapperMessage
vote_msg server_id s = WrapperMessage.request_vote_req (vote_req server_id s)

module _ (server : AioServer) (row : List Address)
    (known : at server.server_addresses server.cluster_id ≡ ok row) where
  one_vote :
      (k idx : ℕ) (a : Address) (w : World)
      → get_elem? row idx ≡ some a
      → send_votes server (suc k) idx w
        ≡ send_votes server k (suc idx) (
            with_calls
              (request (mod_cluster server.server_id) (vote_msg server.server_id w.raft) idx a)
              w)
  unfolding send_votes connect_server connect
  one_vote k idx (ip, port) w there =
      elim (Bool-cases (eq_ℤ (pos idx) (mod_cluster server.server_id))) [
        | inl own ↦ rw own (
            ap (λ calls. send_votes server k (suc idx) (record w { calls = calls }))
              (sym (append-nil w.calls)))
        | inr other ↦ rw (other, known, there) refl
      ]

  send_votes-requests :
      (idx : ℕ) (cells : List Address) (w : World)
      → ((i : ℕ) (a : Address) → get_elem? cells i ≡ some a → get_elem? row (idx + i) ≡ some a)
      → send_votes server (length cells) idx w
        ≡ ok (
            with_calls
              (requests (mod_cluster server.server_id) (vote_msg server.server_id w.raft) idx cells)
              w)
  unfolding send_votes
  send_votes-requests idx [] w cells_at =
      ap (λ calls. ok (record w { calls = calls })) (sym (append-nil w.calls))
  send_votes-requests idx (a ∷ cells) w cells_at =
      let here : idx + 0 ≡ idx = omega arith in
      let self = mod_cluster server.server_id in
      let msg = vote_msg server.server_id w.raft in
      one_vote (length cells) idx a w (ap (get_elem? row) (sym here) ∙ cells_at 0 a refl)
      ∙ send_votes-requests (suc idx) cells (with_calls (request self msg idx a) w) (λ i b there.
        let next : suc idx + i ≡ idx + suc i = omega arith in
        ap (get_elem? row) next ∙ cells_at (suc i) b there)
      ∙ ap (λ calls. ok (record w { calls = calls }))
          (append_assoc w.calls (request self msg idx a) (requests self msg (suc idx) cells))

-- The server behind `broadcast_vote`.
abbrev asked : AioServer → List Address → World
asked server cells =
    let s = become_candidate server.server_id server.world.raft in
    let msg = vote_msg server.server_id s in
    let w =
      connect server.routing_service msg AioMessageType.no_response (with_raft s server.world) in
    with_calls (requests (mod_cluster server.server_id) msg 0 cells) w

connect-raft :
    (a : Address) (msg : WrapperMessage) (ty : AioMessageType) (w : World)
    → (connect a msg ty w).raft ≡ w.raft
unfolding connect
connect-raft (ip, port) msg ty w = refl

first_three :
    (a b c : Address) (rest : List Address) (i : ℕ) (d : Address)
    → get_elem? (a ∷ b ∷ c ∷ []) i ≡ some d
    → get_elem? (a ∷ b ∷ c ∷ rest) (0 + i) ≡ some d
first_three a b c rest zero d h = h
first_three a b c rest (suc zero) d h = h
first_three a b c rest (suc (suc zero)) d h = h
first_three a b c rest (suc (suc (suc i))) d h = cc

broadcast_vote-asked :
    (server : AioServer) (a b c : Address) (rest : List Address)
    → at server.server_addresses server.cluster_id ≡ ok (a ∷ b ∷ c ∷ rest)
    → broadcast_vote server ≡ ok (asked server (a ∷ b ∷ c ∷ []))
unfolding broadcast_vote connect
broadcast_vote-asked server a b c rest known =
    let s = become_candidate server.server_id server.world.raft in
    let msg = vote_msg server.server_id s in
    let w =
      connect server.routing_service msg AioMessageType.no_response (with_raft s server.world) in
    send_votes-requests server (a ∷ b ∷ c ∷ rest) known 0 (a ∷ b ∷ c ∷ []) w
      (first_three a b c rest)

handle-timer :
    (executors : Executors) (util : Util) (socket : ℤ) (event : AioData) (server : AioServer)
    → event.event_type ≡ AioEventType.event_timeout
    → handle executors util socket (Completion.completed minus_etime event) server
      ≡ on_timeout server
unfolding handle on_event
handle-timer executors util socket event server timer = rw timer refl

-- The first timer forgets the last heart beat, the second starts an election.
forgets :
    (server : AioServer)
    → server.pretend_fail ≡ false
    → server.world.raft.role ≡ Role.follower
    → server.world.raft.heard_heart_beat ≡ true
    → on_timeout server ≡ ok (add_timeout term_timeout_ms (forget_heart_beat server))
unfolding on_timeout
forgets server awake follows heard = ground (arith, awake, follows, heard)

starts :
    (server : AioServer) (w : World)
    → server.pretend_fail ≡ false
    → server.world.raft.role ≡ Role.follower
    → server.world.raft.heard_heart_beat ≡ false
    → broadcast_vote server ≡ ok w
    → on_timeout server ≡ ok (add_timeout term_timeout_ms (forget_heart_beat (with_world server w)))
unfolding on_timeout
starts server w awake follows unheard sent = ground (arith, awake, follows, unheard, sent)

-- A follower that has become candidate: it has asked the routing service and every other server
-- of the cluster for a vote in the next term, and set the timer each time.
pub record Candidacy (server : AioServer) (cells : List Address) (t : AioServer) : Type 0 where
  pub role : t.world.raft.role ≡ Role.candidate
  pub term : t.world.raft.current_term ≡ add_int server.world.raft.current_term (pos 1)
  pub vote : t.world.raft.voted_for ≡ server.server_id
  pub sent :
      let timer = AioCall.add_timeout_request (pos term_timeout_ms) in
      let msg = vote_msg server.server_id t.world.raft in
      let (ip, port) = server.routing_service in
      t.world.calls
      ≡ server.world.calls
        ++ (timer
            ∷ AioCall.add_connect_request ip port msg AioMessageType.no_response
            ∷ (requests (mod_cluster server.server_id) msg 0 cells ++ (timer ∷ [])))

four_parts :
    (calls more : List AioCall) (x y z : AioCall)
    → (((calls ++ (x ∷ [])) ++ (y ∷ [])) ++ more) ++ (z ∷ [])
      ≡ calls ++ (x ∷ y ∷ (more ++ (z ∷ [])))
four_parts calls more x y z =
    append_assoc ((calls ++ (x ∷ [])) ++ (y ∷ [])) more (z ∷ [])
    ∙ append_assoc (calls ++ (x ∷ [])) (y ∷ []) (more ++ (z ∷ []))
    ∙ append_assoc calls (x ∷ []) (y ∷ (more ++ (z ∷ [])))

elected-Candidacy :
    (server : AioServer) (cells : List Address)
    → let server₁ = add_timeout term_timeout_ms (forget_heart_beat server) in
      Candidacy server cells
        (add_timeout term_timeout_ms (forget_heart_beat (with_world server₁ (asked server₁ cells))))
unfolding connect become_candidate vote_req lastlogindex lastlogterm
elected-Candidacy server cells = record {
  role = refl;
  term = refl;
  vote = refl;
  sent = four_parts server.world.calls _ _ _ _;
}

-- A follower that has heard a heart beat, does not pretend to fail and runs on, and whose timer
-- fires twice with nothing in between, ends as a candidate of the next term that has voted for
-- itself: the first timer only forgets the heart beat, the second starts the election. It has
-- asked the routing service and every other server of its cluster for a vote in this term, and
-- set its timer again each time. This holds if its cluster has at least three addresses.
pub run_loop-Candidacy :
    (executors : Executors) (util : Util) (socket : ℤ) (e₁ e₂ : AioData) (server : AioServer)
    (a b c : Address) (rest : List Address)
    → server.keep_running ≡ true
    → server.pretend_fail ≡ false
    → server.world.raft.role ≡ Role.follower
    → server.world.raft.heard_heart_beat ≡ true
    → at server.server_addresses server.cluster_id ≡ ok (a ∷ b ∷ c ∷ rest)
    → e₁.event_type ≡ AioEventType.event_timeout
    → e₂.event_type ≡ AioEventType.event_timeout
    → (t : AioServer) × (run_loop executors util socket
          (Completion.completed minus_etime e₁ ∷ Completion.completed minus_etime e₂ ∷ [])
          server
        ≡ ok t)
      × Candidacy server (a ∷ b ∷ c ∷ []) t
unfolding run_loop
run_loop-Candidacy executors util socket e₁ e₂ server a b c rest running awake follows heard known
      timer₁ timer₂ =
    let server₁ = add_timeout term_timeout_ms (forget_heart_beat server) in
    let w = asked server₁ (a ∷ b ∷ c ∷ []) in
    let t = add_timeout term_timeout_ms (forget_heart_beat (with_world server₁ w)) in
    let first =
      handle-timer executors util socket e₁ server timer₁ ∙ forgets server awake follows heard in
    let second =
      handle-timer executors util socket e₂ server₁ timer₂
      ∙ starts server₁ w awake follows refl (broadcast_vote-asked server₁ a b c rest known) in
    (t, ground (arith, running, first, second), elected-Candidacy server (a ∷ b ∷ c ∷ []))
