-- ===== src/RoutingService/Votes.antt =====
-- The votes that the coroutines of the routing service (client/routingservice.py) collect, in any
-- order of events.
use raft_2pc_database.Prelude.{
  ℕ, suc, ◌+◌, ◌≤◌, ℤ, pos, minus_one, eq_ℤ, List, [], ◌∷◌, All, Bool, true, false, none, some,
  Option-cases, inl, inr, refl, arith, get_elem?,
}
use raft_2pc_database.Prelude.Table.{lookup}
use raft_2pc_database.Message.{CrossShardReq, IntraShardReq, WrapperMessage}
use raft_2pc_database.RoutingService.Config.{item, set_item, LocalConfig, get_cluster_id_for_server}
use raft_2pc_database.RoutingService.{
  init, Transfer, Request, Queued, Call, RoutingService, Rest, Task, Ran, count_reply,
}
use raft_2pc_database.RoutingService.Redirect.{redirect_intra}
use raft_2pc_database.RoutingService.Handlers.{
  fits_int32, execute_pending, resume, handle_append_entries, handle_request_vote, handle_intra,
  start_transfer, handle_cross, handle_request,
}
use raft_2pc_database.RoutingService.Schedule.{System, Event, start, step, run, await_next}
use raft_2pc_database.RoutingService.Ballots.{
  yes_in, yes_votes, Answers, AllAnswer, Counted-le, on_await-Counted,
}
use raft_2pc_database.RoutingService.Counted.{
  IsBacked, Counted, call-Counted, count_reply-Counted, and_then-Counted, if-Counted, same-Counted,
  enqueue-Counted, redirect-Counted, redirect_cross-Counted, run_pending-Counted, expire-Counted,
  continue-Counted,
}

module _ (c : LocalConfig) (votes : ℤ → ℕ) where
  execute_pending-Counted :
      (cluster_id : ℤ) (writer : ℕ) (entries : List Queued) (s : RoutingService)
      → Counted votes s
      → Counted votes (execute_pending c cluster_id writer entries s).0
  unfolding execute_pending
  execute_pending-Counted cluster_id writer [] s h = call-Counted votes (Call.close writer) s tt h
  execute_pending-Counted cluster_id writer (entry ∷ entries) s h =
      run_pending-Counted votes c cluster_id writer (entry ∷ entries) s h

  handle_append_entries-Counted :
      (writer : ℕ) (server_id : ℤ) (s : RoutingService)
      → Counted votes s
      → Counted votes (handle_append_entries c writer server_id s).0
  unfolding handle_append_entries
  handle_append_entries-Counted writer server_id s h =
      let known = record s {
        leader_per_cluster =
            set_item s.leader_per_cluster (get_cluster_id_for_server c server_id) server_id;
      } in
      let same = same-Counted votes s known refl refl h in
      let closed = call-Counted votes (Call.close writer) known tt same in
      and_then-Counted votes _ _ s h (λ leader_id found.
        if-Counted votes (eq_ℤ leader_id minus_one) _ _
          (and_then-Counted votes _ _ _ same
            (λ pending found'. execute_pending-Counted _ writer pending known same))
          closed)

  handle_request_vote-Counted :
      (writer : ℕ) (server_id : ℤ) (s : RoutingService)
      → Counted votes s
      → Counted votes (handle_request_vote c writer server_id s).0
  unfolding handle_request_vote
  handle_request_vote-Counted writer server_id s h =
      and_then-Counted votes _ _ s h (λ leader_id found.
        call-Counted votes (Call.close writer) _ tt (same-Counted votes s _ refl refl h))

  handle_intra-Counted :
      (now writer : ℕ) (req : IntraShardReq) (s : RoutingService)
      → Counted votes s
      → Counted votes (handle_intra c now writer req s).0
  unfolding handle_intra redirect_intra
  handle_intra-Counted now writer req s h =
      let same = λ (t : RoutingService). same-Counted votes s t in
      if-Counted votes (fits_int32 (suc s.transaction_id)) _ _
        (and_then-Counted votes _ _ _ (same _ refl refl h) (λ leader_id found.
          if-Counted votes (eq_ℤ leader_id minus_one) _ _
            (and_then-Counted votes _ _ _ (same _ refl refl h)
              (λ s' e. enqueue-Counted votes req.cluster_id _ now _ s' (same _ refl refl h) e))
            (redirect-Counted votes c req.cluster_id _ _ _ (λ a. tt) (same _ refl refl h))))
        (same _ refl refl h)

  start_transfer-Counted :
      (now : ℕ) (t : Transfer) (sender_has_leader receiver_has_leader : Bool) (s : RoutingService)
      → Counted votes s
      → Counted votes (start_transfer c now t sender_has_leader receiver_has_leader s).0
  unfolding start_transfer
  start_transfer-Counted now t true b s h =
      redirect_cross-Counted votes c t t.sender_cluster_id (Rest.to_receiver t b) s h
  start_transfer-Counted now t false b s h = and_then-Counted votes _ _ s h (λ s' e.
      continue-Counted votes c now (Rest.to_receiver t b) s'
        (enqueue-Counted votes t.sender_cluster_id (Request.cross t) now s s' h e))

  handle_cross-Counted :
      (now writer : ℕ) (req : CrossShardReq) (s : RoutingService)
      → Counted votes s
      → Counted votes (handle_cross c now writer req s).0
  unfolding handle_cross
  handle_cross-Counted now writer req s h =
      let id = pos (suc s.transaction_id) in
      let fresh = count_reply-Counted votes id (pos 0) s (λ k e. ground (arith, e)) h in
      let same = λ (t : RoutingService). same-Counted votes (count_reply id (pos 0) s) t in
      if-Counted votes (fits_int32 (suc s.transaction_id)) _ _
        (and_then-Counted votes _ _ _ (same _ refl refl fresh) (λ sender_leader e.
          and_then-Counted votes _ _ _ (same _ refl refl fresh)
            (λ receiver_leader e'. start_transfer-Counted now _ _ _ _ (same _ refl refl fresh))))
        (same-Counted votes s _ refl refl h)

  handle_request-Counted :
      (now writer : ℕ) (message : WrapperMessage) (s : RoutingService)
      → Counted votes s
      → Counted votes (handle_request c now writer message s).0
  unfolding handle_request
  handle_request-Counted now writer (WrapperMessage.append_entries_req req) s h =
      handle_append_entries-Counted writer req.leader_id s h
  handle_request-Counted now writer (WrapperMessage.request_vote_req req) s h =
      handle_request_vote-Counted writer req.candidate_id s h
  handle_request-Counted now writer (WrapperMessage.intra_shard_req req) s h =
      handle_intra-Counted now writer req s h
  handle_request-Counted now writer (WrapperMessage.cross_shard_req req) s h =
      handle_cross-Counted now writer req s h
  handle_request-Counted now writer _ s h = h

await_next-Counted :
    (votes : ℤ → ℕ) (tasks : List Task) (ran : Ran)
    → Counted votes ran.0
    → Counted votes (await_next tasks ran).service
await_next-Counted votes tasks (s, none) h = h
await_next-Counted votes tasks (s, some t) h = h

module _ (c : LocalConfig) where
  step-Counted :
      (before votes : ℤ → ℕ) (now : ℕ) (event : Event) (sys : System)
      → ((j : ℤ) → before j + yes_in j event ≤ votes j)
      → Answers event sys
      → Counted before sys.service
      → Counted votes (step c now event sys).service
  unfolding step resume
  step-Counted before votes now (Event.arrive writer message) sys le answers h =
      await_next-Counted votes sys.tasks _ (
        handle_request-Counted c votes now writer message sys.service
          (Counted-le before votes sys.service (λ j. omega (arith, le j)) h))
  step-Counted before votes now (Event.come_back n outcome) sys le answers h =
      let old = Counted-le before votes sys.service (λ j. omega (arith, le j)) h in
      elim (Option-cases (get_elem? sys.tasks n)) [
        | inl missing ↦ rw (missing, step) old
        | inr (task, found) ↦
            rw (found, step)
              (await_next-Counted votes _ _ (
                on_await-Counted c votes before now task.rest sys.service task.await outcome le
                  (answers task found) h old))
      ]
  step-Counted before votes now (Event.check_queue cluster_id) sys le answers h =
      let old = Counted-le before votes sys.service (λ j. omega (arith, le j)) h in
      elim (Option-cases (item sys.service.transaction_request cluster_id)) [
        | inl missing ↦ rw (missing, step) old
        | inr (queue, found) ↦
            rw (found, step)
              (await_next-Counted votes _ _
                (expire-Counted votes c now cluster_id queue [] sys.service old))
      ]

  run-Counted :
      (before : ℤ → ℕ) (events : List (ℕ × Event)) (sys : System)
      → AllAnswer c events sys
      → Counted before sys.service
      → Counted (λ id. before id + yes_votes id events) (run c events sys).service
  unfolding run AllAnswer yes_votes
  run-Counted before [] sys answers h = Counted-le before _ sys.service (λ j. omega arith) h
  run-Counted before ((now, event) ∷ events) sys (answer, answers) h =
      let votes = λ (id : ℤ). before id + yes_in id event in
      let next = step-Counted before votes now event sys (λ j. omega arith) answer h in
      Counted-le _ _ _ (λ j. omega arith)
        (run-Counted votes events (step c now event sys) answers next)

  init-Counted : Counted (λ id. 0) (init c)
  unfolding init lookup
  init-Counted = record { replies = λ id k e. absurd (cc); backed = tt }

  -- Whatever messages, answers, timeouts and checks of the queues reach the routing service from
  -- its start on, and however its coroutines are interleaved: every COMMIT that it has sent is
  -- for a transaction for which at least two YES answers have come in. This holds if every
  -- response to a PREPARE has the id of its request.
  pub run-IsBacked :
      (events : List (ℕ × Event))
      → AllAnswer c events (start c)
      → All (IsBacked (λ id. yes_votes id events)) (run c events (start c)).service.calls
  unfolding start
  run-IsBacked events answers =
      (Counted-le _ _ _ (λ j. omega arith)
        (run-Counted (λ id. 0) events (start c) answers init-Counted)).backed
