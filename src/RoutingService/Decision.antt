-- ===== src/RoutingService/Decision.antt =====
-- One cross-shard transaction in the routing service (client/routingservice.py), from the first
-- PREPARE to the answer of the client.
use raft_2pc_database.Prelude.{
  ℕ, pos, minus_one, ◌+ℤ◌, List, [], ◌∷◌, ◌++◌, append_assoc, Bool, true, false, none, some, ◌≡◌,
  refl, ap, ◌∙◌, if◌then◌else◌,
}
use raft_2pc_database.Prelude.Table.{lookup}
use raft_2pc_database.Message.{CrossShardPhaseType, CrossShardResultType}
use raft_2pc_database.RoutingService.Config.{Address, LocalConfig}
use raft_2pc_database.RoutingService.{
  Transfer, Reply, Call, RoutingService, Await, Rest, Task, Outcome, Ran, count_reply, call,
}
use raft_2pc_database.RoutingService.Redirect.{leader_address, all_servers, continue}
use raft_2pc_database.RoutingService.Handlers.{
  on_yes, on_refusal, on_vote, on_await, resume, start_transfer,
}
use raft_2pc_database.RoutingService.Schedule.{run_alone}
use raft_2pc_database.RoutingService.Steps.{
  vote, prepare, to_all, wait, calls, redirect_cross-known, on_yes-first, on_yes-second,
  on_refusal-open, on_refusal-settled, on_await-commit, on_await-abort, lookup-count_reply,
}

module _ (c : LocalConfig) (now : ℕ) (t : Transfer) where
  -- The votes of the sender's and of the receiver's cluster: the awaited outcomes, and the calls.
  abbrev pub voted : Bool → Outcome
  voted yes_voted =
      vote (if yes_voted then CrossShardResultType.yes_vote else CrossShardResultType.no_vote) t

  abbrev pub outcomes : Bool → Bool → List Outcome
  outcomes true v = voted true ∷ voted v ∷ Outcome.ended ∷ []
  outcomes false v = voted false ∷ Outcome.ended ∷ voted v ∷ []

  abbrev pub decision : Bool → Bool → Address → Address → List Address → ℕ → List Call
  decision true true a b servers writer =
      prepare t a ∷ prepare t b ∷ to_all CrossShardPhaseType.commit t servers
      ++ (Call.answer writer Reply.succeed ∷ [])
  decision true false a b servers writer =
      prepare t a ∷ prepare t b ∷ to_all CrossShardPhaseType.abort t servers
      ++ (Call.answer writer Reply.aborted ∷ [])
  decision false v a b servers writer =
      prepare t a ∷ to_all CrossShardPhaseType.abort t servers
      ++ (Call.answer writer Reply.aborted ∷ prepare t b ∷ [])

  module _ (s : RoutingService) (a b : Address) (servers : List Address) (writer : ℕ)
      (new : lookup t.id s.num_reply_for_2pc ≡ some (pos 0))
      (client : lookup t.id s.conn_for_cross ≡ some writer)
      (a_leads : leader_address c s t.sender_cluster_id ≡ some a)
      (b_leads : leader_address c s t.receiver_cluster_id ≡ some b)
      (known : all_servers c t ≡ some servers) where
    abbrev asked : RoutingService
    asked = call (prepare t a) s

    start_transfer-asks :
        start_transfer c now t true true s
        ≡ (asked, some (wait (Await.prepare_response t) (Rest.to_receiver t true)))
    unfolding start_transfer
    start_transfer-asks = redirect_cross-known c now t t.sender_cluster_id _ s a_leads

    abbrev both_asked : RoutingService
    both_asked = call (prepare t b) (count_reply t.id (pos 1) asked)

    on_vote-first_yes :
        resume c now (voted true) (wait (Await.prepare_response t) (Rest.to_receiver t true)) asked
        ≡ (both_asked, some (wait (Await.prepare_response t) Rest.finish))
    unfolding resume on_await on_vote continue leader_address
    on_vote-first_yes =
        on_yes-first c now t (Rest.to_receiver t true) asked new
        ∙ redirect_cross-known c now t t.receiver_cluster_id Rest.finish
            (count_reply t.id (pos 1) asked) b_leads

    run_alone-then :
        (outcome : Outcome) (rest : List Outcome) (task : Task) (u : RoutingService)
        {ran last : Ran}
        → resume c now outcome task u ≡ ran
        → run_alone c now rest ran ≡ last
        → run_alone c now (outcome ∷ rest) (u, some task) ≡ last
    unfolding run_alone
    run_alone-then outcome rest task u e h = ap (run_alone c now rest) e ∙ h

    run_alone-end : {ran : Ran} → run_alone c now [] ran ≡ ran
    unfolding run_alone
    run_alone-end = refl

    abbrev answered : CrossShardPhaseType → Reply → RoutingService → RoutingService
    answered phase reply u = call (Call.answer writer reply) (calls (to_all phase t servers) u)

    abbrev committed : RoutingService
    committed =
        answered CrossShardPhaseType.commit Reply.succeed (count_reply t.id (pos 2) both_asked)

    abbrev aborted : RoutingService
    aborted =
        count_reply t.id minus_one (answered CrossShardPhaseType.abort Reply.aborted both_asked)

    abbrev refused : RoutingService
    refused = count_reply t.id minus_one (answered CrossShardPhaseType.abort Reply.aborted asked)

    second_yes :
        resume c now (voted true) (wait (Await.prepare_response t) Rest.finish) both_asked ≡ (
          calls (to_all CrossShardPhaseType.commit t servers) (count_reply t.id (pos 2) both_asked),
          some (wait (Await.commit_broadcast t) Rest.finish),
        )
    unfolding resume on_await on_vote
    second_yes =
        on_yes-second c now t Rest.finish both_asked (lookup-count_reply t.id (pos 1) _) known

    second_no :
        resume c now (voted false) (wait (Await.prepare_response t) Rest.finish) both_asked ≡ (
          calls (to_all CrossShardPhaseType.abort t servers) both_asked,
          some (wait (Await.abort_broadcast t t.id false) Rest.finish),
        )
    unfolding resume on_await on_vote
    second_no =
        on_refusal-open c now t 1 false Rest.finish both_asked (lookup-count_reply t.id (pos 1) _)
          known

    first_no :
        resume c now (voted false) (wait (Await.prepare_response t) (Rest.to_receiver t true)) asked
        ≡ (
          calls (to_all CrossShardPhaseType.abort t servers) asked,
          some (wait (Await.abort_broadcast t t.id false) (Rest.to_receiver t true)),
        )
    unfolding resume on_await on_vote
    first_no = on_refusal-open c now t 0 false (Rest.to_receiver t true) asked new known

    run_alone-commits :
        run_alone c now (outcomes true true) (start_transfer c now t true true s)
        ≡ (committed, none)
    unfolding resume continue
    run_alone-commits = rw start_transfer-asks (
        run_alone-then _ _ _ _ on_vote-first_yes (
          run_alone-then _ _ _ _ second_yes
            (run_alone-then _ _ _ _ (on_await-commit c now t Rest.finish _ client) run_alone-end)))

    run_alone-aborts :
        run_alone c now (outcomes true false) (start_transfer c now t true true s) ≡ (aborted, none)
    unfolding resume continue
    run_alone-aborts = rw start_transfer-asks (
        run_alone-then _ _ _ _ on_vote-first_yes (
          run_alone-then _ _ _ _ second_no
            (run_alone-then _ _ _ _ (on_await-abort c now t Rest.finish _ client) run_alone-end)))

    after_refusal :
        (v : Bool)
        → resume c now
            (voted v)
            (wait (Await.prepare_response t) Rest.finish)
            (call (prepare t b) refused)
          ≡ (count_reply t.id (if v then pos 0 else minus_one) (call (prepare t b) refused), none)
    unfolding resume on_await on_vote on_yes on_refusal continue ◌+ℤ◌
    after_refusal true = rw (lookup-count_reply t.id minus_one s.num_reply_for_2pc, on_yes) refl
    after_refusal false =
        on_refusal-settled c now t Rest.finish (call (prepare t b) refused)
          (lookup-count_reply t.id minus_one _)

    refused-asks :
        resume c now Outcome.ended
          (wait (Await.abort_broadcast t t.id false) (Rest.to_receiver t true))
          (calls (to_all CrossShardPhaseType.abort t servers) asked)
        ≡ (call (prepare t b) refused, some (wait (Await.prepare_response t) Rest.finish))
    unfolding resume continue leader_address
    refused-asks =
        on_await-abort c now t (Rest.to_receiver t true) _ client
        ∙ redirect_cross-known c now t t.receiver_cluster_id Rest.finish refused b_leads

    run_alone-refuses :
        (v : Bool)
        → run_alone c now (outcomes false v) (start_transfer c now t true true s)
          ≡ (count_reply t.id (if v then pos 0 else minus_one) (call (prepare t b) refused), none)
    run_alone-refuses v = rw start_transfer-asks (
        run_alone-then _ _ _ _ first_no (
          run_alone-then _ _ _ _ refused-asks
            (run_alone-then _ _ _ _ (after_refusal v) run_alone-end)))

    -- A new cross-shard transaction whose clusters both have a leader, run alone: where both
    -- leaders answer YES, the routing service sends the two PREPAREs, then COMMIT to every
    -- server of both clusters, and the client hears success; where the receiver's answers NO, it
    -- sends ABORT to all of them in place of COMMIT; where the sender's answers NO, it sends
    -- ABORT to all of them and tells the client, still asks the receiver's leader to prepare,
    -- and sends nothing more, whatever that answers.
    pub run_alone-decides :
        (v w : Bool)
        → let (s', task) = run_alone c now (outcomes v w) (start_transfer c now t true true s) in
          (s'.calls ≡ s.calls ++ decision v w a b servers writer) × (task ≡ none)
    run_alone-decides true true = rw run_alone-commits (simp append_assoc, refl)
    run_alone-decides true false = rw run_alone-aborts (simp append_assoc, refl)
    run_alone-decides false v = rw (run_alone-refuses v) (simp append_assoc, refl)
