-- ===== src/Tests/Routing.antt =====
-- A transaction between item 1 of cluster 0 and item 1001 of cluster 1, in the routing service.
use raft_2pc_database.Prelude.{
  ℕ, ◌+◌, ℤ, pos, negsuc, minus_one, ◌+ℤ◌, ◌-ℤ◌, true, false, List, [], ◌∷◌, ◌++◌, All, some, none,
  ◌≡◌, refl, subst,
}
use mathlib.Core.Option.{some-injective}
use raft_2pc_database.Prelude.Table.{lookup, insert}
use raft_2pc_database.Message.{CrossShardResultType, WrapperMessage}
use raft_2pc_database.RoutingService.Config.{
  item, set_item, floor_div, times, Address, LocalConfig, get_cluster_id_for_server,
  server_id_to_index,
}
use raft_2pc_database.RoutingService.{
  init, Transfer, RoutingService, Await, Rest, Outcome, call, count_reply,
}
use raft_2pc_database.RoutingService.Redirect.{
  leader_address, redirect, redirect_cross, targets, all_servers, broadcast, and_then, continue,
}
use raft_2pc_database.RoutingService.Handlers.{
  transfer, on_yes, on_vote, answer_cross, on_await, resume, execute_pending, handle_append_entries,
  handle_request_vote, start_transfer, handle_cross, handle_request,
}
use raft_2pc_database.RoutingService.Schedule.{Event, start, step, run, run_alone}
use raft_2pc_database.RoutingService.Counted.{IsBacked}
use raft_2pc_database.RoutingService.Ballots.{yes_votes, AnswersTask, AllAnswer}
use raft_2pc_database.RoutingService.Votes.{run-IsBacked}
use raft_2pc_database.RoutingService.Steps.{vote, wait, prepare}
use raft_2pc_database.RoutingService.Decision.{outcomes, decision, run_alone-decides}
use raft_2pc_database.RoutingService.LeaderLost.{handle_request_vote-resume}
use raft_2pc_database.Tests.Transactions.{cross_req}

abbrev address : ℕ → Address
address n = record { ip = 49 ∷ []; port = pos (5001 + n) }

abbrev two_clusters : LocalConfig
two_clusters = record {
  num_cluster = 2;
  num_server_per_cluster = 3;
  server_ip_port_list =
      (address 0 ∷ address 1 ∷ address 2 ∷ []) ∷ (address 3 ∷ address 4 ∷ address 5 ∷ []) ∷ [];
}

abbrev heart_beat_of : ℤ → WrapperMessage
heart_beat_of leader_id = WrapperMessage.append_entries_req (record {
  term = pos 1;
  leader_id = leader_id;
  prev_log_index = negsuc 0;
  prev_log_term = negsuc 0;
  entries = [];
  commit_index = negsuc 0;
  server_id = leader_id;
})

abbrev sent : Transfer
sent = transfer (pos 1) cross_req

abbrev yes_event : ℕ × Event
yes_event = (1, Event.come_back 0 (vote CrossShardResultType.yes_vote sent))

abbrev committing : List (ℕ × Event)
committing =
    (0, Event.arrive 10 (heart_beat_of (pos 0)))
    ∷ (0, Event.arrive 11 (heart_beat_of (pos 4)))
    ∷ (1, Event.arrive 12 (WrapperMessage.cross_shard_req cross_req))
    ∷ yes_event
    ∷ yes_event
    ∷ (2, Event.come_back 0 Outcome.ended)
    ∷ []

committing-AllAnswer : AllAnswer two_clusters committing (start two_clusters)
unfolding AllAnswer start init step handle_request handle_append_entries handle_cross start_transfer
    and_then item set_item floor_div get_cluster_id_for_server execute_pending redirect_cross
    redirect leader_address server_id_to_index times ◌-ℤ◌ resume on_await on_vote on_yes continue
    insert lookup ◌+ℤ◌ broadcast all_servers targets answer_cross
committing-AllAnswer = (
  tt,
  (
    tt,
    (
      tt,
      (
        λ task e.
            subst (AnswersTask (vote CrossShardResultType.yes_vote sent)) (some-injective _ _ e)
              refl,
        (
          λ task e.
              subst (AnswersTask (vote CrossShardResultType.yes_vote sent)) (some-injective _ _ e)
                refl,
          (λ task e. tt, tt),
        ),
      ),
    ),
  ),
)

run-IsBacked_example :
    All
      (IsBacked (λ id. yes_votes id committing))
      (run two_clusters committing (start two_clusters)).service.calls
run-IsBacked_example = run-IsBacked two_clusters committing committing-AllAnswer

-- The service when the transaction is new, and server 4 leads the receiver's cluster.
abbrev new_transfer : RoutingService
new_transfer = record {
  leader_per_cluster = pos 0 ∷ pos 4 ∷ [];
  transaction_id = 1;
  num_reply_for_2pc = (pos 1, pos 0) ∷ [];
  transaction_request = [] ∷ [] ∷ [];
  conn_for_intra = [];
  conn_for_cross = (pos 1, 12) ∷ [];
  calls = [];
}

abbrev servers : List Address
servers = address 0 ∷ address 3 ∷ address 1 ∷ address 4 ∷ address 2 ∷ address 5 ∷ []

is_new : lookup sent.id new_transfer.num_reply_for_2pc ≡ some (pos 0)
unfolding lookup
is_new = refl

has_client : lookup sent.id new_transfer.conn_for_cross ≡ some 12
unfolding lookup
has_client = refl

sender_leads : leader_address two_clusters new_transfer sent.sender_cluster_id ≡ some (address 0)
unfolding leader_address server_id_to_index get_cluster_id_for_server floor_div times item ◌-ℤ◌
sender_leads = refl

receiver_leads :
    leader_address two_clusters new_transfer sent.receiver_cluster_id ≡ some (address 4)
unfolding leader_address server_id_to_index get_cluster_id_for_server floor_div times item ◌-ℤ◌
receiver_leads = refl

all_known : all_servers two_clusters sent ≡ some servers
unfolding all_servers targets item
all_known = refl

run_alone-decides_example :
    let (s', task) =
      run_alone two_clusters 5
        (outcomes two_clusters 5 sent false true)
        (start_transfer two_clusters 5 sent true true new_transfer) in
    (s'.calls ≡ [] ++ decision two_clusters 5 sent false true (address 0) (address 4) servers 12)
    × (task ≡ none)
run_alone-decides_example =
    run_alone-decides two_clusters 5 sent new_transfer (address 0) (address 4) servers 12 is_new
      has_client sender_leads receiver_leads all_known false true

candidate_cluster : get_cluster_id_for_server two_clusters (pos 4) ≡ sent.receiver_cluster_id
unfolding get_cluster_id_for_server floor_div
candidate_cluster = refl

had_leader : item new_transfer.leader_per_cluster sent.receiver_cluster_id ≡ some (pos 4)
unfolding item
had_leader = refl

receiver_row :
    item two_clusters.server_ip_port_list sent.receiver_cluster_id
    ≡ some (address 3 ∷ address 4 ∷ address 5 ∷ [])
unfolding item
receiver_row = refl

last_server : item (address 3 ∷ address 4 ∷ address 5 ∷ []) (pos 2) ≡ some (address 5)
unfolding item
last_server = refl

handle_request_vote-resume_example :
    let s' = (handle_request_vote two_clusters 20 (pos 4) new_transfer).0 in
    (item s'.leader_per_cluster sent.receiver_cluster_id ≡ some minus_one)
    × (resume two_clusters 5
          (vote CrossShardResultType.yes_vote sent)
          (wait (Await.prepare_response sent) (Rest.to_receiver sent true))
          s'
        ≡ (
          call (prepare sent (address 5)) (count_reply sent.id (pos 1) s'),
          some (wait (Await.prepare_response sent) Rest.finish),
        ))
handle_request_vote-resume_example =
    handle_request_vote-resume two_clusters 2 5 20 sent (pos 4) new_transfer refl candidate_cluster
      had_leader receiver_row last_server is_new
