-- ===== src/RoutingService/Redirect.antt =====
-- client/routingservice.py: the redirects to the leaders, the broadcasts, and the two loops over the
-- queued requests.
use raft_2pc_database.Prelude.{
  ℕ, zero, suc, ◌+◌, ℤ, pos, minus_one, eq_ℤ, ltb, Bool, true, false, if◌then◌else◌, List, [], ◌∷◌,
  ◌++◌, map, Option, none, some,
}
use raft_2pc_database.Prelude.Table.{lookup}
use raft_2pc_database.Message.{IntraShardReq, CrossShardPhaseType, WrapperMessage}
use raft_2pc_database.RoutingService.Config.{
  item, set_item, Address, LocalConfig, server_id_to_index,
}
use raft_2pc_database.RoutingService.{
  Transfer, to_str, Request, Queued, Call, RoutingService, Await, Rest, Task, Ran, call,
  count_reply,
}

-- transaction_request[cluster_id].append((request, time.time()))
unfoldable pub enqueue : ℤ → Request → ℕ → RoutingService → Option RoutingService
enqueue cluster_id request now s = elim (item s.transaction_request cluster_id) [
  | none ↦ none
  | some queue ↦
      let entry : Queued = record { request = request; request_time = now } in
      some (record s {
        transaction_request = set_item s.transaction_request cluster_id (queue ++ (entry ∷ []));
      })
]

-- A step that may raise an exception, then the rest.
unfoldable pub and_then {ℓ} : {A : Type ℓ} → Option A → (A → Ran) → RoutingService → Ran
and_then none next s = (s, none)
and_then (some a) next s = next a

module _ (c : LocalConfig) where
  -- server_ip_port_list[cluster_id][server_id_to_index(leader_per_cluster[cluster_id])]
  unfoldable pub leader_address : RoutingService → ℤ → Option Address
  leader_address s cluster_id = elim (item s.leader_per_cluster cluster_id) [
    | none ↦ none
    | some leader_id ↦ elim (item c.server_ip_port_list cluster_id) [
      | none ↦ none
      | some row ↦ item row (server_id_to_index c leader_id)
    ]
  ]

  -- A message to the leader, as far as the response.
  unfoldable pub redirect : ℤ → WrapperMessage → Task → RoutingService → Ran
  redirect cluster_id message task s = elim (leader_address s cluster_id) [
    | none ↦ (s, none)
    | some address ↦ (call (Call.send address message) s, some task)
  ]

  -- redirect_intra_shard_request_to_server
  unfoldable pub redirect_intra : IntraShardReq → Task → RoutingService → Ran
  redirect_intra req task s = redirect req.cluster_id (WrapperMessage.intra_shard_req req) task s

  -- redirect_cross_shard_request_to_server, as far as the response
  unfoldable pub redirect_cross : Transfer → ℤ → Rest → RoutingService → Ran
  redirect_cross t cluster_id rest s =
      redirect cluster_id (to_str CrossShardPhaseType.prepare t)
        (record { await = Await.prepare_response t; rest = rest }) s

  -- The servers of both clusters, in the order of the tasks.
  unfoldable pub targets : List Address → List Address → ℕ → ℕ → Option (List Address)
  targets senders receivers i zero = some []
  targets senders receivers i (suc n) =
      let others = targets senders receivers (i + 1) n in
      elim (item senders (pos i)) [
        | none ↦ none
        | some a ↦ elim (item receivers (pos i)) [
          | none ↦ none
          | some b ↦ elim others [ none ↦ none | some rest ↦ some (a ∷ b ∷ rest) ]
        ]
      ]

  unfoldable pub all_servers : Transfer → Option (List Address)
  all_servers t = elim (item c.server_ip_port_list t.sender_cluster_id) [
    | none ↦ none
    | some senders ↦ elim (item c.server_ip_port_list t.receiver_cluster_id) [
      | none ↦ none
      | some receivers ↦ targets senders receivers 0 c.num_server_per_cluster
    ]
  ]

  -- broadcast_commit_message and broadcast_abort_message, as far as the gather
  unfoldable pub broadcast : CrossShardPhaseType → Transfer → Task → RoutingService → Ran
  broadcast phase t task s = elim (all_servers t) [
    | none ↦ (s, none)
    | some servers ↦
        (record s { calls = s.calls ++ map (λ a. Call.send a (to_str phase t)) servers }, some task)
  ]

  -- The loop over the pending requests, then the queue is emptied.
  unfoldable pub run_pending : ℤ → ℕ → List Queued → RoutingService → Ran
  run_pending cluster_id writer [] s =
      let emptied = set_item s.transaction_request cluster_id [] in
      (call (Call.close writer) (record s { transaction_request = emptied }), none)
  run_pending cluster_id writer (entry ∷ entries) s =
      let rest = Rest.pending_loop cluster_id writer entries in
      elim entry.request [
        | Request.intra req ↦
            redirect_intra req (record { await = Await.queued_response req; rest = rest }) s
        | Request.cross t ↦ redirect_cross t cluster_id rest s
      ]

  abbrev pub refuse : Transfer → ℤ → Bool → Rest → RoutingService → Ran
  refuse t id timed_out rest s =
      broadcast CrossShardPhaseType.abort t
        (record { await = Await.abort_broadcast t id timed_out; rest = rest }) s

  -- process_message_queue removes a request from its queue, and goes on with the next one.
  unfoldable pub remove_request : Request → Rest → (RoutingService → Ran) → RoutingService → Ran
  remove_request (Request.intra req) rest next s = next s
  remove_request (Request.cross t) rest next s = elim (lookup t.id s.num_reply_for_2pc) [
    | none ↦ (s, none)
    | some n ↦
        if eq_ℤ n minus_one then next (count_reply t.id minus_one s) else refuse t t.id false rest s
  ]

  -- process_message_queue for one cluster: requests of less than three seconds are kept.
  unfoldable pub expire : ℕ → ℤ → List Queued → List Queued → RoutingService → Ran
  expire now cluster_id [] kept s =
      (record s { transaction_request = set_item s.transaction_request cluster_id kept }, none)
  expire now cluster_id (entry ∷ entries) kept s = elim (ltb now (entry.request_time + 3)) [
    | true ↦ expire now cluster_id entries (kept ++ (entry ∷ [])) s
    | false ↦
        remove_request entry.request (Rest.expire_loop cluster_id entries kept)
          (expire now cluster_id entries kept) s
  ]

  unfoldable pub continue : ℕ → Rest → RoutingService → Ran
  continue now Rest.finish s = (s, none)
  continue now (Rest.to_receiver t has_leader) s =
      if has_leader
      then redirect_cross t t.receiver_cluster_id Rest.finish s
      else and_then (enqueue t.receiver_cluster_id (Request.cross t) now s) (λ s'. (s', none)) s
  continue now (Rest.pending_loop cluster_id writer entries) s =
      run_pending cluster_id writer entries s
  continue now (Rest.expire_loop cluster_id entries kept) s = expire now cluster_id entries kept s
