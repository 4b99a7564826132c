-- ===== src/RoutingService/Handlers.antt =====
-- client/routingservice.py: handle_request, and what redirect_cross_shard_request_to_server and the
-- other coroutines do when an awaited call has come back.
use raft_2pc_database.Prelude.{
  ℕ, suc, ◌^◌, ℤ, pos, minus_one, ◌+ℤ◌, eq_ℤ, leb, Bool, true, false, not, if◌then◌else◌, [], List,
  ◌∷◌, Option, none, some,
}
use raft_2pc_database.Prelude.Table.{lookup, insert}
use raft_2pc_database.Message.{
  IntraShardReq, CrossShardReq, CrossShardPhaseType, CrossShardResultType, WrapperMessage,
}
use raft_2pc_database.RoutingService.Config.{item, set_item, LocalConfig, get_cluster_id_for_server}
use raft_2pc_database.RoutingService.{
  Transfer, Request, Queued, Reply, Call, RoutingService, Await, Rest, Task, Outcome, Ran, call,
  count_reply,
}
use raft_2pc_database.RoutingService.Redirect.{
  enqueue, and_then, redirect_intra, redirect_cross, broadcast, run_pending, refuse, continue,
}

-- conn_for_cross[id].write(...), which ends a broadcast
unfoldable pub answer_cross : ℤ → Reply → RoutingService → Option RoutingService
answer_cross id reply s = elim (lookup id s.conn_for_cross) [
  | none ↦ none
  | some writer ↦ some (call (Call.answer writer reply) s)
]

-- The next transaction id, in a field of type int32: a larger one is a ValueError.
abbrev pub fits_int32 : ℕ → Bool
fits_int32 n = not (leb (2 ^ 31) n)

abbrev pub transfer : ℤ → CrossShardReq → Transfer
transfer id req = record {
  sender_cluster_id = req.sender_cluster_id;
  receiver_cluster_id = req.receiver_cluster_id;
  sender_id = req.sender_id;
  receiver_id = req.receiver_id;
  amount = req.amount;
  id = id;
}

module _ (c : LocalConfig) where
  -- The branch NO of redirect_cross_shard_request_to_server, and the one of TimeoutError. After
  -- a timeout there is no response, so reading its result raises an AttributeError.
  unfoldable pub on_refusal : ℕ → Transfer → ℤ → Bool → Rest → RoutingService → Ran
  on_refusal now t id timed_out rest s = elim (lookup id s.num_reply_for_2pc) [
    | none ↦ (s, none)
    | some n ↦
        let settled = count_reply id minus_one s in
        if not (eq_ℤ n minus_one)
        then refuse c t id timed_out rest s
        else if timed_out
        then (settled, none)
        else continue c now rest settled
  ]

  -- The branch YES.
  unfoldable pub on_yes : ℕ → Transfer → ℤ → Rest → RoutingService → Ran
  on_yes now t id rest s = elim (lookup id s.num_reply_for_2pc) [
    | none ↦ (s, none)
    | some n ↦
        let counted = count_reply id (n +ℤ pos 1) s in
        if eq_ℤ (n +ℤ pos 1) (pos 2)
        then broadcast c CrossShardPhaseType.commit t
            (record { await = Await.commit_broadcast t; rest = rest }) counted
        else continue c now rest counted
  ]

  -- A message without a CrossShardRsp is parsed to None, whose result is an AttributeError.
  unfoldable pub on_vote : ℕ → Transfer → Rest → WrapperMessage → RoutingService → Ran
  on_vote now t rest (WrapperMessage.cross_shard_rsp rsp) s = elim rsp.result [
    | CrossShardResultType.yes_vote ↦ on_yes now t rsp.id rest s
    | CrossShardResultType.no_vote ↦ on_refusal now t rsp.id false rest s
    | CrossShardResultType.ack ↦ continue c now rest s
  ]
  on_vote now t rest _ s = (s, none)

  -- A coroutine goes on with what came of the awaited call.
  unfoldable pub on_await : ℕ → Rest → RoutingService → Await → Outcome → Ran
  on_await now rest s (Await.intra_response req writer) (Outcome.response message) =
      continue c now rest (call (Call.answer writer (Reply.forwarded message)) s)
  on_await now rest s (Await.queued_response req) (Outcome.response message) =
      elim (lookup req.id s.conn_for_intra) [
        | none ↦ (s, none)
        | some writer ↦ continue c now rest (call (Call.answer writer (Reply.forwarded message)) s)
      ]
  on_await now rest s (Await.prepare_response t) (Outcome.response message) =
      on_vote now t rest message s
  on_await now rest s (Await.prepare_response t) Outcome.timeout = on_refusal now t t.id true rest s
  on_await now rest s (Await.commit_broadcast t) Outcome.ended =
      and_then (answer_cross t.id Reply.succeed s) (continue c now rest) s
  on_await now rest s (Await.abort_broadcast t id timed_out) Outcome.ended =
      and_then (answer_cross t.id Reply.aborted s)
        (λ s'.
          let settled = count_reply id minus_one s' in
          if timed_out then (settled, none) else continue c now rest settled)
        s
  on_await now rest s _ _ = (s, none)

  unfoldable pub resume : ℕ → Outcome → Task → RoutingService → Ran
  resume now outcome task s = on_await now task.rest s task.await outcome

  -- `if pending_requests:`, then the connection of the heart beat is closed.
  unfoldable pub execute_pending : ℤ → ℕ → List Queued → RoutingService → Ran
  execute_pending cluster_id writer [] s = (call (Call.close writer) s, none)
  execute_pending cluster_id writer (entry ∷ entries) s =
      run_pending c cluster_id writer (entry ∷ entries) s

  -- A heart beat of a leader.
  unfoldable pub handle_append_entries : ℕ → ℤ → RoutingService → Ran
  handle_append_entries writer server_id s =
      let cluster_id = get_cluster_id_for_server c server_id in
      let leaders = set_item s.leader_per_cluster cluster_id server_id in
      let known = record s { leader_per_cluster = leaders } in
      and_then (item s.leader_per_cluster cluster_id)
        (λ leader_id.
          if eq_ℤ leader_id minus_one
          then and_then (item s.transaction_request cluster_id)
              (λ pending_requests. execute_pending cluster_id writer pending_requests known) known
          else (call (Call.close writer) known, none))
        s

  -- A request for votes: the cluster has no leader.
  unfoldable pub handle_request_vote : ℕ → ℤ → RoutingService → Ran
  handle_request_vote writer server_id s =
      let cluster_id = get_cluster_id_for_server c server_id in
      let leaders = set_item s.leader_per_cluster cluster_id minus_one in
      let unknown = record s { leader_per_cluster = leaders } in
      and_then (item s.leader_per_cluster cluster_id)
        (λ leader_id. (call (Call.close writer) unknown, none)) s

  unfoldable pub handle_intra : ℕ → ℕ → IntraShardReq → RoutingService → Ran
  handle_intra now writer received s =
      let id = suc s.transaction_id in
      let req = record received { id = pos id } in
      let s₁ = record s { transaction_id = id } in
      let s₂ = record s₁ { conn_for_intra = insert (pos id) writer s₁.conn_for_intra } in
      let waits : Task = record { await = Await.intra_response req writer; rest = Rest.finish } in
      if fits_int32 id
      then and_then (item s.leader_per_cluster req.cluster_id)
          (λ leader_id.
            if eq_ℤ leader_id minus_one
            then and_then (enqueue req.cluster_id (Request.intra req) now s₂) (λ s'. (s', none)) s₂
            else redirect_intra c req waits s₁)
          s₁
      else (s₁, none)

  -- The request to the sender's cluster, then the one to the receiver's.
  unfoldable pub start_transfer : ℕ → Transfer → Bool → Bool → RoutingService → Ran
  start_transfer now t sender_has_leader receiver_has_leader s =
      let rest = Rest.to_receiver t receiver_has_leader in
      if sender_has_leader
      then redirect_cross c t t.sender_cluster_id rest s
      else and_then (enqueue t.sender_cluster_id (Request.cross t) now s) (continue c now rest) s

  unfoldable pub handle_cross : ℕ → ℕ → CrossShardReq → RoutingService → Ran
  handle_cross now writer req s =
      let id = suc s.transaction_id in
      let t = transfer (pos id) req in
      let s₁ = record s { transaction_id = id } in
      let s₂ = record (count_reply (pos id) (pos 0) s₁) {
        conn_for_cross = insert (pos id) writer s₁.conn_for_cross;
      } in
      if fits_int32 id
      then and_then (item s.leader_per_cluster t.sender_cluster_id)
          (λ sender_leader.
            and_then (item s.leader_per_cluster t.receiver_cluster_id)
              (λ receiver_leader.
                start_transfer now t (not (eq_ℤ sender_leader minus_one))
                  (not (eq_ℤ receiver_leader minus_one)) s₂)
              s₂)
          s₂
      else (s₁, none)

  unfoldable pub handle_request : ℕ → ℕ → WrapperMessage → RoutingService → Ran
  handle_request now writer (WrapperMessage.append_entries_req req) s =
      handle_append_entries writer req.leader_id s
  handle_request now writer (WrapperMessage.request_vote_req req) s =
      handle_request_vote writer req.candidate_id s
  handle_request now writer (WrapperMessage.intra_shard_req req) s = handle_intra now writer req s
  handle_request now writer (WrapperMessage.cross_shard_req req) s = handle_cross now writer req s
  handle_request now writer _ s = (s, none)
