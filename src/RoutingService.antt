-- ===== src/RoutingService.antt =====
-- client/routingservice.py: the coordinator of two-phase commit, which passes the requests of the
-- clients on to the leaders. A coroutine that awaits is a value (Task), so that other coroutines
-- run in between; an exception ends the coroutine, since handle_connection catches it.
pub mod Config
pub mod Redirect
pub mod Handlers
pub mod Schedule
pub mod Counted
pub mod Ballots
pub mod Votes
pub mod Steps
pub mod Decision
pub mod LeaderLost
use raft_2pc_database.Prelude.{ℕ, ℤ, minus_one, Bool, List, [], ◌∷◌, ◌++◌, replicate, Option}
use raft_2pc_database.Prelude.Table.{Table, insert}
use raft_2pc_database.Message.{IntraShardReq, CrossShardPhaseType, WrapperMessage}
use Config.{Address, LocalConfig}

-- The arguments of CrossShardReqSerializer.to_str, but for the phase.
pub record Transfer : Type 0 where
  pub sender_cluster_id : ℤ
  pub receiver_cluster_id : ℤ
  pub sender_id : ℤ
  pub receiver_id : ℤ
  pub amount : ℤ
  pub id : ℤ

-- CrossShardReqSerializer.to_str
unfoldable pub to_str : CrossShardPhaseType → Transfer → WrapperMessage
to_str phase t = WrapperMessage.cross_shard_req (record {
  phase = phase;
  sender_cluster_id = t.sender_cluster_id;
  receiver_cluster_id = t.receiver_cluster_id;
  sender_id = t.sender_id;
  receiver_id = t.receiver_id;
  amount = t.amount;
  id = t.id;
})

-- A message_with_id: a cross-shard request is one of the phase PREPARE.
pub data Request : Type 0 where
  intra : IntraShardReq → Request
  cross : Transfer → Request

pub record Queued : Type 0 where
  pub request : Request
  pub request_time : ℕ  -- in seconds

pub data Reply : Type 0 where
  forwarded : WrapperMessage → Reply
  succeed aborted : Reply

-- What the service does with its connections: send_message_to_raft_async, the answer to a client
-- on its writer, which is closed then, and the bare close.
pub data Call : Type 0 where
  send : Address → WrapperMessage → Call
  answer : ℕ → Reply → Call
  close : ℕ → Call

-- The attributes of the class, without those that measure latencies.
pub record RoutingService : Type 0 where
  pub leader_per_cluster : List ℤ
  pub transaction_id : ℕ
  pub num_reply_for_2pc : Table ℤ
  pub transaction_request : List (List Queued)
  pub conn_for_intra : Table ℕ
  pub conn_for_cross : Table ℕ
  pub calls : List Call  -- the calls so far, first call first

-- The constructor.
unfoldable pub init : LocalConfig → RoutingService
init c = record {
  leader_per_cluster = replicate c.num_cluster minus_one;
  transaction_id = 0;
  num_reply_for_2pc = [];
  transaction_request = replicate c.num_cluster [];
  conn_for_intra = [];
  conn_for_cross = [];
  calls = [];
}

-- What a coroutine awaits. `queued_response` is the one of the loop over pending requests;
-- `timed_out` says that the abort follows a timeout.
pub data Await : Type 0 where
  intra_response : IntraShardReq → (writer : ℕ) → Await
  queued_response : IntraShardReq → Await
  prepare_response : Transfer → Await
  commit_broadcast : Transfer → Await
  abort_broadcast : Transfer → (id : ℤ) → (timed_out : Bool) → Await

-- What follows behind the awaited call.
pub data Rest : Type 0 where
  finish : Rest
  to_receiver : Transfer → (has_leader : Bool) → Rest
  pending_loop : (cluster_id : ℤ) → (writer : ℕ) → List Queued → Rest
  expire_loop : (cluster_id : ℤ) → List Queued → (kept : List Queued) → Rest

pub record Task : Type 0 where
  pub await : Await
  pub rest : Rest

-- What comes of an awaited call: the message that was read, TimeoutError, another exception, or
-- the end of a broadcast, whose own exceptions are caught.
pub data Outcome : Type 0 where
  response : WrapperMessage → Outcome
  timeout failed ended : Outcome

-- The service after a piece of a coroutine, and where the coroutine awaits again.
abbrev pub Ran : Type 0
Ran = RoutingService × Option Task

abbrev pub call : Call → RoutingService → RoutingService
call a s = record s { calls = s.calls ++ (a ∷ []) }

abbrev pub count_reply : ℤ → ℤ → RoutingService → RoutingService
count_reply id n s = record s { num_reply_for_2pc = insert id n s.num_reply_for_2pc }
