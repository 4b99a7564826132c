-- ===== src/Message.antt =====
-- The protobuf messages (proto/*.proto). `int32` fields are `ℤ`, strings are lists of bytes, and
-- `repeated` fields are lists.
use raft_2pc_database.Prelude.{ℕ, ℤ, Bool, List}

-- proto/appendEntriesReq.proto
pub record Entry : Type 0 where
  pub term : ℤ
  pub index : ℤ
  pub command : List ℕ
  pub id : ℤ

pub record AppendEntriesReq : Type 0 where
  pub term : ℤ
  pub leader_id : ℤ
  pub prev_log_index : ℤ
  pub prev_log_term : ℤ
  pub entries : List Entry
  pub commit_index : ℤ
  pub server_id : ℤ

pub record AppendEntriesRsp : Type 0 where
  pub term : ℤ
  pub success : Bool
  pub server_id : ℤ

pub record RequestVoteReq : Type 0 where
  pub candidate_id : ℤ
  pub term : ℤ
  pub last_log_index : ℤ
  pub last_log_term : ℤ

pub record RequestVoteRsp : Type 0 where
  pub term : ℤ
  pub vote_granted : Bool

pub record IntraShardReq : Type 0 where
  pub cluster_id : ℤ
  pub sender_id : ℤ
  pub receiver_id : ℤ
  pub amount : ℤ
  pub id : ℤ

pub data IntraShardResultType : Type 0 where
  success fail : IntraShardResultType

pub record IntraShardRsp : Type 0 where
  pub result : IntraShardResultType
  pub id : ℤ

-- Proto3 enums are open: `other` is a number that names no phase.
pub data CrossShardPhaseType : Type 0 where
  prepare commit abort : CrossShardPhaseType
  other : ℤ → CrossShardPhaseType

pub record CrossShardReq : Type 0 where
  pub phase : CrossShardPhaseType
  pub sender_cluster_id : ℤ
  pub receiver_cluster_id : ℤ
  pub sender_id : ℤ
  pub receiver_id : ℤ
  pub amount : ℤ
  pub id : ℤ

pub data CrossShardResultType : Type 0 where
  yes_vote no_vote ack : CrossShardResultType

pub record CrossShardRsp : Type 0 where
  pub result : CrossShardResultType
  pub id : ℤ

pub record PrintBalanceReq : Type 0 where
  pub cluster_id : ℤ
  pub server_id : ℤ
  pub data_item_id : ℤ

pub record PrintBalanceRsp : Type 0 where
  pub cluster_id : ℤ
  pub server_id : ℤ
  pub data_item_id : ℤ
  pub balance : ℤ

pub record PrintDatastoreReq : Type 0 where
  pub cluster_id : ℤ
  pub server_id : ℤ

pub record PrintDatastoreRsp : Type 0 where
  pub cluster_id : ℤ
  pub server_id : ℤ
  pub entries : List Entry

-- The address of a server, in `Stop`, `Resume` and `Exit`.
pub record Target : Type 0 where
  pub cluster_id : ℤ
  pub server_id : ℤ

-- proto/wrapperMessage.proto; `not_set` is `MESSAGE_TYPE_NOT_SET`, the empty message.
pub data WrapperMessage : Type 0 where
  not_set : WrapperMessage
  stop resume exit : Target → WrapperMessage
  intra_shard_req : IntraShardReq → WrapperMessage
  intra_shard_rsp : IntraShardRsp → WrapperMessage
  cross_shard_req : CrossShardReq → WrapperMessage
  cross_shard_rsp : CrossShardRsp → WrapperMessage
  append_entries_req : AppendEntriesReq → WrapperMessage
  append_entries_rsp : AppendEntriesRsp → WrapperMessage
  request_vote_req : RequestVoteReq → WrapperMessage
  request_vote_rsp : RequestVoteRsp → WrapperMessage
  print_balance_req : PrintBalanceReq → WrapperMessage
  print_balance_rsp : PrintBalanceRsp → WrapperMessage
  print_datastore_req : PrintDatastoreReq → WrapperMessage
  print_datastore_rsp : PrintDatastoreRsp → WrapperMessage
