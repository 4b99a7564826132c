-- ===== src/Executors.antt =====
-- The executors as the server sees them (server/include/executor/): one interface for each class,
-- with its static functions. The async I/O layer and the Raft state, which the source passes by
-- pointer, are in the `World`.
pub mod Laws
pub mod Slots
use raft_2pc_database.Prelude.{ℤ, Result, ok}
use raft_2pc_database.Message.{
  RequestVoteReq, RequestVoteRsp, AppendEntriesReq, AppendEntriesRsp, IntraShardReq, CrossShardReq,
  PrintBalanceReq, PrintDatastoreReq,
}
use raft_2pc_database.Command.Format.{Fmt}
use raft_2pc_database.DataShard.{Json}
use raft_2pc_database.World.{World}
use raft_2pc_database.RequestVote
use raft_2pc_database.AppendEntries
use raft_2pc_database.IntraShard
use raft_2pc_database.CrossShard
use raft_2pc_database.Print

-- A static function: the sender's socket, the message, and the shared state before and after.
abbrev pub Handler : Type 0 → Type 0
Handler M = ℤ → M → World → Result World

pub record RequestVoteExecutor : Type 0 where
  pub execute_req : Handler RequestVoteReq
  pub execute_rsp : Handler RequestVoteRsp

pub record AppendEntriesExecutor : Type 0 where
  pub execute_req : Handler AppendEntriesReq
  pub execute_rsp : Handler AppendEntriesRsp

pub record IntraShardExecutor : Type 0 where
  pub execute_req : Handler IntraShardReq

pub record CrossShardExecutor : Type 0 where
  pub execute_req : Handler CrossShardReq

pub record PrintBalanceExecutor : Type 0 where
  pub execute_req : Handler PrintBalanceReq

pub record PrintDatastoreExecutor : Type 0 where
  pub execute_req : Handler PrintDatastoreReq

-- All that `AIOServer::process` calls.
pub record Executors : Type 0 where
  pub request_vote : RequestVoteExecutor
  pub append_entries : AppendEntriesExecutor
  pub intra_shard : IntraShardExecutor
  pub cross_shard : CrossShardExecutor
  pub print_balance : PrintBalanceExecutor
  pub print_datastore : PrintDatastoreExecutor

-- The executors of the repository.
abbrev pub all_executors : Fmt → Json → Executors
all_executors fmt json = record {
  request_vote = record {
    execute_req = λ fd req w. ok (RequestVote.execute_req fd req w);
    execute_rsp = λ fd rsp w. ok (RequestVote.execute_rsp fd rsp w);
  };
  append_entries = record {
    execute_req = AppendEntries.execute_req;
    execute_rsp = AppendEntries.execute_rsp json;
  };
  intra_shard = record { execute_req = λ fd req w. ok (IntraShard.execute_req fmt fd req w) };
  cross_shard = record { execute_req = λ fd req w. ok (CrossShard.execute_req fmt json fd req w) };
  print_balance = record { execute_req = λ fd req w. ok (Print.print_balance fd req w) };
  print_datastore = record { execute_req = Print.print_datastore };
}
