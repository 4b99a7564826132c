-- ===== src/CrossShard/Shards.antt =====
-- The two shards of a cross-shard transaction and what they handle (CrossShardExecutor), in any
-- order, as a step relation over the handlers.
use raft_2pc_database.Prelude.{ok, ℤ, ◌≡◌, ◌≢◌}
use raft_2pc_database.Message.{AppendEntriesRsp, CrossShardReq, CrossShardPhaseType, IntraShardReq}
use raft_2pc_database.Command.Format.{Fmt}
use raft_2pc_database.DataShard.{Json}
use raft_2pc_database.World.{World}
use raft_2pc_database.AppendEntries
use raft_2pc_database.IntraShard
use raft_2pc_database.CrossShard.{execute_req}

-- What one shard handles: the transaction in any phase, other transactions up to their commit,
-- intra-shard requests, and responses of followers, on which a leader commits entries. A request may come late, more than once or never.
pub data ShardStep (fmt : Fmt) (json : Json) (req : CrossShardReq) : World → World → Type 0 where
  phase :
      (fd : ℤ) (p : CrossShardPhaseType) (w : World)
      → ShardStep fmt json req w (execute_req fmt json fd (record req { phase = p }) w)
  other :
      (fd : ℤ) (o : CrossShardReq) (w : World)
      → o.phase ≢ CrossShardPhaseType.commit
      → ShardStep fmt json req w (execute_req fmt json fd o w)
  intra :
      (fd : ℤ) (r : IntraShardReq) (w : World)
      → ShardStep fmt json req w (IntraShard.execute_req fmt fd r w)
  replicate :
      (fd : ℤ) (rsp : AppendEntriesRsp) (w t : World)
      → AppendEntries.execute_rsp json fd rsp w ≡ ok t
      → ShardStep fmt json req w t

-- The two shards.
pub record Shards : Type 0 where
  pub sender : World
  pub receiver : World

pub data Reach (fmt : Fmt) (json : Json) (req : CrossShardReq) (start : Shards)
    : Shards → Type 0 where
  begin : Reach fmt json req start start
  at_sender :
      {now : Shards} {w : World}
      → Reach fmt json req start now
      → ShardStep fmt json req now.sender w
      → Reach fmt json req start (record now { sender = w })
  at_receiver :
      {now : Shards} {w : World}
      → Reach fmt json req start now
      → ShardStep fmt json req now.receiver w
      → Reach fmt json req start (record now { receiver = w })
