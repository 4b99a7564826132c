-- ===== src/World.antt =====
-- What the executors share by reference: the Raft state, the I/O layer and the data shard files.
use raft_2pc_database.Prelude.{ℕ, ℤ, Bool, List, [], ◌∷◌, ◌++◌}
use raft_2pc_database.Message.{WrapperMessage}
use raft_2pc_database.Aio.{AioCall, AioMessageType}
use raft_2pc_database.RaftState.{RaftState}

-- The folder of the data shards, and which of the system calls on an open file fail.
pub record Disk : Type 0 where
  pub files : List (List ℕ × List ℕ)  -- name and content
  pub read_fails : Bool
  pub truncate_fails : Bool
  pub write_fails : ℕ → Bool  -- by the number of the write

pub record World : Type 0 where
  pub raft : RaftState
  pub calls : List AioCall  -- the calls of the I/O layer so far, first call first
  pub disk : Disk

abbrev pub issue : AioCall → World → World
issue c w = record w { calls = w.calls ++ (c ∷ []) }

-- `aio->add_write_request_msg(client_socket, wrapper_msg, AIOMessageType::NO_RESPONSE)`
abbrev pub respond : ℤ → WrapperMessage → World → World
respond client_socket msg =
    issue (AioCall.add_write_request_msg client_socket msg AioMessageType.no_response)

abbrev pub with_raft : RaftState → World → World
with_raft s w = record w { raft = s }
