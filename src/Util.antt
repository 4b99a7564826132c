-- ===== src/Util.antt =====
-- The helpers that the server takes from server/include/util.hpp, as an interface, and
-- `serialize_msg_to_buf` and `parse_buf_to_msg` of server/src/util.cpp, around the protobuf library.
use raft_2pc_database.Prelude.{ℕ, ℤ, pos_part, List, take}
use raft_2pc_database.Message.{WrapperMessage}
use raft_2pc_database.Aio.{Protobuf}
use raft_2pc_database.RaftState.{RaftState}
use raft_2pc_database.World.{Disk}
use raft_2pc_database.DataShard.{Json, load_data_shard, update_data_shard}

-- The buffer that is filled; its size is the length of the text.
abbrev pub serialize_msg_to_buf : Protobuf → WrapperMessage → List ℕ
serialize_msg_to_buf protobuf wrapper_msg = protobuf.serialize wrapper_msg

-- The message in the first `buf_size` bytes.
abbrev pub parse_buf_to_msg : Protobuf → List ℕ → ℤ → WrapperMessage
parse_buf_to_msg protobuf buf buf_size = protobuf.parse (take (pos_part buf_size) buf)

-- The functions of the header. A data shard is read from and written to the files of the `Disk`.
pub record Util : Type 0 where
  pub load_data_shard : Disk → RaftState → RaftState
  pub update_data_shard : Disk × RaftState → Disk × RaftState
  pub serialize_msg_to_buf : WrapperMessage → List ℕ
  pub parse_buf_to_msg : (buf : List ℕ) → (buf_size : ℤ) → WrapperMessage

-- The helpers of the repository.
abbrev pub all_util : Json → Protobuf → Util
all_util json protobuf = record {
  load_data_shard = load_data_shard json;
  update_data_shard = update_data_shard json;
  serialize_msg_to_buf = serialize_msg_to_buf protobuf;
  parse_buf_to_msg = parse_buf_to_msg protobuf;
}
