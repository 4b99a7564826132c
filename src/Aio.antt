-- ===== src/Aio.antt =====
-- The calls of the asynchronous I/O layer (server/include/asyncIO.hpp) that the rest of the server
-- makes, as values in the order in which they are made.
use raft_2pc_database.Prelude.{ℕ, ℤ, List, [], ◌≡◌}
use raft_2pc_database.Message.{WrapperMessage}

-- `AIOMessageType`; its `NONE` marks what is no write.
pub data AioMessageType : Type 0 where
  no_write wait_response no_response : AioMessageType

-- One call of a method of `AsyncIO`, or of `close`.
pub data AioCall : Type 0 where
  add_timeout_request : (message_timeout_ms : ℤ) → AioCall
  add_accept_request : (server_socket : ℤ) → AioCall
  add_connect_request : (ip : List ℕ) (port : ℤ) → WrapperMessage → AioMessageType → AioCall
  add_read_request : (client_socket : ℤ) → AioCall
  add_write_request_buf : (client_socket : ℤ) → (buf : List ℕ) → AioMessageType → AioCall
  add_write_request_msg : (client_socket : ℤ) → WrapperMessage → AioMessageType → AioCall
  close : (fd : ℤ) → AioCall

-- The protobuf library: what `SerializeToString` writes, and the message that `ParseFromArray`
-- leaves, which is the empty message for no bytes.
pub record Protobuf : Type 0 where
  pub serialize : WrapperMessage → List ℕ
  pub parse : List ℕ → WrapperMessage
  pub parse_empty : parse [] ≡ WrapperMessage.not_set

-- `AIOEventType`
pub data AioEventType : Type 0 where
  event_accept event_connect event_read event_write event_timeout : AioEventType

-- `AIOData`; the size of the buffer is its length.
pub record AioData : Type 0 where
  pub fd : ℤ
  pub event_type : AioEventType
  pub buf : List ℕ
  pub message_type : AioMessageType

-- What `io_uring_wait_cqe` comes back with: an error, or an entry with `res` and its data.
pub data Completion : Type 0 where
  wait_failed : Completion
  completed : (res : ℤ) → AioData → Completion
