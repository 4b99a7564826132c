-- ===== src/AsyncIo.antt =====
-- The submissions behind the calls of the I/O layer (server/src/asyncIO.cpp).
pub mod Delivery
use raft_2pc_database.Prelude.{
  ℕ, suc, ◌+◌, ◌*◌, ◌/◌, ◌%◌, ℤ, pos, negsuc, negate, Bool, false, ltb_ℤ, if◌then◌else◌, List, [],
  ◌∷◌, ◌++◌, replicate, Result, ok, exited,
}
use raft_2pc_database.Message.{WrapperMessage}
use raft_2pc_database.Util.{Util}
use raft_2pc_database.Aio.{AioCall, AioData, AioEventType, AioMessageType}

-- `io_uring_prep_…` with its arguments.
pub data Operation : Type 0 where
  timeout : (tv_sec tv_nsec : ℤ) → Operation
  accept : (server_socket : ℤ) → Operation
  connect : (client_socket : ℤ) → (ip : List ℕ) → (port : ℤ) → Operation
  read : (client_socket : ℤ) → (size : ℕ) → Operation
  write : (client_socket : ℤ) → (buf : List ℕ) → Operation

-- An entry of the submission queue, with its metadata.
pub record Submission : Type 0 where
  pub operation : Operation
  pub metadata : AioData

-- The kernel as the layer sees it: the entries submitted so far, the sockets that are non-blocking,
-- the socket that `socket` returns next, and whether `io_uring_submit` fails next.
pub record Ring : Type 0 where
  pub submitted : List Submission
  pub nonblocking : List ℤ
  pub next_socket : ℤ
  pub submit_fails : Bool

-- The constructor, where `status` is what `io_uring_queue_init_params` returns.
unfoldable pub init_ring : (status next_socket : ℤ) → Result Ring
init_ring status next_socket =
    if ltb_ℤ status (pos 0)
    then exited 1
    else ok (record {
      submitted = [];
      nonblocking = [];
      next_socket = next_socket;
      submit_fails = false;
    })

-- Its body is commented out.
abbrev pub set_timer : Ring → Ring
set_timer sqe = sqe

unfoldable pub submit : Operation → AioData → Ring → Result Ring
submit operation metadata ring =
    if ring.submit_fails
    then exited 1
    else ok (record ring {
      submitted = ring.submitted ++ (record { operation = operation; metadata = metadata } ∷ []);
    })

unfoldable pub set_nonblocking : ℤ → Ring → Ring
set_nonblocking sockfd ring = record ring { nonblocking = sockfd ∷ ring.nonblocking }

-- The metadata of a call that carries no message.
abbrev pub metadata_of : ℤ → AioEventType → List ℕ → AioData
metadata_of fd event_type buf = record {
  fd = fd;
  event_type = event_type;
  buf = buf;
  message_type = AioMessageType.no_write;
}

-- `/ 1000` and `% 1000`, which round towards zero.
abbrev pub seconds : ℤ → ℤ
seconds (pos ms) = pos (ms / 1000)
seconds (negsuc n) = negate (suc n / 1000)

abbrev pub nanoseconds : ℤ → ℤ
nanoseconds (pos ms) = pos (ms % 1000 * 1000000)
nanoseconds (negsuc n) = negate (suc n % 1000 * 1000000)

unfoldable pub add_timeout_request : ℤ → Ring → Result Ring
unfolding submit
add_timeout_request message_timeout_ms =
    submit (Operation.timeout (seconds message_timeout_ms) (nanoseconds message_timeout_ms))
      (metadata_of (pos 0) AioEventType.event_timeout [])

unfoldable pub add_accept_request : ℤ → Ring → Result Ring
unfolding submit
add_accept_request server_socket =
    submit (Operation.accept server_socket) (metadata_of server_socket AioEventType.event_accept [])

unfoldable pub add_read_request : ℤ → Ring → Result Ring
unfolding submit set_nonblocking
add_read_request client_socket ring =
    submit (Operation.read client_socket 1024)
      (metadata_of client_socket AioEventType.event_read (replicate 1024 0))
      (set_timer (set_nonblocking client_socket ring))

unfoldable pub add_write_request_buf : ℤ → List ℕ → AioMessageType → Ring → Result Ring
unfolding submit set_nonblocking
add_write_request_buf client_socket buf msg_type ring =
    submit (Operation.write client_socket buf)
      (record {
        fd = client_socket;
        event_type = AioEventType.event_write;
        buf = buf;
        message_type = msg_type;
      })
      (set_timer (set_nonblocking client_socket ring))

module _ (util : Util) where
  unfoldable pub add_connect_request :
      List ℕ → ℤ → WrapperMessage → AioMessageType → Ring → Result Ring
  unfolding submit set_nonblocking
  add_connect_request ip port wrapper_msg msg_type ring =
      let client_socket = ring.next_socket in
      submit (Operation.connect client_socket ip port)
        (record {
          fd = client_socket;
          event_type = AioEventType.event_connect;
          buf = util.serialize_msg_to_buf wrapper_msg;
          message_type = msg_type;
        })
        (set_nonblocking client_socket ring)

  unfoldable pub add_write_request_msg : ℤ → WrapperMessage → AioMessageType → Ring → Result Ring
  unfolding add_write_request_buf
  add_write_request_msg client_socket wrapper_msg =
      add_write_request_buf client_socket (util.serialize_msg_to_buf wrapper_msg)

  -- A call that the server makes, in the layer; `close` is a system call of its own.
  unfoldable pub perform : AioCall → Ring → Result Ring
  unfolding add_timeout_request add_accept_request add_connect_request add_read_request
      add_write_request_buf add_write_request_msg
  perform (AioCall.add_timeout_request ms) ring = add_timeout_request ms ring
  perform (AioCall.add_accept_request fd) ring = add_accept_request fd ring
  perform (AioCall.add_connect_request ip port m ty) ring = add_connect_request ip port m ty ring
  perform (AioCall.add_read_request fd) ring = add_read_request fd ring
  perform (AioCall.add_write_request_buf fd buf ty) ring = add_write_request_buf fd buf ty ring
  perform (AioCall.add_write_request_msg fd m ty) ring = add_write_request_msg fd m ty ring
  perform (AioCall.close fd) ring = ok ring
