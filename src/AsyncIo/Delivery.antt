-- ===== src/AsyncIo/Delivery.antt =====
-- A message that the server sends to another, from the connection to the write and the read.
use raft_2pc_database.Prelude.{ℕ, ℤ, pos, false, ◌≡◌, refl, arith, List, [], ◌∷◌, ◌++◌, ok, ◌≤ℤ◌}
use raft_2pc_database.Message.{WrapperMessage}
use raft_2pc_database.Executors.{Executors}
use raft_2pc_database.Aio.{AioCall, AioData, AioEventType, AioMessageType, Completion}
use raft_2pc_database.Util.{Util}
use raft_2pc_database.Server.{AioServer, handle, on_event, on_write, issue_call}
use raft_2pc_database.AsyncIo.{
  Operation, Ring, submit, set_nonblocking, add_connect_request, add_write_request_buf, perform,
}

-- Metadata of a message that waits for a response.
abbrev pub waiting : AioEventType → ℤ → List ℕ → AioData
waiting event_type fd buf = record {
  fd = fd;
  event_type = event_type;
  buf = buf;
  message_type = AioMessageType.wait_response;
}

-- The ring with one more submission on a socket.
abbrev after_submission : Operation → AioData → ℤ → Ring → Ring
after_submission operation metadata socket ring = record ring {
  submitted = ring.submitted ++ (record { operation = operation; metadata = metadata } ∷ []);
  nonblocking = socket ∷ ring.nonblocking;
}

module _ (executors : Executors) (util : Util) where
  -- A call that submits an operation with its metadata.
  pub record Submits (call : AioCall) (operation : Operation) (metadata : AioData)
      (ring ring' : Ring) : Type 0 where
    pub performed : perform util call ring ≡ ok ring'
    pub submitted :
        ring'.submitted
        ≡ ring.submitted ++ (record { operation = operation; metadata = metadata } ∷ [])

  -- A completion on which the event loop makes one call.
  pub record Calls (listener res : ℤ) (metadata : AioData) (call : AioCall)
      (server server' : AioServer) : Type 0 where
    pub handled :
        handle executors util listener (Completion.completed res metadata) server ≡ ok server'
    pub called : server'.world.calls ≡ server.world.calls ++ (call ∷ [])

  -- A request that the server sends with a wait for the response is submitted as a connection;
  -- when that completes the event loop asks to write the serialised request on the same socket,
  -- which is submitted with the same bytes; and when the write completes it asks to read from
  -- this socket. This holds while no submission fails and both completions report no error.
  pub request_delivered :
      (ip : List ℕ) (port : ℤ) (m : WrapperMessage) (ring : Ring) (server : AioServer)
      (listener res res' : ℤ)
      → ring.submit_fails ≡ false
      → pos 0 ≤ℤ res
      → pos 0 ≤ℤ res'
      → let socket = ring.next_socket in
        let buf = util.serialize_msg_to_buf m in
        let connected = waiting AioEventType.event_connect socket buf in
        let written = waiting AioEventType.event_write socket buf in
        let connect = AioCall.add_connect_request ip port m AioMessageType.wait_response in
        let write = AioCall.add_write_request_buf socket buf AioMessageType.wait_response in
        (ring₁ ring₂ : Ring) × (server₁ server₂ : AioServer) × Submits connect
          (Operation.connect socket ip port)
          connected
          ring
          ring₁
        × Calls listener res connected write server server₁
        × Submits write (Operation.write socket buf) written ring₁ ring₂
        × Calls listener res' written (AioCall.add_read_request socket) server₁ server₂
  unfolding perform add_connect_request add_write_request_buf submit set_nonblocking handle on_event
      on_write
  request_delivered ip port m ring server listener res res' works done done' =
      let socket = ring.next_socket in
      let buf = util.serialize_msg_to_buf m in
      let ring₁ =
        after_submission (Operation.connect socket ip port)
          (waiting AioEventType.event_connect socket buf) socket ring in
      let server₁ =
        issue_call (AioCall.add_write_request_buf socket buf AioMessageType.wait_response) server in
      (
        ring₁,
        after_submission (Operation.write socket buf) (waiting AioEventType.event_write socket buf)
            socket ring₁,
        server₁,
        issue_call (AioCall.add_read_request socket) server₁,
        record { performed = ground (arith, works); submitted = refl },
        record { handled = ground (arith, done); called = refl },
        record { performed = ground (arith, works); submitted = refl },
        record { handled = ground (arith, done'); called = refl },
      )
