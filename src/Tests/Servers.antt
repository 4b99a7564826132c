-- ===== src/Tests/Servers.antt =====
-- A server that pretends to fail and is asked for its vote.
use raft_2pc_database.Prelude.{
  ℕ, pos, minus_one, true, false, [], ◌∷◌, negsuc, List, ◌≡◌, refl, ok, All,
}
use raft_2pc_database.Util.{Util, all_util}
use raft_2pc_database.Executors.{Executors, all_executors}
use raft_2pc_database.Command.Decimal.{decimal_fmt}
use raft_2pc_database.Message.{WrapperMessage}
use raft_2pc_database.Aio.{AioEventType, AioMessageType, Completion, Protobuf}
use raft_2pc_database.Server.{AioServer, start, run_loop}
use raft_2pc_database.Server.Failure.{Silent, wakes, run_loop-Silent}
use raft_2pc_database.Prelude.{arith}
use raft_2pc_database.Aio.{AioCall, AioData}
use raft_2pc_database.AsyncIo.{Ring, Operation}
use raft_2pc_database.AsyncIo.Delivery.{waiting, Submits, Calls, request_delivered}
use raft_2pc_database.Tests.Inputs.{no_json, empty_disk}

abbrev pub executors : Executors
executors = all_executors decimal_fmt no_json

-- A library that takes any text for one vote request.
abbrev parse_vote : List ℕ → WrapperMessage
parse_vote [] = WrapperMessage.not_set
parse_vote (c ∷ buf) = WrapperMessage.request_vote_req (record {
  candidate_id = pos 1;
  term = pos 1;
  last_log_index = minus_one;
  last_log_term = minus_one;
})

abbrev one_message : Protobuf
one_message = record { serialize = λ m. 1 ∷ []; parse = parse_vote; parse_empty = refl }

abbrev pub utils : Util
utils = all_util no_json one_message

abbrev failing_server : AioServer
failing_server = record (start utils (pos 0) (pos 0) ([], pos 8000) [] empty_disk) {
  pretend_fail = true;
}

-- A connection, the read of a vote request, and two timeouts.
abbrev vote_read : List Completion
vote_read =
    Completion.completed (pos 7) (record {
      fd = pos 3;
      event_type = AioEventType.event_accept;
      buf = [];
      message_type = AioMessageType.no_write;
    })
    ∷ Completion.completed (pos 1) (record {
      fd = pos 7;
      event_type = AioEventType.event_read;
      buf = 1 ∷ [];
      message_type = AioMessageType.no_write;
    })
    ∷ Completion.wait_failed
    ∷ Completion.completed (negsuc 61) (record {
      fd = pos 0;
      event_type = AioEventType.event_timeout;
      buf = [];
      message_type = AioMessageType.no_write;
    })
    ∷ []

failing_server_fails : failing_server.pretend_fail ≡ true
failing_server_fails = refl

vote_read_asleep : All (λ c. wakes utils c failing_server ≡ false) vote_read
vote_read_asleep = (refl, (refl, (refl, (refl, tt))))

run_loop-Silent_example :
    (t : AioServer) × (run_loop executors utils (pos 3) vote_read failing_server ≡ ok t)
    × Silent failing_server t
run_loop-Silent_example =
    run_loop-Silent executors utils (pos 3) vote_read failing_server failing_server_fails
      vote_read_asleep

abbrev ring : Ring
ring = record { submitted = []; nonblocking = []; next_socket = pos 11; submit_fails = false }

abbrev connected : AioData
connected = waiting AioEventType.event_connect (pos 11) (1 ∷ [])

abbrev written : AioData
written = waiting AioEventType.event_write (pos 11) (1 ∷ [])

abbrev connect : AioCall
connect =
    AioCall.add_connect_request [] (pos 8001) WrapperMessage.not_set AioMessageType.wait_response

abbrev write : AioCall
write = AioCall.add_write_request_buf (pos 11) (1 ∷ []) AioMessageType.wait_response

request_delivered_example :
    (ring₁ ring₂ : Ring) × (server₁ server₂ : AioServer) × Submits executors utils connect
      (Operation.connect (pos 11) [] (pos 8001))
      connected
      ring
      ring₁
    × Calls executors utils (pos 3) (pos 0) connected write failing_server server₁
    × Submits executors utils write (Operation.write (pos 11) (1 ∷ [])) written ring₁ ring₂
    × Calls executors utils
        (pos 3)
        (pos 1)
        written
        (AioCall.add_read_request (pos 11))
        server₁
        server₂
request_delivered_example =
    request_delivered executors utils [] (pos 8001) WrapperMessage.not_set ring failing_server
      (pos 3) (pos 0) (pos 1) refl (omega arith) (omega arith)

-- A server of a cluster of three.
abbrev pub timed_server : AioServer
timed_server =
    start utils (pos 0) (pos 0) ([], pos 8000)
      ((([], pos 8001) ∷ ([], pos 8002) ∷ ([], pos 8003) ∷ []) ∷ []) empty_disk
