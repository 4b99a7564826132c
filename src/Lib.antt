-- ===== src/Lib.antt =====
-- A key-value store of accounts in shards, each shard replicated by Raft in a cluster of three
-- servers, with two-phase commit between shards. The server (server/, in C++) is one process per
-- replica: an event loop takes completions of io_uring, parses a message, and one executor per kind
-- of message works on the shared Raft state and answers through the async I/O layer.
--
-- Files and what they model:
-- - Message: the protobuf messages (proto/). RaftState: server/src/raftState.cpp and the class of
--   server/include/raftState.hpp. Aio: the calls and completions of server/include/asyncIO.hpp.
-- - Command: the commands of log entries, printed with fmt::format (Format) and read back with
--   sscanf and substr (Scan) by the executors; Decimal is a printer.
-- - Executors: the classes of server/include/executor/ as an interface with laws, which the server
--   takes as a parameter. Util: server/include/util.hpp as an interface, with the buffers of
--   server/src/util.cpp.
-- - World: what the executors share. They take it by pointer; here each is a function from the
--   shared state to the shared state.
-- - DataShard: load_data_shard and update_data_shard of server/src/util.cpp.
-- - RequestVote, IntraShard, CrossShard, Print, AppendEntries (Follower: executeReq, Leader:
--   executeRsp): the executors of server/src/excutor/; execute_req and execute_rsp are executeReq
--   and executeRsp. AppendEntries/StateMachine is the abstract state machine of the
--   commands, AppendEntries/Loops has the two loops of executeReq statement by statement, and
--   CrossShard/Shards the two shards of a transaction as a step relation over the handlers.
-- - Server: server/src/aIOServer.cpp. Broadcast has broadcast_vote and broadcast_heart_beat, Process
--   has process, EventLoop has run and the members of the constructor (start), Construct has the
--   constructor with setup_listening_socket. Server/Replicate and Server/Backoff put a heart beat and
--   its follower together, Server/Timeouts is about the timer, Server/Keeping has the relations that
--   the event loop keeps if the executors do, Server/Terms and Server/Slots are two of them,
--   Server/Leadership has a leader between two elections and Server/Positions the indices of its log,
--   Server/FirstBeat and Server/Winning are about the vote that makes it leader,
--   Server/Failure is about a server that pretends to fail.
-- - AsyncIo: server/src/asyncIO.cpp, the submission behind each call, and the set-up of the ring.
-- - Start: server/main.cpp, the ports and ids of the servers and the exit command. Start/Config reads
--   the configuration and the arguments, Start/Launch has the forks, Start/Console the loop of the
--   command line (Start/Console/Lines describes it by the lines of the input), Start/Parent what the
--   parent does after it.
-- - RoutingService: client/routingservice.py, the coordinator of two-phase commit. Config has
--   client/config.py; Redirect the redirects to the leaders, the broadcasts and the loops over the
--   queues; Handlers has handle_request and what follows each await; Schedule is the event loop of
--   asyncio as a list of events. A coroutine that awaits is a value, so others run in between; the
--   awaits of drain and wait_closed after the answer to a client are one step with that answer.
-- - Cluster: three servers with their network, as a step relation over the handlers.
-- - Money: the sum of the balances. Prelude: integers, tables, lists and results. Tests: examples.
--
-- An int is a ℤ of the range of 32 bits; where the source adds or subtracts, the result wraps
-- around, which is what two's complement does where C++ leaves signed overflow undefined. A vector
-- read out of bounds and a variable that sscanf leaves unset are the result undefined, fatal_error
-- is exited. The loops of the source are recursions on the list, or on the number of rounds that
-- their bounds give (rounds), so none runs out of fuel; Decimal takes n + 1 rounds for the digits of
-- n, which has no more digits than that. operator[] of an unordered_map inserts a default when it
-- reads; the model makes this insertion (touch). In the routing service an exception ends the
-- coroutine, and an index below zero counts from the end of a list, as in Python.
--
-- The loop that pops entries takes as many rounds as the log is long, and pops one in each.
-- The command line takes fuel, of which each command uses one; more than the input has bytes is
-- enough, since each command takes at least one byte.
--
-- Parameters stand for code that is not in the repository: {fmt} (Fmt, with the value of the digits
-- it prints as hypothesis), nlohmann::json (Json for the data shards, ConfigReader for the
-- configuration), the code that protoc makes (Protobuf), and the results of the system calls
-- (SocketCalls for the listening socket, the numbers that fork returns, which processes waitpid
-- sees end, the completions).
--
-- Not modelled: the log output, the latency measurements of the routing service, the
-- command-line client in Python, and the copy of nlohmann/json.
pub mod Prelude
pub mod Message
pub mod RaftState
pub mod Aio
pub mod Command
pub mod World
pub mod DataShard
pub mod Util
pub mod Money
pub mod RequestVote
pub mod IntraShard
pub mod CrossShard
pub mod Print
pub mod AppendEntries
pub mod Executors
pub mod Server
pub mod Cluster
pub mod Start
pub mod AsyncIo
pub mod RoutingService
pub mod Tests
