-- ===== src/Server/Construct.antt =====
-- `setup_listening_socket` and the constructor (server/src/aIOServer.cpp).
use raft_2pc_database.Prelude.{
  ℕ, ◌%◌, ◌^◌, ℤ, pos, minus_one, eq_ℤ, ltb_ℤ, residue, if◌then◌else◌, List, Result, ok, exited, at,
  ◌>>=◌,
}
use raft_2pc_database.Aio.{Completion}
use raft_2pc_database.Util.{Util}
use raft_2pc_database.Executors.{Executors}
use raft_2pc_database.World.{Disk}
use raft_2pc_database.Server.Defs.{AioServer, Address}
use raft_2pc_database.Server.Broadcast.{mod_cluster}
use raft_2pc_database.Server.EventLoop.{start, run}

-- What the system calls on sockets return.
pub record SocketCalls : Type 0 where
  pub socket : ℤ
  pub setsockopt : (sock : ℤ) → ℤ
  pub bind : (sock : ℤ) → (port : ℕ) → ℤ
  pub listen : (sock backlog : ℤ) → ℤ

-- A socket on the port, of which `htons` keeps the last 16 bits; or the end of the process.
unfoldable pub setup_listening_socket : SocketCalls → ℤ → Result ℤ
setup_listening_socket calls port =
    let sock = calls.socket in
    if eq_ℤ sock minus_one
    then exited 1
    else if ltb_ℤ (calls.setsockopt sock) (pos 0)
    then exited 1
    else if ltb_ℤ (calls.bind sock (residue port % 2 ^ 16)) (pos 0)
    then exited 1
    else if ltb_ℤ (calls.listen sock (pos 10)) (pos 0)
    then exited 1
    else ok sock

-- The port that the constructor listens to.
unfoldable pub listening_port : List (List Address) → ℤ → ℤ → Result ℤ
listening_port server_ip_port_pairs cluster_id server_id = do
  row ← at server_ip_port_pairs cluster_id
  address ← at row (mod_cluster server_id)
  ok address.1

-- The constructor, which runs the event loop on the completions.
unfoldable pub construct :
    Executors
    → Util
    → SocketCalls
    → ℤ
    → ℤ
    → Address
    → List (List Address)
    → Disk
    → List Completion
    → Result AioServer
unfolding setup_listening_socket listening_port start run
construct executors util calls cluster_id server_id routing_service server_ip_port_pairs disk
      completions =
    do
      port ← listening_port server_ip_port_pairs cluster_id server_id
      server_socket ← setup_listening_socket calls port
      run executors util server_socket completions
          (start util cluster_id server_id routing_service server_ip_port_pairs disk)
