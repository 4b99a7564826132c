-- ===== src/Server/Defs.antt =====
-- The state of the server (server/include/aIOServer.hpp).
use raft_2pc_database.Prelude.{ℕ, ℤ, Bool, List}
use raft_2pc_database.World.{World}

-- An IP address and a port.
abbrev pub Address : Type 0
Address = List ℕ × ℤ

abbrev pub server_num_per_cluster : ℕ
server_num_per_cluster = 3

abbrev pub heat_beat_interval_ms : ℕ
heat_beat_interval_ms = 100

abbrev pub term_timeout_ms : ℕ
term_timeout_ms = 200

-- The Raft state and the I/O layer, which the server holds by pointer, are in `world`.
pub record AioServer : Type 0 where
  pub cluster_id : ℤ
  pub server_id : ℤ
  pub routing_service : Address
  pub server_addresses : List (List Address)
  pub pretend_fail : Bool
  pub keep_running : Bool
  pub world : World
