-- ===== src/Start.antt =====
-- The parent process (server/main.cpp): the addresses of the servers, the servers that it starts,
-- and the command `exit`.
pub mod Ports
pub mod Config
pub mod Rows
pub mod Launch
pub mod Console
pub mod Parent
use raft_2pc_database.Prelude.{
  ℕ, zero, suc, ◌+◌, ◌*◌, ℤ, pos, int32, ◌+ℤ◌, if◌then◌else◌, Bool, ltb, List, [], ◌∷◌, ◌++◌,
  Result, at, ok, ◌>>=◌, length,
}
use raft_2pc_database.Message.{WrapperMessage}
use raft_2pc_database.Server.{Address, server_num_per_cluster}

-- The id of a server.
abbrev pub server_id_of : ℕ → ℕ → ℕ
server_id_of cluster_id index = cluster_id * server_num_per_cluster + index

-- `server_base_port + i * SERVER_NUM_PER_CLUSTER + j`
unfoldable pub server_port : ℤ → ℕ → ℕ → ℤ
server_port server_base_port i j = int32 (server_base_port +ℤ pos (server_id_of i j))

-- The inner loop from `j`. The rows have at least three addresses, and those behind stay.
unfoldable pub set_row : ℤ → ℕ → ℕ → List Address → List Address
unfolding server_port
set_row server_base_port i j [] = []
set_row server_base_port i j ((ip, port) ∷ row) =
    (ip, if ltb j server_num_per_cluster then server_port server_base_port i j else port)
    ∷ set_row server_base_port i (suc j) row

-- The loop from `i`: the ports for a base port on the command line.
unfoldable pub set_ports : ℤ → ℕ → List (List Address) → List (List Address)
unfolding set_row
set_ports server_base_port i [] = []
set_ports server_base_port i (row ∷ rows) =
    set_row server_base_port i 0 row ∷ set_ports server_base_port (suc i) rows

-- A server that the parent forks, with the arguments of its constructor.
pub record Child : Type 0 where
  pub cluster_id : ℤ
  pub server_id : ℤ

-- The servers of one cluster from `index` on, with the rounds left.
unfoldable pub cluster_children : ℕ → ℕ → ℕ → List Child
cluster_children cluster_id index zero = []
cluster_children cluster_id index (suc k) =
    record { cluster_id = pos cluster_id; server_id = pos (server_id_of cluster_id index) }
    ∷ cluster_children cluster_id (suc index) k

-- The loop that forks, from `cluster_id` on.
unfoldable pub children : ℕ → List (List Address) → List Child
unfolding cluster_children
children cluster_id [] = []
children cluster_id (row ∷ rows) =
    cluster_children cluster_id 0 server_num_per_cluster ++ children (suc cluster_id) rows

-- The message to one server.
abbrev pub exit_message : ℕ → ℕ → WrapperMessage
exit_message cluster_id index =
    WrapperMessage.exit
      (record { cluster_id = pos cluster_id; server_id = pos (server_id_of cluster_id index) })

-- A connection and what is sent on it.
pub record Delivery : Type 0 where
  pub address : Address
  pub message : WrapperMessage

-- The inner loop of `cmd` from `index`; `fails` tells whether `socket` or `connect` fails. A row
-- that is too short is undefined behaviour, which `at` reports.
unfoldable pub exit_row : (ℕ → ℕ → Bool) → ℕ → List Address → ℕ → ℕ → Result (List Delivery)
exit_row fails cluster_id row index zero = ok []
exit_row fails cluster_id row index (suc k) = do
  address ← at row (pos index)
  rest ← exit_row fails cluster_id row (suc index) k
  ok (
      if fails cluster_id index
      then rest
      else record { address = address; message = exit_message cluster_id index } ∷ rest)

-- What `cmd` sends for the command `exit`, from `cluster_id` on.
unfoldable pub exit_all : (ℕ → ℕ → Bool) → ℕ → List (List Address) → Result (List Delivery)
unfolding exit_row
exit_all fails cluster_id [] = ok []
exit_all fails cluster_id (row ∷ rows) = do
  these ← exit_row fails cluster_id row 0 server_num_per_cluster
  rest ← exit_all fails (suc cluster_id) rows
  ok (these ++ rest)
