-- ===== src/Start/Config.antt =====
-- How `main` reads the configuration and the command line (server/main.cpp).
use raft_2pc_database.Prelude.{
  ℕ, zero, suc, ◌-◌, ℤ, pos, List, [], ◌∷◌, ◌++◌, Option, none, some, if◌then◌else◌, ltb, replicate,
  Result, ok, exited, undefined, ◌>>=◌, codes,
}
use raft_2pc_database.Command.Scan.{scan_int}
use raft_2pc_database.Server.{Address, server_num_per_cluster}
use raft_2pc_database.Start.{set_ports}

-- A step of `config[…]…[…]`.
pub data Key : Type 0 where
  name : List ℕ → Key
  position : ℕ → Key

-- nlohmann::json on the text of the configuration: the string and the `int` at a path, where `none`
-- is an exception, and the size of what stands there.
pub record ConfigReader : Type 0 where
  pub string_at : (text : List ℕ) → List Key → Option (List ℕ)
  pub int_at : (text : List ℕ) → List Key → Option ℤ
  pub size_at : (text : List ℕ) → List Key → ℕ

-- An exception that nothing catches: `std::terminate` aborts the process.
abbrev pub or_terminate {ℓ} : {A : Type ℓ} → Option A → Result A
or_terminate none = exited 134
or_terminate (some a) = ok a

-- `std::stoi`
unfoldable pub stoi : List ℕ → Result ℤ
stoi s = elim (scan_int s) [ none ↦ exited 134 | some (z, rest) ↦ ok z ]

-- The variables of `main` that the configuration sets.
pub record Settings : Type 0 where
  pub routing_service : Address
  pub server_ip_port_pairs : List (List Address)
  pub message_timeout_ms : ℤ

module _ (json : ConfigReader) (text : List ℕ) where
  -- `{ config[…]["IP"], config[…]["PORT"] }`
  unfoldable pub read_address : List Key → Result Address
  read_address path = do
    ip ← or_terminate (json.string_at text (path ++ (Key.name (codes "IP") ∷ [])))
    port ← or_terminate (json.int_at text (path ++ (Key.name (codes "PORT") ∷ [])))
    ok (ip, port)

  abbrev pub server_path : ℕ → ℕ → List Key
  server_path i j = Key.name (codes "SERVERS") ∷ Key.position i ∷ Key.position j ∷ []

  -- The inner loop from `j`, with the rounds left, on a row that was resized to `size`. The right
  -- side of the assignment is evaluated first.
  unfoldable pub read_cells : ℕ → ℕ → ℕ → ℕ → Result (List Address)
  unfolding read_address
  read_cells i size j zero = ok []
  read_cells i size j (suc k) = do
    address ← read_address (server_path i j)
    rest ← (if ltb j size then read_cells i size (suc j) k else undefined)
    ok (address ∷ rest)

  -- One round of the outer loop. Addresses behind the third keep the value of `resize`.
  unfoldable pub read_row : ℕ → Result (List Address)
  unfolding read_cells
  read_row i =
      let size = json.size_at text (Key.name (codes "SERVERS") ∷ Key.position i ∷ []) in
      read_cells i size 0 server_num_per_cluster >>= λ cells.
      ok (cells ++ replicate (size - server_num_per_cluster) ([], pos 0))

  -- The outer loop from `i`, with the rounds left.
  unfoldable pub read_rows : ℕ → ℕ → Result (List (List Address))
  unfolding read_row
  read_rows i zero = ok []
  read_rows i (suc k) = do row ← read_row i; rows ← read_rows (suc i) k; ok (row ∷ rows)

  unfoldable pub read_config : Result Settings
  unfolding read_address read_rows
  read_config = do
    routing_service ← read_address (Key.name (codes "ROUTING_SERVICE") ∷ [])
    server_ip_port_pairs ← read_rows 0 (json.size_at text (Key.name (codes "SERVERS") ∷ []))
    message_timeout_ms ←
        or_terminate (json.int_at text (Key.name (codes "MESSAGE_TIMEOUT_MS") ∷ []))
    ok (record {
      routing_service = routing_service;
      server_ip_port_pairs = server_ip_port_pairs;
      message_timeout_ms = message_timeout_ms;
    })

-- `if (argc > 2)`, on the arguments behind the program's name.
unfoldable pub override_ports : List (List ℕ) → Settings → Result Settings
unfolding stoi
override_ports (routing ∷ base ∷ more) settings = do
  routing_service_port ← stoi routing
  server_base_port ← stoi base
  ok (record settings {
    routing_service = (settings.routing_service.0, routing_service_port);
    server_ip_port_pairs = set_ports server_base_port 0 settings.server_ip_port_pairs;
  })
override_ports _ settings = ok settings

-- The part of `main` in front of the forks, where `none` is a configuration that does not open.
unfoldable pub configure : ConfigReader → Option (List ℕ) → List (List ℕ) → Result Settings
unfolding read_config override_ports
configure json none args = exited 1
configure json (some text) args = read_config json text >>= override_ports args
