-- ===== src/Tests/Launches.antt =====
-- A configuration of three clusters of three servers.
use raft_2pc_database.Prelude.{
  ℕ, ◌<◌, ◌*◌, ℤ, pos, List, [], ◌∷◌, some, none, ◌≡◌, refl, arith, ok, map, length, codes, false,
  Bool, true, if◌then◌else◌, get_elem?, int32,
}
use raft_2pc_database.Command.Scan.{scan_int}
use raft_2pc_database.Start.{set_ports, set_row, children, Child, Delivery}
use raft_2pc_database.Server.{Address}
use raft_2pc_database.Start.Ports.{exit_of, own_addresses}
use raft_2pc_database.Start.Config.{
  ConfigReader, Settings, configure, read_config, read_address, read_rows, read_row, read_cells,
  override_ports, stoi,
}
use raft_2pc_database.Start.Rows.{IsFull, configure-IsFull}
use raft_2pc_database.Start.Launch.{Launched, start_all}
use raft_2pc_database.Start.Console.{CommandLine, cmd}
use raft_2pc_database.Start.Console.Lines.{has_exit, cmd-has_exit}
use raft_2pc_database.Start.Parent.{forked, all_end, run_parent, start_all_parent_exits}

-- Every address is the same, and everything has three parts.
abbrev reader : ConfigReader
reader = record {
  string_at = λ text path. some (codes "127.0.0.1");
  int_at = λ text path. some (pos 8000);
  size_at = λ text path. 3;
}

abbrev args : List (List ℕ)
args = codes "9000" ∷ codes "9001" ∷ []

configured :
    (settings : Settings) × (configure reader (some []) args ≡ ok settings)
    × (3 < 3 * length settings.server_ip_port_pairs)
unfolding configure read_config read_address read_rows read_row read_cells override_ports stoi
    scan_int set_ports set_row int32
configured = (_, refl, omega arith)

configure-IsFull_example : IsFull configured.0.server_ip_port_pairs
configure-IsFull_example = configure-IsFull reader (some []) args configured.1

abbrev input : List ℕ
input = codes "balance 3\nexit\n"

cmd-has_exit_example :
    cmd 20 input ≡ (if has_exit input then CommandLine.exits else CommandLine.hangs)
cmd-has_exit_example = cmd-has_exit 20 input (omega arith)

-- The servers end once anything was sent.
abbrev ends : List Delivery → ℤ → Bool
ends [] pid = false
ends (d ∷ sent) pid = true

ends_after :
    (sent : List Delivery) (i j : ℕ) (c : Child) (a : Address)
    → get_elem? (children 0 configured.0.server_ip_port_pairs) i ≡ some c
    → get_elem? (own_addresses configured.0.server_ip_port_pairs) i ≡ some a
    → get_elem? sent j ≡ some (record { address = a; message = exit_of c })
    → ends sent (pos 100) ≡ true
ends_after [] i j c a server own got = cc
ends_after (d ∷ sent) i j c a server own got = refl

start_all_parent_exits_example :
    let rows = configured.0.server_ip_port_pairs in
    let pids = forked (λ i. pos 100) 0 (children 0 rows) in
    (sent : List Delivery) × (start_all reader (some []) args (λ i. pos 100)
      ≡ ok (configured.0, Launched.parent pids))
    × (run_parent (λ c i. false) ends 20 input rows pids
        ≡ ok (some (record { sent = sent; waited = pids })))
    × (run_parent (λ c i. false) (λ _ _. false) 20 input rows pids
        ≡ ok (
            if all_end (λ _. false) pids
            then some (record { sent = sent; waited = pids })
            else none))
    × (map (λ d. d.message) sent ≡ map exit_of (children 0 rows))
    × (map (λ d. d.address) sent ≡ own_addresses rows)
start_all_parent_exits_example =
    start_all_parent_exits reader [] args (λ i. pos 100) ends (λ _ _. false) 20 input configured.0
      configured.1 (λ i. omega arith) ends_after (omega arith) refl
