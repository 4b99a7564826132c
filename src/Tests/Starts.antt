-- ===== src/Tests/Starts.antt =====
-- Two clusters of three servers, on ports from 8001.
use raft_2pc_database.Prelude.{pos, List, [], ◌∷◌, ◌≡◌, arith, All, ◌≤◌, length, map, ok, false}
use raft_2pc_database.Server.{Address, server_num_per_cluster}
use raft_2pc_database.Start.{Delivery, exit_all, children}
use raft_2pc_database.Start.Ports.{exit_of, own_addresses, exit_all-children}

abbrev some_row : List Address
some_row = ([], pos 0) ∷ ([], pos 0) ∷ ([], pos 0) ∷ []

abbrev rows : List (List Address)
rows = some_row ∷ some_row ∷ []

rows_full : All (λ row. server_num_per_cluster ≤ length row) rows
rows_full = (omega arith, (omega arith, tt))

exit_all-children_example :
    (ds : List Delivery) × (exit_all (λ c i. false) 0 rows ≡ ok ds)
    × (map (λ d. d.message) ds ≡ map exit_of (children 0 rows))
    × (map (λ d. d.address) ds ≡ own_addresses rows)
exit_all-children_example = exit_all-children 0 rows rows_full
