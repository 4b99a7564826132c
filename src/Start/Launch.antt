-- ===== src/Start/Launch.antt =====
-- The forks of `main`, and how the parent and the servers end (server/main.cpp).
use raft_2pc_database.Prelude.{
  ℕ, zero, suc, ◌<◌, ◌+◌, ◌*◌, ◌/◌, ap, ◌∙◌, ℤ, pos, List, [], ◌∷◌, ◌++◌, Option, some,
  if◌then◌else◌, eq_ℤ, ltb_ℤ, Result, ok, exited, ◌>>=◌, length, ◌≡◌, arith, ◌<ℤ◌, get_elem?,
}
use raft_2pc_database.Server.{Address}
use raft_2pc_database.Start.{Child, children, cluster_children}
use raft_2pc_database.Start.Config.{Settings, ConfigReader, configure}

-- What a process is after the loop: a server, a parent whose `fork` failed, or the parent with the
-- ids of the servers.
pub data Launched : Type 0 where
  serves : Child → Launched
  fork_failed : Launched
  parent : (server_pids : List ℤ) → Launched

-- The loop, where the `k`-th `fork` returns `fork k`.
unfoldable pub launch : (ℕ → ℤ) → ℕ → List ℤ → List Child → Launched
launch fork k server_pids [] = Launched.parent server_pids
launch fork k server_pids (c ∷ cs) =
    let more = launch fork (suc k) (server_pids ++ (fork k ∷ [])) cs in
    if eq_ℤ (fork k) (pos 0)
    then Launched.serves c
    else if ltb_ℤ (pos 0) (fork k)
    then more
    else Launched.fork_failed

-- `main`, up to the constructor of the server or the command line of the parent.
unfoldable pub start_all :
    ConfigReader → Option (List ℕ) → List (List ℕ) → (ℕ → ℤ) → Result (Settings × Launched)
unfolding launch
start_all json config_file args fork = do
  settings ← configure json config_file args
  elim (launch fork 0 [] (children 0 settings.server_ip_port_pairs)) [
    | Launched.fork_failed ↦ exited 1
    | other ↦ ok (settings, other)
  ]

launch-serves :
    (fork : ℕ → ℤ) (k n : ℕ) (pids : List ℤ) (cs : List Child) (c : Child)
    → ((i : ℕ) → i < k + n → pos 0 <ℤ fork i)
    → fork (k + n) ≡ pos 0
    → get_elem? cs n ≡ some c
    → launch fork k pids cs ≡ Launched.serves c
unfolding launch
launch-serves fork k n pids [] c parents child found = cc
launch-serves fork k zero pids (d ∷ cs) c parents child found =
    let here : k + 0 ≡ k = omega arith in ground (arith, rw here at child, found)
launch-serves fork k (suc n) pids (d ∷ cs) c parents child found =
    let there : suc k + n ≡ k + suc n = omega arith in
    let rest =
      launch-serves fork (suc k) n (pids ++ (fork k ∷ [])) cs c (λ i lt. parents i (omega arith))
        (ap fork there ∙ child) found in
    ground (arith, parents k (omega arith), rest)

-- The servers in the order of their forks.
children_at :
    (cluster_id n : ℕ) (rows : List (List Address))
    → n < 3 * length rows
    → get_elem? (children cluster_id rows) n
      ≡ some
          (record { cluster_id = pos (cluster_id + n / 3); server_id = pos (cluster_id * 3 + n) })
unfolding children cluster_children
children_at cluster_id n [] lt = absurd (omega arith)
children_at cluster_id zero (row ∷ rows) lt = ground arith
children_at cluster_id (suc zero) (row ∷ rows) lt = ground arith
children_at cluster_id (suc (suc zero)) (row ∷ rows) lt = ground arith
children_at cluster_id (suc (suc (suc n))) (row ∷ rows) lt =
    ground (arith, children_at (suc cluster_id) n rows (omega arith))

-- If the configuration is read and the fork number n returns in the child, while the forks in
-- front of it succeeded in the parent, then this process is the server n of the cluster n / 3,
-- if there are more than n servers.
pub start_all-serves :
    (json : ConfigReader) (text : List ℕ) (args : List (List ℕ)) (fork : ℕ → ℤ)
    (settings : Settings) (n : ℕ)
    → configure json (some text) args ≡ ok settings
    → n < 3 * length settings.server_ip_port_pairs
    → ((i : ℕ) → i < n → pos 0 <ℤ fork i)
    → fork n ≡ pos 0
    → start_all json (some text) args fork
      ≡ ok (settings, Launched.serves (record { cluster_id = pos (n / 3); server_id = pos n }))
unfolding start_all
start_all-serves json text args fork settings n read lt parents child =
    let first =
      launch-serves fork 0 n [] (children 0 settings.server_ip_port_pairs) _
        (λ i small. parents i (omega arith)) (ap fork (omega arith) ∙ child)
        (children_at 0 n settings.server_ip_port_pairs lt) in
    ground (arith, read, first)
