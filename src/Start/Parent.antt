-- ===== src/Start/Parent.antt =====
-- The parent behind the forks: the command line, the exit messages and the wait (server/main.cpp).
use raft_2pc_database.Prelude.{
  ℕ, zero, suc, ◌+◌, ◌<◌, ℤ, pos, Bool, true, false, List, [], ◌∷◌, ◌++◌, length, append-nil,
  append_assoc, map, get_elem?, Option, none, some, if◌then◌else◌, ◌&&◌, Result, ok, ◌>>=◌, ◌≡◌,
  refl, sym, ap, ◌∙◌, arith, ◌<ℤ◌,
}
use raft_2pc_database.Server.{Address}
use raft_2pc_database.Start.{Child, children, Delivery, exit_all}
use raft_2pc_database.Start.Config.{Settings, ConfigReader, configure}
use raft_2pc_database.Start.Rows.{configure-IsFull}
use raft_2pc_database.Start.Ports.{exit_of, own_addresses, exit_all-children}
use raft_2pc_database.Start.Launch.{Launched, launch, start_all}
use raft_2pc_database.Start.Console.{CommandLine, cmd}
use raft_2pc_database.Start.Console.Lines.{has_exit, cmd-has_exit}

-- How the parent ends: what it has sent, and the processes it has waited for.
pub record Ended : Type 0 where
  pub sent : List Delivery
  pub waited : List ℤ

-- The loop of `waitpid`, where `ends` tells which processes end, and those it has waited for.
-- `none`: it waits for ever for one that does not.
unfoldable pub wait_all : (ℤ → Bool) → List ℤ → Option (List ℤ)
wait_all ends [] = some []
wait_all ends (pid ∷ pids) =
    let rest = wait_all ends pids in
    if ends pid then elim rest [ none ↦ none | some waited ↦ some (pid ∷ waited) ] else none

-- `cmd(server_ip_port_pairs)`, the loop of `waitpid`, and `_exit(0)`, where `ends` tells which
-- processes end after what was sent; `none` is a parent that never comes to its end.
unfoldable pub run_parent :
    (ℕ → ℕ → Bool)
    → (List Delivery → ℤ → Bool)
    → ℕ
    → List ℕ
    → List (List Address)
    → List ℤ
    → Result (Option Ended)
unfolding cmd exit_all wait_all
run_parent fails ends fuel input server_ip_port_pairs server_pids = elim (cmd fuel input) [
  | CommandLine.exits ↦ exit_all fails 0 server_ip_port_pairs >>= λ sent.
      ok (elim (wait_all (ends sent) server_pids) [
        | none ↦ none
        | some waited ↦ some (record { sent = sent; waited = waited })
      ])
  | _ ↦ ok none
]

-- The ids that the forks give, from the `k`-th on.
abbrev pub forked : (ℕ → ℤ) → ℕ → List Child → List ℤ
forked fork k [] = []
forked fork k (c ∷ cs) = fork k ∷ forked fork (suc k) cs

launch-forked :
    (fork : ℕ → ℤ) (k : ℕ) (pids : List ℤ) (cs : List Child)
    → ((i : ℕ) → pos 0 <ℤ fork i)
    → launch fork k pids cs ≡ Launched.parent (pids ++ forked fork k cs)
unfolding launch
launch-forked fork k pids [] parents = ap Launched.parent (sym (append-nil pids))
launch-forked fork k pids (c ∷ cs) parents = ground (
  arith,
  parents k,
  launch-forked fork (suc k) (pids ++ (fork k ∷ [])) cs parents,
  append_assoc pids (fork k ∷ []) (forked fork (suc k) cs),
)

abbrev pub all_end : (ℤ → Bool) → List ℤ → Bool
all_end ends [] = true
all_end ends (pid ∷ pids) = ends pid && all_end ends pids

-- The loop comes to its end exactly if all processes end.
wait_all-all_end :
    (ends : ℤ → Bool) (pids : List ℤ)
    → wait_all ends pids ≡ (if all_end ends pids then some pids else none)
unfolding wait_all
wait_all-all_end ends [] = refl
wait_all-all_end ends (pid ∷ pids) = ground (arith, wait_all-all_end ends pids)

all_end-forked :
    (fork : ℕ → ℤ) (ends : ℤ → Bool) (k : ℕ) (cs : List Child)
    → ((i : ℕ) (c : Child) → get_elem? cs i ≡ some c → ends (fork (k + i)) ≡ true)
    → all_end ends (forked fork k cs) ≡ true
all_end-forked fork ends k [] h = refl
all_end-forked fork ends k (c ∷ cs) h =
    let here : k + 0 ≡ k = omega arith in
    let rest = all_end-forked fork ends (suc k) cs (λ i d there.
      let next : suc k + i ≡ k + suc i = omega arith in
      ap (λ j. ends (fork j)) next ∙ h (suc i) d there) in
    ground (arith, rest, rw here at (h 0 c refl))

-- What was sent to the server at a position.
delivery_at :
    (ds : List Delivery) (cs : List Child) (i : ℕ) (c : Child)
    → map (λ d. d.message) ds ≡ map exit_of cs
    → get_elem? cs i ≡ some c
    → (a : Address) × (get_elem? (map (λ (d : Delivery). d.address) ds) i ≡ some a)
      × (get_elem? ds i ≡ some (record { address = a; message = exit_of c }))
delivery_at [] [] i c same found = cc
delivery_at [] (x ∷ cs) i c same found = absurd (ground (arith, same))
delivery_at (d ∷ ds) [] i c same found = cc
delivery_at (d ∷ ds) (x ∷ cs) zero c same found = (d.address, refl, ground (arith, same, found))
delivery_at (d ∷ ds) (x ∷ cs) (suc i) c same found =
    delivery_at ds cs i c (ground (arith, same)) found

-- The parent sends exactly one Exit message for each server, to the server's own address and in
-- the order of their start, and then waits for all the processes that it started: it comes to
-- its end, having waited for them in this order, exactly if all of them end, whichever processes
-- end after what was sent, and it waits for ever otherwise; in particular it ends if the process
-- of a server ends once its Exit message was sent to its own address. This holds if the
-- configuration is read, every fork succeeds, no connection fails, and the input has a line with
-- exit as its first word; the fuel is more than the input has bytes.
pub start_all_parent_exits :
    (json : ConfigReader) (text : List ℕ) (args : List (List ℕ)) (fork : ℕ → ℤ)
    (ends others : List Delivery → ℤ → Bool) (fuel : ℕ) (input : List ℕ) (settings : Settings)
    → configure json (some text) args ≡ ok settings
    → ((i : ℕ) → pos 0 <ℤ fork i)
    → ((sent : List Delivery) (i j : ℕ) (c : Child) (a : Address)
        → get_elem? (children 0 settings.server_ip_port_pairs) i ≡ some c
        → get_elem? (own_addresses settings.server_ip_port_pairs) i ≡ some a
        → get_elem? sent j ≡ some (record { address = a; message = exit_of c })
        → ends sent (fork i) ≡ true)
    → length input < fuel
    → has_exit input ≡ true
    → let servers = children 0 settings.server_ip_port_pairs in
      let pids = forked fork 0 servers in
      (sent : List Delivery) × (start_all json (some text) args fork
        ≡ ok (settings, Launched.parent pids))
      × (run_parent (λ c i. false) ends fuel input settings.server_ip_port_pairs pids
          ≡ ok (some (record { sent = sent; waited = pids })))
      × (run_parent (λ c i. false) others fuel input settings.server_ip_port_pairs pids
          ≡ ok (
              if all_end (others sent) pids
              then some (record { sent = sent; waited = pids })
              else none))
      × (map (λ d. d.message) sent ≡ map exit_of servers)
      × (map (λ d. d.address) sent ≡ own_addresses settings.server_ip_port_pairs)
unfolding start_all run_parent
start_all_parent_exits json text args fork ends others fuel input settings read parents obeys enough
      asked =
    let servers = children 0 settings.server_ip_port_pairs in
    let (sent, delivered, messages, addresses) =
      exit_all-children 0 settings.server_ip_port_pairs
        (configure-IsFull json (some text) args read) in
    let pids = forked fork 0 servers in
    let all_done = all_end-forked fork (ends sent) 0 servers (λ i c there.
      let (a, own, got) = delivery_at sent servers i c messages there in
      let start : 0 + i ≡ i = omega arith in
      rw start (obeys sent i i c a there (rw addresses at own) got)) in
    let exits = cmd-has_exit fuel input enough in
    (
      sent,
      ground (arith, read, launch-forked fork 0 [] servers parents),
      ground (arith, exits, asked, delivered, all_done, wait_all-all_end (ends sent) pids),
      ground (arith, exits, asked, delivered, wait_all-all_end (others sent) pids),
      messages,
      addresses,
    )
