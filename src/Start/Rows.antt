-- ===== src/Start/Rows.antt =====
-- The rows of addresses that `main` reads: how many addresses each has.
use raft_2pc_database.Prelude.{
  ℕ, zero, suc, ◌-◌, ◌≤◌, ℤ, pos, List, [], ◌∷◌, Option, none, some, if◌then◌else◌, ltb, replicate,
  ok, undefined, >>=-eq-ok, codes, ◌≡◌, refl, subst, ok-injective, ap, arith, All, length,
  length-append,
}
use raft_2pc_database.Server.{Address, server_num_per_cluster}
use raft_2pc_database.Start.{set_row, set_ports}
use raft_2pc_database.Start.Config.{
  Key, ConfigReader, Settings, stoi, or_terminate, read_address, server_path, read_cells, read_row,
  read_rows, read_config, override_ports, configure,
}

length-read_cells :
    (json : ConfigReader) (text : List ℕ) (i size j k : ℕ) (cells : List Address)
    → read_cells json text i size j k ≡ ok cells
    → length cells ≡ k
unfolding read_cells
length-read_cells json text i size j zero cells h = ground arith
length-read_cells json text i size j (suc k) cells h =
    let (address, _, h₁) = >>=-eq-ok (read_address json text (server_path json text i j)) _ h in
    let (rest, got, h₂) =
      >>=-eq-ok (if ltb j size then read_cells json text i size (suc j) k else undefined) _ h₁ in
    ground (arith, got, h₂, length-read_cells json text i size (suc j) k rest)

-- A cluster has at least three addresses.
abbrev pub IsFull : List (List Address) → Type 0
IsFull = All (λ row. server_num_per_cluster ≤ length row)

length-read_row :
    (json : ConfigReader) (text : List ℕ) (i : ℕ) (row : List Address)
    → read_row json text i ≡ ok row
    → server_num_per_cluster ≤ length row
unfolding read_row
length-read_row json text i row h =
    let size = json.size_at text (Key.name (codes "SERVERS") ∷ Key.position i ∷ []) in
    let (cells, got, h₁) = >>=-eq-ok (read_cells json text i size 0 3) _ h in
    ground (
      arith,
      h₁,
      length-read_cells json text i size 0 3 cells got,
      length-append cells (replicate (size - 3) ([], pos 0)),
    )

read_rows-IsFull :
    (json : ConfigReader) (text : List ℕ) (i k : ℕ) (rows : List (List Address))
    → read_rows json text i k ≡ ok rows
    → IsFull rows
unfolding read_rows
read_rows-IsFull json text i zero [] h = tt
read_rows-IsFull json text i zero (r ∷ rs) h = cc
read_rows-IsFull json text i (suc k) rows h =
    let (row, got, h₁) = >>=-eq-ok (read_row json text i) _ h in
    let (rest, got', h₂) = >>=-eq-ok (read_rows json text (suc i) k) _ h₁ in
    let here = length-read_row json text i row got in
    let there = read_rows-IsFull json text (suc i) k rest got' in
    subst IsFull (ok-injective h₂) (here, there)

length-set_row :
    (base : ℤ) (i j : ℕ) (row : List Address) → length (set_row base i j row) ≡ length row
unfolding set_row
length-set_row base i j [] = refl
length-set_row base i j ((ip, port) ∷ row) = ap suc (length-set_row base i (suc j) row)

set_ports-IsFull :
    (base : ℤ) (i : ℕ) (rows : List (List Address)) → IsFull rows → IsFull (set_ports base i rows)
unfolding set_ports
set_ports-IsFull base i [] h = tt
set_ports-IsFull base i (row ∷ rows) h =
    (omega (arith, h.0, length-set_row base i 0 row), set_ports-IsFull base (suc i) rows h.1)

read_config-IsFull :
    (json : ConfigReader) (text : List ℕ) (settings : Settings)
    → read_config json text ≡ ok settings
    → IsFull settings.server_ip_port_pairs
unfolding read_config
read_config-IsFull json text settings h =
    let size = json.size_at text (Key.name (codes "SERVERS") ∷ []) in
    let (routing, _, h₁) =
      >>=-eq-ok (read_address json text (Key.name (codes "ROUTING_SERVICE") ∷ [])) _ h in
    let (rows, got, h₂) = >>=-eq-ok (read_rows json text 0 size) _ h₁ in
    let (timeout, _, h₃) =
      >>=-eq-ok (or_terminate (json.int_at text (Key.name (codes "MESSAGE_TIMEOUT_MS") ∷ []))) _
        h₂ in
    subst (λ (s : Settings). IsFull s.server_ip_port_pairs) (ok-injective h₃)
      (read_rows-IsFull json text 0 size rows got)

override_ports-IsFull :
    (args : List (List ℕ)) (settings settings' : Settings)
    → IsFull settings.server_ip_port_pairs
    → override_ports args settings ≡ ok settings'
    → IsFull settings'.server_ip_port_pairs
unfolding override_ports
override_ports-IsFull [] settings settings' full h =
    subst (λ (s : Settings). IsFull s.server_ip_port_pairs) (ok-injective h) full
override_ports-IsFull (a ∷ []) settings settings' full h =
    subst (λ (s : Settings). IsFull s.server_ip_port_pairs) (ok-injective h) full
override_ports-IsFull (routing ∷ base ∷ more) settings settings' full h =
    let (routing_port, _, h₁) = >>=-eq-ok (stoi routing) _ h in
    let (base_port, _, h₂) = >>=-eq-ok (stoi base) _ h₁ in
    subst (λ (s : Settings). IsFull s.server_ip_port_pairs) (ok-injective h₂)
      (set_ports-IsFull base_port 0 settings.server_ip_port_pairs full)

-- Where main comes through the configuration and the command line, every cluster has at least
-- three addresses, also after the ports were overridden.
pub configure-IsFull :
    (json : ConfigReader) (config_file : Option (List ℕ)) (args : List (List ℕ))
    {settings : Settings}
    → configure json config_file args ≡ ok settings
    → IsFull settings.server_ip_port_pairs
unfolding configure
configure-IsFull json none args h = cc
configure-IsFull json (some text) args {settings} h =
    let (read, got, h₁) = >>=-eq-ok (read_config json text) _ h in
    override_ports-IsFull args read settings (read_config-IsFull json text read got) h₁
