-- ===== src/Start/Ports.antt =====
-- The servers, their ports and the exit messages fit together.
use raft_2pc_database.Prelude.{
  ℕ, zero, suc, ◌+◌, ◌*◌, ◌%◌, ◌≤◌, ◌<◌, ◌^◌, ◌≡◌, refl, sym, ap, ap₂, ◌∙◌, arith, ℤ, pos, int32,
  int32_of_InRange, ◌+ℤ◌, Bool, false, List, [], ◌∷◌, ◌++◌, map, take, drop, some, get_elem?,
  length, ok, get_elem?_in_range, All,
}
use raft_2pc_database.Message.{WrapperMessage}
use raft_2pc_database.Server.{Address, server_num_per_cluster, listening_port}
use raft_2pc_database.Start.{
  server_id_of, server_port, set_row, set_ports, Child, cluster_children, children, Delivery,
  exit_message, exit_row, exit_all,
}

get_elem?-set_row :
    (base : ℤ) (i j k : ℕ) (row : List Address) (ip : List ℕ) (port : ℤ)
    → get_elem? row k ≡ some (ip, port)
    → j + k < server_num_per_cluster
    → get_elem? (set_row base i j row) k ≡ some (ip, server_port base i (j + k))
unfolding set_row
get_elem?-set_row base i j k [] ip port h lt = cc
get_elem?-set_row base i j zero ((a, p) ∷ row) ip port h lt = ground arith
get_elem?-set_row base i j (suc k) ((a, p) ∷ row) ip port h lt =
    let shifted : suc j + k ≡ j + suc k = omega arith in
    rw (← shifted) (get_elem?-set_row base i (suc j) k row ip port h (omega arith))

get_elem?-set_ports :
    (base : ℤ) (i k : ℕ) (rows : List (List Address)) (row : List Address)
    → get_elem? rows k ≡ some row
    → get_elem? (set_ports base i rows) k ≡ some (set_row base (i + k) 0 row)
unfolding set_ports
get_elem?-set_ports base i k [] row h = cc
get_elem?-set_ports base i zero (r ∷ rows) row h = ground arith
get_elem?-set_ports base i (suc k) (r ∷ rows) row h =
    let shifted : suc i + k ≡ i + suc k = omega arith in
    rw (← shifted) (get_elem?-set_ports base (suc i) k rows row h)

server_port-small :
    (base cluster_id index : ℕ)
    → base + server_id_of cluster_id index < 2 ^ 31
    → server_port (pos base) cluster_id index ≡ pos (base + server_id_of cluster_id index)
unfolding server_port ◌+ℤ◌
server_port-small base cluster_id index small =
    let id = server_id_of cluster_id index in
    let sum : pos base +ℤ pos id ≡ pos (base + id) = ground arith in
    ap int32 sum
    ∙ int32_of_InRange (pos (base + server_id_of cluster_id index)) (small, omega arith)

-- With a base port on the command line, a server that the configuration has an address for
-- listens on the base port plus its id, if that is below 2^31.
pub listening_port-set_ports :
    (base cluster_id index : ℕ) (rows : List (List Address)) (row : List Address) (ip : List ℕ)
    (port : ℤ)
    → get_elem? rows cluster_id ≡ some row
    → get_elem? row index ≡ some (ip, port)
    → index < server_num_per_cluster
    → base + server_id_of cluster_id index < 2 ^ 31
    → listening_port
        (set_ports (pos base) 0 rows)
        (pos cluster_id)
        (pos (server_id_of cluster_id index))
      ≡ ok (pos (base + server_id_of cluster_id index))
unfolding listening_port
listening_port-set_ports base cluster_id index rows row ip port found at_index small in_range =
    let own : (cluster_id * 3 + index) % 3 ≡ index = omega arith in
    let start : 0 + cluster_id ≡ cluster_id = omega arith in
    let start' : 0 + index ≡ index = omega arith in
    rw (get_elem?-set_ports (pos base) 0 cluster_id rows row found) (
      rw own (
        rw
          (get_elem?-set_row (pos base) (0 + cluster_id) 0 index row ip port at_index (omega arith))
          (ap ok (
            ap₂ (server_port (pos base)) start start'
            ∙ server_port-small base cluster_id index in_range))))

-- The message that stops a child.
abbrev pub exit_of : Child → WrapperMessage
exit_of c = WrapperMessage.exit (record { cluster_id = c.cluster_id; server_id = c.server_id })

-- The addresses of the servers, in the order of their forks.
abbrev pub own_addresses : List (List Address) → List Address
own_addresses [] = []
own_addresses (row ∷ rows) = take server_num_per_cluster row ++ own_addresses rows

abbrev no_failure : ℕ → ℕ → Bool
no_failure cluster_id index = false

take-drop :
    (index k : ℕ) (row : List Address) (address : Address)
    → get_elem? row index ≡ some address
    → take (suc k) (drop index row) ≡ address ∷ take k (drop (suc index) row)
take-drop index k [] address found = cc
take-drop zero k (a ∷ row) address found = ground (arith, found)
take-drop (suc index) k (a ∷ row) address found = take-drop index k row address found

exit_row-children :
    (cluster_id index k : ℕ) (row : List Address)
    → index + k ≤ length row
    → (ds : List Delivery) × (exit_row no_failure cluster_id row index k ≡ ok ds)
      × (map (λ d. d.message) ds ≡ map exit_of (cluster_children cluster_id index k))
      × (map (λ d. d.address) ds ≡ take k (drop index row))
unfolding exit_row cluster_children
exit_row-children cluster_id index zero row le = ([], refl, refl, refl)
exit_row-children cluster_id index (suc k) row le =
    let (address, found) = get_elem?_in_range row index (omega arith) in
    let (ds, sent, same, addressed) =
      exit_row-children cluster_id (suc index) k row (omega arith) in
    (
      record { address = address; message = exit_message cluster_id index } ∷ ds,
      rw found (rw sent refl),
      ap (λ ms. exit_message cluster_id index ∷ ms) same,
      ap (λ cells. address ∷ cells) addressed ∙ sym (take-drop index k row address found),
    )

map-append_of {ℓ κ} :
    {A : Type ℓ} {B : Type κ} (f : A → B) (xs ys : List A) → map f (xs ++ ys) ≡ map f xs ++ map f ys
map-append_of f [] ys = refl
map-append_of f (x ∷ xs) ys = ap (λ zs. f x ∷ zs) (map-append_of f xs ys)

-- The command exit, where every cluster has at least three addresses and no connection fails,
-- sends exactly one Exit message for each server that the parent has started, with the ids of
-- that server, to the address that the configuration has for it, and in the order of their
-- start.
pub exit_all-children :
    (cluster_id : ℕ) (rows : List (List Address))
    → All (λ row. server_num_per_cluster ≤ length row) rows
    → (ds : List Delivery) × (exit_all (λ c i. false) cluster_id rows ≡ ok ds)
      × (map (λ d. d.message) ds ≡ map exit_of (children cluster_id rows))
      × (map (λ d. d.address) ds ≡ own_addresses rows)
unfolding exit_all children
exit_all-children cluster_id [] full = ([], refl, refl, refl)
exit_all-children cluster_id (row ∷ rows) full =
    let (these, sent, same, addressed) = exit_row-children cluster_id 0 3 row full.0 in
    let (rest, sent', same', addressed') = exit_all-children (suc cluster_id) rows full.1 in
    (
      these ++ rest,
      rw sent (rw sent' refl),
      map-append_of (λ d. d.message) these rest
          ∙ ap₂ ◌++◌ same same'
          ∙ sym (
              map-append_of exit_of (cluster_children cluster_id 0 3)
                (children (suc cluster_id) rows)),
      map-append_of (λ d. d.address) these rest ∙ ap₂ ◌++◌ addressed addressed',
    )
