-- ===== src/RoutingService/Config.antt =====
-- client/config.py: the clusters that the routing service knows, with Python's integers and lists.
use raft_2pc_database.Prelude.{
  ℕ, zero, suc, ◌-◌, ◌*◌, ◌/◌, ◌+◌, ℤ, pos, negsuc, ◌-ℤ◌, List, length, get_elem?, set, ltb,
  if◌then◌else◌, Option, none,
}

-- `xs[i]`: a negative index counts from the end; `none` is an IndexError.
module _ {ℓ} {A : Type ℓ} where
  unfoldable pub item : List A → ℤ → Option A
  item xs (pos n) = get_elem? xs n
  item xs (negsuc n) = if ltb n (length xs) then get_elem? xs (length xs - (n + 1)) else none

  -- `xs[i] = v`, where `xs[i]` exists.
  unfoldable pub set_item : List A → ℤ → A → List A
  set_item xs (pos n) v = set xs n v
  set_item xs (negsuc n) v = if ltb n (length xs) then set xs (length xs - (n + 1)) v else xs

-- `a // n`, rounded down.
unfoldable pub floor_div : ℤ → ℕ → ℤ
floor_div (pos a) n = pos (a / n)
floor_div (negsuc a) n = negsuc (a / n)

pub record Address : Type 0 where
  pub ip : List ℕ
  pub port : ℤ

pub record LocalConfig : Type 0 where
  pub num_cluster : ℕ
  pub num_server_per_cluster : ℕ  -- the length of the first row, which is not empty
  pub server_ip_port_list : List (List Address)

unfoldable pub get_cluster_id_for_server : LocalConfig → ℤ → ℤ
get_cluster_id_for_server c server_id = floor_div server_id c.num_server_per_cluster

unfoldable pub times : ℤ → ℕ → ℤ
times (pos a) n = pos (a * n)
times (negsuc a) zero = pos 0
times (negsuc a) (suc n) = negsuc ((a + 1) * (n + 1) - 1)

unfoldable pub server_id_to_index : LocalConfig → ℤ → ℤ
server_id_to_index c server_id =
    server_id -ℤ times (get_cluster_id_for_server c server_id) c.num_server_per_cluster
