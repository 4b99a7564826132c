-- ===== src/RoutingService/LeaderLost.antt =====
-- The leader of a cluster in the routing service (client/routingservice.py and client/config.py)
-- while a coroutine awaits.
use raft_2pc_database.Prelude.{
  ℕ, zero, suc, ◌+◌, ◌-◌, ℤ, pos, negsuc, minus_one, ◌-ℤ◌, ltb, List, [], ◌∷◌, length, get_elem?,
  set, length-set, some, true, ◌≡◌, refl, ◌∙◌, arith,
}
use raft_2pc_database.RoutingService.Config.{
  item, set_item, floor_div, times, Address, LocalConfig, server_id_to_index,
  get_cluster_id_for_server,
}
use raft_2pc_database.Prelude.Table.{lookup}
use raft_2pc_database.Message.{CrossShardResultType}
use raft_2pc_database.RoutingService.{
  Transfer, Call, RoutingService, Await, Rest, call, count_reply,
}
use raft_2pc_database.RoutingService.Redirect.{leader_address, continue, and_then}
use raft_2pc_database.RoutingService.Handlers.{resume, on_await, on_vote, handle_request_vote}
use raft_2pc_database.RoutingService.Steps.{vote, wait, prepare, redirect_cross-known, on_yes-first}

get_elem?-set {ℓ} :
    {A : Type ℓ} (xs : List A) (i : ℕ) (v : A) {old : A}
    → get_elem? xs i ≡ some old
    → get_elem? (set xs i v) i ≡ some v
get_elem?-set [] i v h = absurd (cc)
get_elem?-set (x ∷ xs) zero v h = refl
get_elem?-set (x ∷ xs) (suc i) v h = get_elem?-set xs i v h

item-set_item {ℓ} :
    {A : Type ℓ} (xs : List A) (i : ℤ) (v : A) {old : A}
    → item xs i ≡ some old
    → item (set_item xs i v) i ≡ some v
unfolding item set_item
item-set_item xs (pos n) v h = get_elem?-set xs n v h
item-set_item xs (negsuc n) v h =
    let in_range : ltb n (length xs) ≡ true = ground (arith, h) in
    let old = rw in_range at h in
    rw (in_range, length-set xs (length xs - (n + 1)) v, in_range) (get_elem?-set xs _ v old)

server_id_to_index-minus_one :
    (c : LocalConfig) (n : ℕ)
    → c.num_server_per_cluster ≡ suc n
    → server_id_to_index c minus_one ≡ pos n
unfolding server_id_to_index times get_cluster_id_for_server floor_div ◌-ℤ◌
server_id_to_index-minus_one c n e = rw (e, times) (ground arith)

-- A cluster without a leader: -1 as a server id is the last server of the row.
leader_address-minus_one :
    (c : LocalConfig) (n : ℕ) (s : RoutingService) (cluster_id : ℤ) {row : List Address}
    {last : Address}
    → c.num_server_per_cluster ≡ suc n
    → item s.leader_per_cluster cluster_id ≡ some minus_one
    → item c.server_ip_port_list cluster_id ≡ some row
    → item row (pos n) ≡ some last
    → leader_address c s cluster_id ≡ some last
unfolding leader_address
leader_address-minus_one c n s cluster_id size lost row last =
    rw (lost, row, server_id_to_index-minus_one c n size, leader_address) last

-- If the cluster of the receiver starts an election while the sender's leader is asked, the
-- routing service forgets the leader of the receiver's cluster, and when the YES of the sender
-- comes in it sends the PREPARE to the last server of that cluster, because the missing leader
-- -1 is taken for a server id.
pub handle_request_vote-resume :
    (c : LocalConfig) (n now writer : ℕ) (t : Transfer) (candidate_id : ℤ) (s : RoutingService)
    {leader_id : ℤ} {row : List Address} {last : Address}
    → c.num_server_per_cluster ≡ suc n
    → get_cluster_id_for_server c candidate_id ≡ t.receiver_cluster_id
    → item s.leader_per_cluster t.receiver_cluster_id ≡ some leader_id
    → item c.server_ip_port_list t.receiver_cluster_id ≡ some row
    → item row (pos n) ≡ some last
    → lookup t.id s.num_reply_for_2pc ≡ some (pos 0)
    → let s' = (handle_request_vote c writer candidate_id s).0 in
      (item s'.leader_per_cluster t.receiver_cluster_id ≡ some minus_one)
      × (resume c now
            (vote CrossShardResultType.yes_vote t)
            (wait (Await.prepare_response t) (Rest.to_receiver t true))
            s'
          ≡ (
            call (prepare t last) (count_reply t.id (pos 1) s'),
            some (wait (Await.prepare_response t) Rest.finish),
          ))
unfolding handle_request_vote resume on_await on_vote continue leader_address and_then
handle_request_vote-resume c n now writer t candidate_id s size cluster had row last new =
    rw (cluster, had)
      (let leaders = set_item s.leader_per_cluster t.receiver_cluster_id minus_one in
        let unknown = call (Call.close writer) (record s { leader_per_cluster = leaders }) in
        let asking = count_reply t.id (pos 1) unknown in
        let lost = item-set_item s.leader_per_cluster t.receiver_cluster_id minus_one had in
        (
          lost,
          on_yes-first c now t (Rest.to_receiver t true) unknown new
              ∙ redirect_cross-known c now t t.receiver_cluster_id Rest.finish asking
                  (leader_address-minus_one c n asking t.receiver_cluster_id size lost row last),
        ))
