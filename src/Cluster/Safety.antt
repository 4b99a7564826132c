-- ===== src/Cluster/Safety.antt =====
-- The election invariant over all steps of the cluster.
use raft_2pc_database.Prelude.{ℕ, ◌<◌, ℤ, pos, ◌≡◌, ◌≢◌, refl, arith, some, [], none}
use raft_2pc_database.Command.Format.{Fmt}
use raft_2pc_database.DataShard.{Json, load_data_shard}
use raft_2pc_database.RaftState
use raft_2pc_database.RaftState.{RaftState, Role}
use raft_2pc_database.World.{Disk}
use raft_2pc_database.Cluster.{
  Cluster, id_of, Other, append_req, append_rsp, intra_shard, cross_shard, heart_beat, timeout,
  Step, elect, vote, count, other, Reach, start, next,
}
use raft_2pc_database.Cluster.Quiet.{
  Quiet, append_req-Quiet, append_rsp-Quiet, intra_shard-Quiet, cross_shard-Quiet,
  load_data_shard-same, Same-Quiet,
}
use raft_2pc_database.Cluster.Election.{Votes, Honest, Inv, Honest-Quiet, counted-Honest}
use raft_2pc_database.Cluster.Steps.{Sent-nil, update-Honest, elect-Inv, vote-Inv}

Other-Quiet :
    (fmt : Fmt) (json : Json) (s : RaftState) {t : RaftState} → Other fmt json s t → Quiet s t
Other-Quiet fmt json s (append_req req rsp t h) = append_req-Quiet req s t rsp h
Other-Quiet fmt json s (append_rsp fd rsp w w' e h) = rw (← e) (append_rsp-Quiet json fd rsp w w' h)
Other-Quiet fmt json s (intra_shard fd req w e) = rw (← e) (intra_shard-Quiet json fmt fd req w)
Other-Quiet fmt json s (cross_shard fd req w e) = rw (← e) (cross_shard-Quiet json fmt fd req w)
Other-Quiet fmt json s (heart_beat i) = ground arith
Other-Quiet fmt json s timeout = ground arith

module _ (cluster_id : ℕ) where
  Step-Inv :
      (fmt : Fmt) (json : Json) {c d : Cluster}
      → Step fmt json cluster_id c d
      → Inv cluster_id c
      → Inv cluster_id d
  Step-Inv fmt json {c} (elect i small role up) inv = elect-Inv cluster_id c i small up inv
  Step-Inv fmt json {c} (vote from to req sent) inv =
      vote-Inv cluster_id c from to req inv (inv.genuine _ sent)
  Step-Inv fmt json {c} (count from to rsp sent) inv = record {
    votes = inv.votes;
    honest =
        update-Honest cluster_id inv.votes c.server to _ (λ j lt ne. inv.honest j lt)
          (counted-Honest cluster_id inv.votes to from rsp (c.server to) (inv.genuine _ sent)
            (inv.honest to ((inv.genuine _ sent).1)));
    genuine = inv.genuine;
  }
  Step-Inv fmt json {c} (other i t small o) inv = record {
    votes = inv.votes;
    honest =
        update-Honest cluster_id inv.votes c.server i t (λ j lt ne. inv.honest j lt)
          (Honest-Quiet cluster_id inv.votes i (c.server i) t (inv.honest i small)
            (Other-Quiet fmt json (c.server i) o));
    genuine = inv.genuine;
  }

  init-Honest :
      (i : ℕ)
      → Honest cluster_id (λ _ _. none) i (RaftState.init (pos cluster_id) (id_of cluster_id i))
  unfolding RaftState.init
  init-Honest i = record {
    unvoted = λ e. refl;
    future = λ t lt. refl;
    standing = λ e. cc;
    elected = λ e. cc;
  }

  start-Inv :
      (json : Json) (disk : Disk)
      → Inv cluster_id (record {
        server =
            λ i. load_data_shard json disk (RaftState.init (pos cluster_id) (id_of cluster_id i));
        network = [];
      })
  start-Inv json disk = record {
    votes = λ i t. none;
    honest = λ i small.
        Honest-Quiet cluster_id _ i _ _ (init-Honest i)
          (Same-Quiet (load_data_shard-same json disk _));
    genuine = λ p sent. absurd (Sent-nil sent);
  }

  Reach-Inv :
      (fmt : Fmt) (json : Json) (disk : Disk) {c : Cluster}
      → Reach fmt json cluster_id disk c
      → Inv cluster_id c
  Reach-Inv fmt json disk start = start-Inv json disk
  Reach-Inv fmt json disk (next r st) = Step-Inv fmt json st (Reach-Inv fmt json disk r)

-- Of three servers two candidates with two votes each share a voter.
same_leader :
    (votes : Votes) (t : ℤ) (i j m n : ℕ)
    → (i < 3) × (j < 3) × (m < 3) × (n < 3) × (m ≢ i) × (n ≢ j)
    → (votes i t ≡ some i) × (votes m t ≡ some i)
    → (votes j t ≡ some j) × (votes n t ≡ some j)
    → i ≡ j
same_leader votes t i j m n small vi vj = ground arith

-- In every state that three servers of one cluster reach from their start, two servers that are
-- leaders of the same term are the same server. Handlers run in any order, and vote packets may
-- be delivered late, more than once or never; where the term counter would overflow no election
-- starts.
pub election_safety :
    (fmt : Fmt) (json : Json) (cluster_id : ℕ) (disk : Disk) {c : Cluster}
    → Reach fmt json cluster_id disk c
    → (i j : ℕ) → i < 3
    → j < 3
    → (c.server i).role ≡ Role.leader
    → (c.server j).role ≡ Role.leader
    → (c.server i).current_term ≡ (c.server j).current_term
    → i ≡ j
election_safety fmt json cluster_id disk {c} r i j i_lt j_lt i_leads j_leads term =
    let inv = Reach-Inv cluster_id fmt json disk r in
    let (i_self, (m, m_lt, m_ne, m_vote)) = (inv.honest i i_lt).elected i_leads in
    let (j_self, (n, n_lt, n_ne, n_vote)) = (inv.honest j j_lt).elected j_leads in
    same_leader inv.votes (c.server i).current_term i j m n (i_lt, j_lt, m_lt, n_lt, m_ne, n_ne)
      (i_self, m_vote) (rw term (j_self, n_vote))
