-- ===== src/Cluster.antt =====
-- Three servers of one cluster and the votes between them: `AIOServer::broadcast_vote`,
-- RequestVoteExecutor and all other handlers, interleaved in any order. A packet that was sent stays
-- in the network: it may be delivered late, more than once, or never.
pub mod Quiet
pub mod Election
pub mod Steps
pub mod Safety
use raft_2pc_database.Prelude.{
  ℕ, ◌+◌, ◌*◌, ◌<◌, ◌==◌, ℤ, pos, Bool, true, false, if◌then◌else◌, ◌≡◌, ◌≢◌, ◌⊎◌, List, [], ◌∷◌,
  ◌++◌, add_int, ◌<ℤ◌, ok,
}
use raft_2pc_database.Message.{
  RequestVoteReq, RequestVoteRsp, AppendEntriesReq, AppendEntriesRsp, IntraShardReq, CrossShardReq,
}
use raft_2pc_database.Command.Format.{Fmt}
use raft_2pc_database.DataShard.{Json, load_data_shard}
use raft_2pc_database.RaftState
use raft_2pc_database.RaftState.{RaftState, Role}
use raft_2pc_database.World.{World, Disk}
use raft_2pc_database.RequestVote
use raft_2pc_database.AppendEntries
use raft_2pc_database.IntraShard
use raft_2pc_database.CrossShard
use raft_2pc_database.Server.{become_candidate, vote_req}

-- A vote request and a response, with the positions of sender and receiver in the cluster.
pub data Packet : Type 0 where
  request : (from to : ℕ) → RequestVoteReq → Packet
  response : (from to : ℕ) → RequestVoteRsp → Packet

pub data Sent (p : Packet) : List Packet → Type 0 where
  first : {q : Packet} {ps : List Packet} → p ≡ q → Sent p (q ∷ ps)
  later : {q : Packet} {ps : List Packet} → Sent p ps → Sent p (q ∷ ps)

abbrev pub update {ℓ} : {A : Type ℓ} → (ℕ → A) → ℕ → A → ℕ → A
update f i a j = if j == i then a else f j

pub record Cluster : Type 0 where
  pub server : ℕ → RaftState
  pub network : List Packet

abbrev pub request_to : ℕ → RequestVoteReq → ℕ → List Packet → List Packet
request_to i req j ps = if j == i then ps else Packet.request i j req ∷ ps

-- The requests of server `i` to the two others, in front of the packets sent before.
abbrev pub requests : ℕ → RequestVoteReq → List Packet → List Packet
requests i req ps = request_to i req 0 (request_to i req 1 (request_to i req 2 ps))

-- `cluster_id * SERVER_NUM_PER_CLUSTER + index`
abbrev pub id_of : ℕ → ℕ → ℤ
id_of cluster_id i = pos (cluster_id * 3 + i)

module _ (fmt : Fmt) (json : Json) where
  -- The handlers of all other messages, and the heart beat of a leader, on one server.
  pub data Other (s : RaftState) : RaftState → Type 0 where
    append_req :
        (req : AppendEntriesReq) (rsp : AppendEntriesRsp) (t : RaftState)
        → AppendEntries.answer req s ≡ ok (t, rsp)
        → Other s t
    append_rsp :
        (fd : ℤ) (rsp : AppendEntriesRsp) (w w' : World)
        → w.raft ≡ s
        → AppendEntries.execute_rsp json fd rsp w ≡ ok w'
        → Other s w'.raft
    intra_shard :
        (fd : ℤ) (req : IntraShardReq) (w : World)
        → w.raft ≡ s
        → Other s (IntraShard.execute_req fmt fd req w).raft
    cross_shard :
        (fd : ℤ) (req : CrossShardReq) (w : World)
        → w.raft ≡ s
        → Other s (CrossShard.execute_req fmt json fd req w).raft
    heart_beat : (i : ℤ) → Other s (record s { coming_commit_index = i })
    timeout : Other s (record s { heard_heart_beat = false })

  module _ (cluster_id : ℕ) where
    -- A step of server `i`. Where the term would overflow the source has no defined behaviour.
    pub data Step (c : Cluster) : Cluster → Type 0 where
      elect :
          (i : ℕ)
          → i < 3
          → (c.server i).role ≢ Role.leader
          → (c.server i).current_term <ℤ add_int (c.server i).current_term (pos 1)
          → Step c (
              let s = become_candidate (id_of cluster_id i) (c.server i) in
              record {
                server = update c.server i s;
                network = requests i (vote_req (id_of cluster_id i) s) c.network;
              })
      vote :
          (from to : ℕ) (req : RequestVoteReq)
          → Sent (Packet.request from to req) c.network
          → Step c (
              let (s, rsp) = RequestVote.answer req (c.server to) in
              record {
                server = update c.server to s;
                network = Packet.response to from rsp ∷ c.network;
              })
      count :
          (from to : ℕ) (rsp : RequestVoteRsp)
          → Sent (Packet.response from to rsp) c.network
          → Step c (record c {
            server =
                update c.server to
                  (RequestVote.step_down rsp.term (RequestVote.receive_vote rsp (c.server to)));
          })
      other :
          (i : ℕ) (t : RaftState)
          → i < 3
          → Other (c.server i) t
          → Step c (record c { server = update c.server i t })

    -- All servers as they start, with their data shards loaded.
    pub data Reach (disk : Disk) : Cluster → Type 0 where
      start : Reach disk (record {
        server =
            λ i. load_data_shard json disk (RaftState.init (pos cluster_id) (id_of cluster_id i));
        network = [];
      })
      next : {c d : Cluster} → Reach disk c → Step c d → Reach disk d
