-- ===== src/Cluster/Quiet.antt =====
-- The handlers that take no part in an election, and what they keep.
use raft_2pc_database.Prelude.{
  length, length-set, ℕ, zero, suc, ℤ, pos, negsuc, ◌⊎◌, ◌≡◌, arith, ok, >>=-eq-ok, Ensures-of, at,
  add_int, sub_int, rounds, ◌≤ℤ◌, if◌then◌else◌,
}
use raft_2pc_database.Message.{AppendEntriesReq, AppendEntriesRsp, IntraShardReq, CrossShardReq}
use raft_2pc_database.Command.Format.{Fmt}
use raft_2pc_database.DataShard.{Json, load_data_shard, update_data_shard, update_shard}
use raft_2pc_database.RaftState.{RaftState, LogEntry, Role}
use raft_2pc_database.World.{World, Disk, with_raft}
use raft_2pc_database.AppendEntries
use raft_2pc_database.AppendEntries.{
  accept_entries, respond_waiting, finish_prepare, finish_intra, finish_entry, finish_entries,
  set_matched, can_commit, server_slot, commit_coming, count_success, receive_rsp, hear_leader,
}
use raft_2pc_database.RequestVote.{step_down}
use raft_2pc_database.IntraShard
use raft_2pc_database.CrossShard

-- The term, the vote, the role and the number of matched sizes are as before.
pub record SameElection (s t : RaftState) : Type 0 where
  pub same_term : t.current_term ≡ s.current_term
  pub same_vote : t.voted_for ≡ s.voted_for
  pub same_role : t.role ≡ s.role
  pub same_num : t.vote_granted_num ≡ s.vote_granted_num
  pub same_slots : length t.matched_log_size ≡ length s.matched_log_size

-- The vote and the number of matched sizes are as before, the term has not gone down, and the server is a follower or as before.
pub record Quiet (s t : RaftState) : Type 0 where
  pub kept_vote : t.voted_for ≡ s.voted_for
  pub term_up : s.current_term ≤ℤ t.current_term
  pub kept_slots : length t.matched_log_size ≡ length s.matched_log_size
  pub role_down :
      (t.role ≡ Role.follower)
      ⊎ ((t.role ≡ s.role)
          × (t.current_term ≡ s.current_term)
          × (t.vote_granted_num ≡ s.vote_granted_num))

same : (s : RaftState) → SameElection s s
same s = ground arith

trans : {s t u : RaftState} → SameElection s t → SameElection t u → SameElection s u
trans a b = ground arith

pub Same-Quiet : {s t : RaftState} → SameElection s t → Quiet s t
Same-Quiet h = ground arith

accept_entries-same :
    (req : AppendEntriesReq) (s t : RaftState) → accept_entries req s ≡ ok t → SameElection s t
unfolding accept_entries
accept_entries-same req s t h = ground arith

pub append_req-Quiet :
    (req : AppendEntriesReq) (s t : RaftState) (rsp : AppendEntriesRsp)
    → AppendEntries.answer req s ≡ ok (t, rsp)
    → Quiet s t
unfolding AppendEntries.answer hear_leader
append_req-Quiet req s t rsp h = ground (
  arith,
  Ensures-of (SameElection (hear_leader req s)) (accept_entries req (hear_leader req s))
      (accept_entries-same req (hear_leader req s)),
)

-- The commit of a leader.
abbrev SameWorld : World → World → Type 0
SameWorld w w' = SameElection w.raft w'.raft

finish_prepare-same :
    (idx : ℕ) (e : LogEntry) (w t : World) → finish_prepare idx e w ≡ ok t → SameWorld w t
unfolding finish_prepare respond_waiting
finish_prepare-same idx e w t h = ground arith

finish_intra-same :
    (idx : ℕ) (e : LogEntry) (w t : World) → finish_intra idx e w ≡ ok t → SameWorld w t
unfolding finish_intra respond_waiting
finish_intra-same idx e w t h = ground arith

finish_entry-same :
    (idx : ℕ) (e : LogEntry) (w t : World) → finish_entry idx e w ≡ ok t → SameWorld w t
unfolding finish_entry
finish_entry-same idx e w t h =
    ground (arith, finish_prepare-same idx e w t, finish_intra-same idx e w t)

finish_entries-same :
    (k : ℕ) (idx : ℤ) (w t : World) → finish_entries k idx w ≡ ok t → SameWorld w t
unfolding finish_entries
finish_entries-same zero idx w t h = ground arith
finish_entries-same (suc k) (negsuc n) w t h = cc
finish_entries-same (suc k) (pos idx) w t h =
    let (e, _, h₁) = >>=-eq-ok (at w.raft.log (pos idx)) _ h in
    let (w₁, c, h₂) = >>=-eq-ok (finish_entry idx e w) _ h₁ in
    trans (finish_entry-same idx e w w₁ c)
      (finish_entries-same k (add_int (pos idx) (pos 1)) w₁ t h₂)

set_matched-same :
    (server_id : ℤ) (f : ℤ → ℤ) (w t : World) → set_matched server_id f w ≡ ok t → SameWorld w t
unfolding set_matched
set_matched-same server_id f w t h =
    let (i, _, h₁) = >>=-eq-ok (server_slot server_id) _ h in
    let (m, _, h₂) = >>=-eq-ok (at w.raft.matched_log_size (pos i)) _ h₁ in
    ground (arith, length-set w.raft.matched_log_size i (f m))

module _ (json : Json) where
  update_shard-same : (w : World) → SameWorld w (update_shard json w)
  unfolding update_shard update_data_shard
  update_shard-same w = ground arith

  pub load_data_shard-same : (d : Disk) (s : RaftState) → SameElection s (load_data_shard json d s)
  unfolding load_data_shard
  load_data_shard-same d s = ground arith

  commit_coming-same : (w t : World) → commit_coming json w ≡ ok t → SameWorld w t
  unfolding commit_coming
  commit_coming-same w t h =
      let first = add_int w.raft.commit_index (pos 1) in
      let n = rounds first w.raft.coming_commit_index in
      let (w₁, c, h₁) = >>=-eq-ok (finish_entries n first w) _ h in
      ground (arith, finish_entries-same n first w w₁ c, update_shard-same w₁)

  count_success-same :
      (rsp : AppendEntriesRsp) (w t : World) → count_success json rsp w ≡ ok t → SameWorld w t
  unfolding count_success
  count_success-same rsp w t h =
      let s = record w.raft { log_granted_num = add_int w.raft.log_granted_num (pos 1) } in
      let w₁ = with_raft s w in
      let (majority, _, h₁) = >>=-eq-ok (can_commit s) _ h in
      let (w₂, c, h₂) = >>=-eq-ok (if majority then commit_coming json w₁ else ok w₁) _ h₁ in
      let matched =
        set_matched-same rsp.server_id (λ _. add_int w₂.raft.coming_commit_index (pos 1)) w₂ t h₂ in
      ground (arith, commit_coming-same w₁ w₂)

  receive_rsp-same :
      (rsp : AppendEntriesRsp) (w t : World) → receive_rsp json rsp w ≡ ok t → SameWorld w t
  unfolding receive_rsp
  receive_rsp-same rsp w t h = ground (
    arith,
    count_success-same rsp w t,
    set_matched-same rsp.server_id (λ m. sub_int m (pos 1)) w t,
  )

  pub append_rsp-Quiet :
      (fd : ℤ) (rsp : AppendEntriesRsp) (w w' : World)
      → AppendEntries.execute_rsp json fd rsp w ≡ ok w'
      → Quiet w.raft w'.raft
  unfolding AppendEntries.execute_rsp step_down
  append_rsp-Quiet fd rsp w w' h =
      ground (arith, Ensures-of (SameWorld w) (receive_rsp json rsp w) (receive_rsp-same rsp w))

  module _ (fmt : Fmt) where
    pub intra_shard-Quiet :
        (fd : ℤ) (req : IntraShardReq) (w : World)
        → Quiet w.raft (IntraShard.execute_req fmt fd req w).raft
    unfolding IntraShard.execute_req IntraShard.touch_tables
    intra_shard-Quiet fd req w = ground arith

    execute_prepare-same :
        (fd : ℤ) (req : CrossShardReq) (w : World)
        → SameWorld w (CrossShard.execute_prepare fmt json fd req w)
    unfolding CrossShard.execute_prepare CrossShard.touch_tables CrossShard.touch_sender
        CrossShard.lock_items
    execute_prepare-same fd req w = ground arith

    execute_commit-same :
        (fd : ℤ) (req : CrossShardReq) (w : World)
        → SameWorld w (CrossShard.execute_commit fmt json fd req w)
    unfolding CrossShard.execute_commit CrossShard.apply_commit CrossShard.move_money update_shard
        update_data_shard
    execute_commit-same fd req w = ground arith

    execute_abort-same :
        (fd : ℤ) (req : CrossShardReq) (w : World)
        → SameWorld w (CrossShard.execute_abort fmt json fd req w)
    unfolding CrossShard.execute_abort
    execute_abort-same fd req w = ground arith

    pub cross_shard-Quiet :
        (fd : ℤ) (req : CrossShardReq) (w : World)
        → Quiet w.raft (CrossShard.execute_req fmt json fd req w).raft
    unfolding CrossShard.execute_req
    cross_shard-Quiet fd req w = Same-Quiet (
        ground (
          arith,
          execute_prepare-same fd req w,
          execute_commit-same fd req w,
          execute_abort-same fd req w,
        ))
