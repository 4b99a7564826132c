-- ===== src/CrossShard/Responses.antt =====
-- The commits of transactions in the log of a leader that handles an AppendEntriesRsp
-- (`AppendEntriesExecutor::executeRsp`): they stay as they are.
use raft_2pc_database.Prelude.{
  ℕ, zero, suc, ℤ, pos, negsuc, minus_one, List, [], ◌∷◌, set, get_elem?, some, ◌≡◌, refl, ◌∙◌,
  arith, ok, >>=-eq-ok, Ensures-of, at, add_int, sub_int, rounds, if◌then◌else◌, length-set,
}
use raft_2pc_database.Message.{AppendEntriesRsp}
use raft_2pc_database.DataShard.{Json, update_data_shard, update_shard}
use raft_2pc_database.RaftState.{LogEntry}
use raft_2pc_database.World.{World, with_raft}
use raft_2pc_database.AppendEntries.{
  respond_waiting, finish_prepare, finish_intra, finish_entry, finish_entries, set_matched,
  can_commit, server_slot, commit_coming, count_success, receive_rsp, execute_rsp,
}
use raft_2pc_database.AppendEntries.Conservation.{money-execute_rsp}
use raft_2pc_database.AppendEntries.StateMachine.{at-get_elem?}
use raft_2pc_database.RequestVote.{step_down}
use raft_2pc_database.CrossShard.{committed}
use raft_2pc_database.CrossShard.Inert.{Inert}

-- A response to a waiting client changes no decision.
committed-set :
    (id : ℤ) (log : List LogEntry) (i : ℕ) (e : LogEntry)
    → get_elem? log i ≡ some e
    → committed id (set log i (record e { req_fd = minus_one })) ≡ committed id log
unfolding committed
committed-set id [] i e h = refl
committed-set id (x ∷ log) zero e h = ground (arith, h)
committed-set id (x ∷ log) (suc i) e h = ground (arith, committed-set id log i e h)

-- The cluster and the commits for an id are as before.
record SameDecisions (id : ℤ) (w t : World) : Type 0 where
  pub same_cluster : t.raft.cluster_id ≡ w.raft.cluster_id
  pub same_decision : committed id t.raft.log ≡ committed id w.raft.log

trans_decisions :
    {id : ℤ} {w t u : World} → SameDecisions id w t → SameDecisions id t u → SameDecisions id w u
trans_decisions a b = record {
  same_cluster = b.same_cluster ∙ a.same_cluster;
  same_decision = b.same_decision ∙ a.same_decision;
}

finish_prepare-decisions :
    (id : ℤ) (idx : ℕ) (e : LogEntry) (w t : World)
    → get_elem? w.raft.log idx ≡ some e
    → finish_prepare idx e w ≡ ok t
    → SameDecisions id w t
unfolding finish_prepare respond_waiting
finish_prepare-decisions id idx e w t there h =
    ground (arith, h, committed-set id w.raft.log idx e there)

finish_intra-decisions :
    (id : ℤ) (idx : ℕ) (e : LogEntry) (w t : World)
    → get_elem? w.raft.log idx ≡ some e
    → finish_intra idx e w ≡ ok t
    → SameDecisions id w t
unfolding finish_intra respond_waiting
finish_intra-decisions id idx e w t there h =
    ground (arith, h, committed-set id w.raft.log idx e there)

finish_entry-decisions :
    (id : ℤ) (idx : ℕ) (e : LogEntry) (w t : World)
    → get_elem? w.raft.log idx ≡ some e
    → finish_entry idx e w ≡ ok t
    → SameDecisions id w t
unfolding finish_entry
finish_entry-decisions id idx e w t there h =
    ground (
      arith,
      finish_prepare-decisions id idx e w t there,
      finish_intra-decisions id idx e w t there,
    )

finish_entries-decisions :
    (id : ℤ) (k : ℕ) (idx : ℤ) (w t : World) → finish_entries k idx w ≡ ok t → SameDecisions id w t
unfolding finish_entries
finish_entries-decisions id zero idx w t h = ground arith
finish_entries-decisions id (suc k) (negsuc n) w t h = cc
finish_entries-decisions id (suc k) (pos idx) w t h =
    let (e, a, h₁) = >>=-eq-ok (at w.raft.log (pos idx)) _ h in
    let (w₁, c, h₂) = >>=-eq-ok (finish_entry idx e w) _ h₁ in
    trans_decisions (finish_entry-decisions id idx e w w₁ (at-get_elem? w.raft.log idx e a) c)
      (finish_entries-decisions id k (add_int (pos idx) (pos 1)) w₁ t h₂)

set_matched-decisions :
    (id : ℤ) (server_id : ℤ) (f : ℤ → ℤ) (w t : World)
    → set_matched server_id f w ≡ ok t
    → SameDecisions id w t
unfolding set_matched
set_matched-decisions id server_id f w t h =
    let (i, _, h₁) = >>=-eq-ok (server_slot server_id) _ h in
    let (m, _, h₂) = >>=-eq-ok (at w.raft.matched_log_size (pos i)) _ h₁ in
    ground (arith, length-set w.raft.matched_log_size i (f m))

module _ (json : Json) where
  update_shard-decisions : (id : ℤ) (w : World) → SameDecisions id w (update_shard json w)
  unfolding update_shard update_data_shard
  update_shard-decisions id w = ground arith

  commit_coming-decisions :
      (id : ℤ) (w t : World) → commit_coming json w ≡ ok t → SameDecisions id w t
  unfolding commit_coming
  commit_coming-decisions id w t h =
      let first = add_int w.raft.commit_index (pos 1) in
      let n = rounds first w.raft.coming_commit_index in
      let (w₁, c, h₁) = >>=-eq-ok (finish_entries n first w) _ h in
      ground (arith, finish_entries-decisions id n first w w₁ c, update_shard-decisions id w₁)

  count_success-decisions :
      (id : ℤ) (rsp : AppendEntriesRsp) (w t : World)
      → count_success json rsp w ≡ ok t
      → SameDecisions id w t
  unfolding count_success
  count_success-decisions id rsp w t h =
      let s = record w.raft { log_granted_num = add_int w.raft.log_granted_num (pos 1) } in
      let w₁ = with_raft s w in
      let (majority, _, h₁) = >>=-eq-ok (can_commit s) _ h in
      let (w₂, c, h₂) = >>=-eq-ok (if majority then commit_coming json w₁ else ok w₁) _ h₁ in
      let matched =
        set_matched-decisions id rsp.server_id (λ _. add_int w₂.raft.coming_commit_index (pos 1)) w₂
          t h₂ in
      ground (arith, commit_coming-decisions id w₁ w₂)

  receive_rsp-decisions :
      (id : ℤ) (rsp : AppendEntriesRsp) (w t : World)
      → receive_rsp json rsp w ≡ ok t
      → SameDecisions id w t
  unfolding receive_rsp
  receive_rsp-decisions id rsp w t h = ground (
    arith,
    count_success-decisions id rsp w t,
    set_matched-decisions id rsp.server_id (λ m. sub_int m (pos 1)) w t,
  )

  pub execute_rsp-Inert :
      (id fd : ℤ) (rsp : AppendEntriesRsp) (w : World) {t : World}
      → execute_rsp json fd rsp w ≡ ok t
      → Inert id w.raft t.raft
  unfolding execute_rsp step_down
  execute_rsp-Inert id fd rsp w h = ground (
    arith,
    money-execute_rsp json fd rsp w h,
    Ensures-of (SameDecisions id w) (receive_rsp json rsp w) (receive_rsp-decisions id rsp w),
  )
