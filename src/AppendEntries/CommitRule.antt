-- ===== src/AppendEntries/CommitRule.antt =====
-- When a leader moves its commit index (`executeRsp`).
use raft_2pc_database.Prelude.{
  ℕ, zero, suc, ℤ, pos, negsuc, true, if◌then◌else◌, ◌≡◌, ◌⊎◌, inl, inr, arith, ok, at, >>=-eq-ok,
  Ensures-of, add_int, sub_int, rounds, ◌≤ℤ◌, eq_ℤ_iff, Bool-cases, leb_ℤ, ◌&&◌, ap, ◌∙◌,
}
use raft_2pc_database.Message.{AppendEntriesRsp}
use raft_2pc_database.RaftState.{RaftState, LogEntry, Role}
use raft_2pc_database.DataShard.{Json, update_data_shard, update_shard}
use raft_2pc_database.World.{World, with_raft}
use raft_2pc_database.AppendEntries.Leader.{
  finish_entry, finish_entries, respond_waiting, finish_intra, finish_prepare, set_matched,
  commit_coming, can_commit, server_slot, count_success, receive_rsp, execute_rsp,
}
use raft_2pc_database.RequestVote.{step_down}

-- Neither commit index has changed.
record SameIndices (w t : World) : Type 0 where
  pub same_commit : t.raft.commit_index ≡ w.raft.commit_index
  pub same_coming : t.raft.coming_commit_index ≡ w.raft.coming_commit_index

trans_indices : {w t u : World} → SameIndices w t → SameIndices t u → SameIndices w u
trans_indices a b = ground arith

finish_prepare-indices :
    (idx : ℕ) (e : LogEntry) (w t : World) → finish_prepare idx e w ≡ ok t → SameIndices w t
unfolding finish_prepare respond_waiting
finish_prepare-indices idx e w t h = ground arith

finish_intra-indices :
    (idx : ℕ) (e : LogEntry) (w t : World) → finish_intra idx e w ≡ ok t → SameIndices w t
unfolding finish_intra respond_waiting
finish_intra-indices idx e w t h = ground arith

finish_entry-indices :
    (idx : ℕ) (e : LogEntry) (w t : World) → finish_entry idx e w ≡ ok t → SameIndices w t
unfolding finish_entry
finish_entry-indices idx e w t h =
    ground (arith, finish_prepare-indices idx e w t, finish_intra-indices idx e w t)

finish_entries-indices :
    (k : ℕ) (idx : ℤ) (w t : World) → finish_entries k idx w ≡ ok t → SameIndices w t
unfolding finish_entries
finish_entries-indices zero idx w t h = ground arith
finish_entries-indices (suc k) (negsuc n) w t h = cc
finish_entries-indices (suc k) (pos idx) w t h =
    let (e, _, h₁) = >>=-eq-ok (at w.raft.log (pos idx)) _ h in
    let (w₁, c, h₂) = >>=-eq-ok (finish_entry idx e w) _ h₁ in
    trans_indices (finish_entry-indices idx e w w₁ c)
      (finish_entries-indices k (add_int (pos idx) (pos 1)) w₁ t h₂)

set_matched-indices :
    (server_id : ℤ) (f : ℤ → ℤ) (w t : World) → set_matched server_id f w ≡ ok t → SameIndices w t
unfolding set_matched
set_matched-indices server_id f w t h =
    let (i, _, h₁) = >>=-eq-ok (server_slot server_id) _ h in
    let (m, _, h₂) = >>=-eq-ok (at w.raft.matched_log_size (pos i)) _ h₁ in ground arith

-- What the commit of an entry takes: a positive answer of the current term to a leader, a second
-- vote for the log, and a last entry of the leader's own term.
pub record MayCommit (rsp : AppendEntriesRsp) (s : RaftState) : Type 0 where
  pub leads : s.role ≡ Role.leader
  pub accepted : rsp.success ≡ true
  pub current : rsp.term ≡ s.current_term
  pub granted : pos 2 ≤ℤ add_int s.log_granted_num (pos 1)
  pub entry : LogEntry
  pub logged : at s.log s.coming_commit_index ≡ ok entry
  pub own_term : entry.term ≡ s.current_term

can_commit-true :
    (s : RaftState)
    → can_commit s ≡ ok true
    → (pos 2 ≤ℤ s.log_granted_num)
      × ((e : LogEntry) × (at s.log s.coming_commit_index ≡ ok e) × (e.term ≡ s.current_term))
unfolding can_commit
can_commit-true s h =
    elim (Bool-cases (leb_ℤ (pos 2) s.log_granted_num && leb_ℤ (pos 0) s.coming_commit_index)) [
      | inl majority ↦
          let (e, logged, same) = >>=-eq-ok (at s.log s.coming_commit_index) _ (rw majority at h) in
          (ground arith, (e, logged, ground (arith, eq_ℤ_iff e.term s.current_term)))
      | inr few ↦ absurd (ground (arith, few))
    ]

module _ (json : Json) where
  update_shard-indices : (w : World) → SameIndices w (update_shard json w)
  unfolding update_shard update_data_shard
  update_shard-indices w = ground arith

  pub commit_coming-indices :
      (w t : World)
      → commit_coming json w ≡ ok t
      → (t.raft.commit_index ≡ w.raft.coming_commit_index)
        × (t.raft.coming_commit_index ≡ w.raft.coming_commit_index)
  unfolding commit_coming
  commit_coming-indices w t h =
      let first = add_int w.raft.commit_index (pos 1) in
      let n = rounds first w.raft.coming_commit_index in
      let (w₁, c, h₁) = >>=-eq-ok (finish_entries n first w) _ h in
      ground (
        arith,
        finish_entries-indices n first w w₁ c,
        update_shard-indices w₁,
        eq_ℤ_iff w₁.raft.commit_index w₁.raft.coming_commit_index,
      )

  -- Either index stays, or the leader may commit.
  abbrev Moved : AppendEntriesRsp → World → World → Type 0
  Moved rsp w t =
      (t.raft.commit_index ≡ w.raft.commit_index)
      ⊎ (MayCommit rsp w.raft × (t.raft.commit_index ≡ w.raft.coming_commit_index))

  count_success-Moved :
      (rsp : AppendEntriesRsp) (w t : World)
      → w.raft.role ≡ Role.leader
      → rsp.success ≡ true
      → rsp.term ≡ w.raft.current_term
      → count_success json rsp w ≡ ok t
      → Moved rsp w t
  unfolding count_success
  count_success-Moved rsp w t leads accepted current h =
      let s = record w.raft { log_granted_num = add_int w.raft.log_granted_num (pos 1) } in
      let w₁ = with_raft s w in
      let (majority, m, h₁) = >>=-eq-ok (can_commit s) _ h in
      let (w₂, c, h₂) = >>=-eq-ok (if majority then commit_coming json w₁ else ok w₁) _ h₁ in
      let kept =
        set_matched-indices rsp.server_id (λ _. add_int w₂.raft.coming_commit_index (pos 1)) w₂ t
          h₂ in
      elim (Bool-cases majority) [
        | inl may ↦
            let (granted, (e, logged, own)) = can_commit-true s (m ∙ ap ok may) in
            inr (
              record {
                leads = leads;
                accepted = accepted;
                current = current;
                granted = granted;
                entry = e;
                logged = logged;
                own_term = own;
              },
              kept.same_commit ∙ (commit_coming-indices w₁ w₂ (rw may at c)).0,
            )
        | inr not_yet ↦ inl (kept.same_commit ∙ ground (arith, c))
      ]

  receive_rsp-Moved :
      (rsp : AppendEntriesRsp) (w t : World) → receive_rsp json rsp w ≡ ok t → Moved rsp w t
  unfolding receive_rsp
  receive_rsp-Moved rsp w t h = ground (
    arith,
    count_success-Moved rsp w t,
    set_matched-indices rsp.server_id (λ m. sub_int m (pos 1)) w t,
    eq_ℤ_iff rsp.term w.raft.current_term,
  )

  -- An AppendEntriesRsp that is handled without undefined behaviour leaves the commit index, or
  -- moves it to the coming commit index; and it moves only if the server is leader, the response
  -- is a success of the current term, two grants are counted with this one, and the entry at the
  -- coming commit index is of the current term.
  pub execute_rsp-Moved :
      (fd : ℤ) (rsp : AppendEntriesRsp) (w : World) {t : World}
      → execute_rsp json fd rsp w ≡ ok t
      → (t.raft.commit_index ≡ w.raft.commit_index)
        ⊎ (MayCommit rsp w.raft × (t.raft.commit_index ≡ w.raft.coming_commit_index))
  unfolding execute_rsp step_down
  execute_rsp-Moved fd rsp w h =
      ground (arith, Ensures-of (Moved rsp w) (receive_rsp json rsp w) (receive_rsp-Moved rsp w))
