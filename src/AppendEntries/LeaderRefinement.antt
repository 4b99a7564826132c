-- ===== src/AppendEntries/LeaderRefinement.antt =====
-- A leader refines the state machine of its committed commands (`executeRsp`).
use raft_2pc_database.Prelude.{
  ℕ, ◌+◌, ◌-◌, ◌<◌, ◌^◌, ℤ, pos, minus_one, if◌then◌else◌, List, [], ◌∷◌, length, take, drop, ◌≡◌,
  refl, ap, ◌∙◌, sym, subst, arith, ◌≤ℤ◌, ◌<ℤ◌, add_int, sub_int, rounds, Bool-cases, Option-cases,
  inl, inr, ok, at, >>=-eq-ok, ok-injective, eq_ℤ, codes,
}
use mathlib.Core.Path.{fun_ext}
use raft_2pc_database.Prelude.Table.{Table, value-touch}
use raft_2pc_database.Message.{AppendEntriesRsp}
use raft_2pc_database.RaftState.{RaftState}
use raft_2pc_database.DataShard.{
  Json, update_line, update_lines, update_data_shard, update_shard, read_file, update_name,
  split_lines,
}
use raft_2pc_database.World.{World, with_raft}
use raft_2pc_database.RequestVote.{step_down}
use raft_2pc_database.AppendEntries.Leader.{
  finish_entries, set_matched, commit_coming, can_commit, server_slot, count_success, receive_rsp,
  execute_rsp,
}
use raft_2pc_database.AppendEntries.CommitRule.{commit_coming-indices}
use raft_2pc_database.AppendEntries.LeaderReplay.{finish_entries-view}
use raft_2pc_database.AppendEntries.StateMachine.{
  Balances, view, replay, commands, committed_size, Mirrors, replay_more, add_int-committed_size,
  rounds-committed_size,
}

Mirrors-kept :
    (start : Balances) (w t : World)
    → commands t.raft.log ≡ commands w.raft.log
    → view t.raft.local_balance_tb ≡ view w.raft.local_balance_tb
    → t.raft.commit_index ≡ w.raft.commit_index
    → Mirrors start w.raft
    → Mirrors start t.raft
Mirrors-kept start w t same_commands same_view same_commit mirrors =
    same_view
    ∙ mirrors
    ∙ ap (λ cs. replay (take (committed_size w.raft.commit_index) cs) start) (sym same_commands)
    ∙ ap (λ z. replay (take (committed_size z) (commands t.raft.log)) start) (sym same_commit)

set_matched-Mirrors :
    (start : Balances) (server_id : ℤ) (f : ℤ → ℤ) (w t : World)
    → set_matched server_id f w ≡ ok t
    → Mirrors start w.raft
    → Mirrors start t.raft
unfolding set_matched
set_matched-Mirrors start server_id f w t h =
    let (i, _, h₁) = >>=-eq-ok (server_slot server_id) _ h in
    let (m, _, h₂) = >>=-eq-ok (at w.raft.matched_log_size (pos i)) _ h₁ in
    subst (λ (v : World). Mirrors start w.raft → Mirrors start v.raft) (ok-injective h₂) (λ m. m)

-- The commit indices of a leader.
record Bounded (s : RaftState) : Type 0 where
  pub long : length s.log < 2 ^ 31
  pub ge : minus_one ≤ℤ s.commit_index
  pub lt : s.commit_index <ℤ pos (length s.log)
  pub le : s.commit_index ≤ℤ s.coming_commit_index
  pub small : s.coming_commit_index <ℤ pos (2 ^ 31 - 1)

module _ (json : Json) where
  view-update_lines :
      (lines : List (List ℕ)) (tb : Table ℤ) → view (update_lines json lines tb) ≡ view tb
  unfolding update_lines update_line
  view-update_lines [] tb = refl
  view-update_lines (line ∷ lines) tb = elim (Option-cases (json.int_field line (codes "id"))) [
    | inl no_id ↦ view-update_lines lines (update_line json line tb) ∙ ground (arith, no_id)
    | inr (id, read) ↦
        view-update_lines lines (update_line json line tb)
        ∙ fun_ext (λ k. ground (arith, read, value-touch (pos 0) k id tb))
  ]

  -- The state machine does not see the update of the data shard.
  update_shard-same :
      (w : World)
      → (commands (update_shard json w).raft.log ≡ commands w.raft.log)
        × (view (update_shard json w).raft.local_balance_tb ≡ view w.raft.local_balance_tb)
  unfolding update_shard update_data_shard
  update_shard-same w = elim (Option-cases (read_file (update_name w.raft) w.disk.files)) [
    | inl no_file ↦ ground (arith, no_file)
    | inr (buffer, there) ↦
        ground (arith, there, view-update_lines (split_lines [] buffer) w.raft.local_balance_tb)
  ]

  commit_coming-view :
      (w t : World) (n k : ℕ)
      → add_int w.raft.commit_index (pos 1) ≡ pos n
      → rounds (pos n) w.raft.coming_commit_index ≡ k
      → n + k < 2 ^ 31
      → commit_coming json w ≡ ok t
      → (commands t.raft.log ≡ commands w.raft.log)
        × (view t.raft.local_balance_tb
            ≡ replay (take k (drop n (commands w.raft.log))) (view w.raft.local_balance_tb))
  unfolding commit_coming
  commit_coming-view w t n k first size small h =
      let lo = add_int w.raft.commit_index (pos 1) in
      let (w₁, c, h₁) =
        >>=-eq-ok (finish_entries (rounds lo w.raft.coming_commit_index) lo w) _ h in
      let (same, applied) = finish_entries-view k n w w₁ small (rw (first, size) at c) in
      let (same', view') = update_shard-same w₁ in
      elim (Bool-cases (eq_ℤ w₁.raft.commit_index w₁.raft.coming_commit_index)) [
        | inl done ↦
            let e : w₁ ≡ t = ok-injective (rw done at h₁) in
            (
              ap (λ (v : World). commands v.raft.log) (sym e) ∙ same,
              ap (λ (v : World). view v.raft.local_balance_tb) (sym e) ∙ applied,
            )
        | inr more ↦
            let e = ok-injective (rw more at h₁) in
            (
              ap (λ (v : World). commands v.raft.log) (sym e) ∙ same' ∙ same,
              ap (λ (v : World). view v.raft.local_balance_tb) (sym e) ∙ view' ∙ applied,
            )
      ]

  commit_coming-Mirrors :
      (start : Balances) (w t : World)
      → Bounded w.raft
      → commit_coming json w ≡ ok t
      → Mirrors start w.raft
      → Mirrors start t.raft
  commit_coming-Mirrors start w t bounded h mirrors =
      let s = w.raft in
      let n = committed_size s.commit_index in
      let k = rounds (pos n) s.coming_commit_index in
      let size = rounds-committed_size s.commit_index s.coming_commit_index bounded.ge bounded.le in
      let first =
        (add_int-committed_size s.commit_index (length s.log) bounded.ge bounded.lt
          bounded.long).0 in
      let (same, applied) =
        commit_coming-view w t n k first refl (omega (arith, size, bounded)) h in
      let moved = (commit_coming-indices json w t h).0 in
      applied
      ∙ ap (replay (take k (drop n (commands s.log)))) mirrors
      ∙ sym (
          replay_more start (commands s.log) s.commit_index s.coming_commit_index bounded.ge
            bounded.le)
      ∙ ap (λ z. replay (take (committed_size z) (commands s.log)) start) (sym moved)
      ∙ ap (λ cs. replay (take (committed_size t.raft.commit_index) cs) start) (sym same)

  count_success-Mirrors :
      (start : Balances) (rsp : AppendEntriesRsp) (w t : World)
      → Bounded w.raft
      → count_success json rsp w ≡ ok t
      → Mirrors start w.raft
      → Mirrors start t.raft
  unfolding count_success
  count_success-Mirrors start rsp w t bounded h mirrors =
      let s = record w.raft { log_granted_num = add_int w.raft.log_granted_num (pos 1) } in
      let w₁ = with_raft s w in
      let bounded' : Bounded s = ground (arith, bounded) in
      let (majority, _, h₁) = >>=-eq-ok (can_commit s) _ h in
      let (w₂, c, h₂) = >>=-eq-ok (if majority then commit_coming json w₁ else ok w₁) _ h₁ in
      set_matched-Mirrors start rsp.server_id (λ _. add_int w₂.raft.coming_commit_index (pos 1)) w₂
        t h₂
        (elim (Bool-cases majority) [
          | inl may ↦ commit_coming-Mirrors start w₁ w₂ bounded' (rw may at c) mirrors
          | inr not_yet ↦
              subst (λ (v : World). Mirrors start v.raft) (ok-injective (rw not_yet at c)) mirrors
        ])

  receive_rsp-Mirrors :
      (start : Balances) (rsp : AppendEntriesRsp) (w t : World)
      → Bounded w.raft
      → receive_rsp json rsp w ≡ ok t
      → Mirrors start w.raft
      → Mirrors start t.raft
  unfolding receive_rsp
  receive_rsp-Mirrors start rsp w t bounded h mirrors = ground (
    arith,
    count_success-Mirrors start rsp w t bounded,
    set_matched-Mirrors start rsp.server_id (λ m. sub_int m (pos 1)) w t,
  )

  -- If the balances of a leader are the ones that its committed commands make, replayed one
  -- after the other on the balances it started with, then they are so again after it has handled
  -- an AppendEntriesRsp without undefined behaviour, whatever it commits, and although it
  -- answers clients and updates its data shard on the way. This holds for a log of less than
  -- 2^31 entries, a commit index of at least -1 that is in the log, and a coming commit index
  -- that is not below it and stays below 2^31 - 1.
  pub execute_rsp-Mirrors :
      (start : Balances) (fd : ℤ) (rsp : AppendEntriesRsp) (w : World) {t : World}
      → length w.raft.log < 2 ^ 31
      → minus_one ≤ℤ w.raft.commit_index
      → w.raft.commit_index <ℤ pos (length w.raft.log)
      → w.raft.commit_index ≤ℤ w.raft.coming_commit_index
      → w.raft.coming_commit_index <ℤ pos (2 ^ 31 - 1)
      → Mirrors start w.raft
      → execute_rsp json fd rsp w ≡ ok t
      → Mirrors start t.raft
  unfolding execute_rsp step_down
  execute_rsp-Mirrors start fd rsp w {t} long ge lt le small mirrors h =
      let bounded : Bounded w.raft = record {
        long = long;
        ge = ge;
        lt = lt;
        le = le;
        small = small;
      } in
      let (w₁, received, h₁) = >>=-eq-ok (receive_rsp json rsp w) _ h in
      Mirrors-kept start w₁ t (ground (arith, h₁)) (ground (arith, h₁)) (ground (arith, h₁))
        (receive_rsp-Mirrors start rsp w w₁ bounded received mirrors)
