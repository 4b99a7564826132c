-- ===== src/AppendEntries/Conservation.antt =====
-- The money of a server while it commits (AppendEntriesExecutor).
use raft_2pc_database.Prelude.{
  ℕ, zero, suc, ℤ, pos, negsuc, List, [], ◌∷◌, inl, inr, ◌≡◌, refl, arith, ◌∙◌, ok, at, Ensures,
  Ensures-bind, Ensures-any, Ensures-ok, Ensures-if, Ensures-mono, Ensures-of, >>=-eq-ok, rounds,
  or_undefined, if◌then◌else◌, add_int, sub_int, Option-cases, codes,
}
use raft_2pc_database.Prelude.Table.{Table}
use raft_2pc_database.Message.{WrapperMessage, AppendEntriesReq, AppendEntriesRsp}
use raft_2pc_database.RaftState.{RaftState, LogEntry}
use raft_2pc_database.Command.Scan.{scan_pays, is_cross_shard}
use raft_2pc_database.Money.{total, total-debit, total-credit, total-touch}
use raft_2pc_database.DataShard.{
  Json, update_line, update_lines, update_data_shard, update_shard, read_file, update_name,
  split_lines,
}
use raft_2pc_database.World.{World, with_raft}
use raft_2pc_database.RequestVote.{step_down}
use raft_2pc_database.AppendEntries.Follower.{
  transfer, commit_entry, commit_entries, accept_entries, replicate_log, answer, hear_leader,
}
use raft_2pc_database.AppendEntries.Leader.{
  finish_entry, finish_entries, respond_waiting, finish_intra, finish_prepare, set_matched,
  commit_coming, can_commit, server_slot, count_success, receive_rsp, execute_rsp,
}

-- The money on a server.
abbrev pub money : RaftState → ℕ
money s = total s.local_balance_tb

total-transfer :
    (sender receiver amount : ℤ) (tb : Table ℤ)
    → total (transfer sender receiver amount tb) ≡ total tb
unfolding transfer
total-transfer sender receiver amount tb =
    total-credit receiver amount _ ∙ total-debit sender amount tb

abbrev Same : Table ℤ → Table ℤ → Type 0
Same tb tb' = total tb' ≡ total tb

total-commit_entry : (e : LogEntry) (tb : Table ℤ) → Ensures (Same tb) (commit_entry e tb)
unfolding commit_entry
total-commit_entry e tb = Ensures-if (Same tb) (is_cross_shard e.command) (ok tb) _ refl (
    Ensures-bind (λ _. Unit {0}) (Same tb) (or_undefined (scan_pays e.command)) _ (Ensures-any _)
      (λ (sender, receiver, amount) _. total-transfer sender receiver amount tb))

total-commit_entries :
    (k : ℕ) (idx : ℤ) (log : List LogEntry) (tb : Table ℤ)
    → Ensures (Same tb) (commit_entries k idx log tb)
unfolding commit_entries
total-commit_entries zero idx log tb = refl
total-commit_entries (suc k) idx log tb =
    Ensures-bind (λ _. Unit {0}) (Same tb) (at log idx) _ (Ensures-any _)
      λ e _.
        Ensures-bind (Same tb) (Same tb) (commit_entry e tb) _ (total-commit_entry e tb) λ tb₁ h.
          Ensures-mono (Same tb₁) (Same tb) (commit_entries k (add_int idx (pos 1)) log tb₁)
            (total-commit_entries k (add_int idx (pos 1)) log tb₁) (λ tb₂ h₂. h₂ ∙ h)

money-accept_entries :
    (req : AppendEntriesReq) (s t : RaftState) → accept_entries req s ≡ ok t → money t ≡ money s
unfolding accept_entries
money-accept_entries req s t e =
    let (log, _, h) =
      >>=-eq-ok (replicate_log (add_int req.prev_log_index (pos 1)) req.entries s.log) _ e in
    let first = add_int s.commit_index (pos 1) in
    let (tb, c, h₁) =
      >>=-eq-ok (commit_entries (rounds first req.commit_index) first log s.local_balance_tb) _ h in
    let kept = total-commit_entries (rounds first req.commit_index) first log s.local_balance_tb in
    ground (arith, Ensures-ok (Same s.local_balance_tb) _ kept c)

money-hear_leader : (req : AppendEntriesReq) (s : RaftState) → money (hear_leader req s) ≡ money s
unfolding hear_leader
money-hear_leader req s = refl

-- A follower that answers an AppendEntriesReq without undefined behaviour has afterwards the
-- same sum of balances as before, modulo 2^32, whatever entries it commits.
pub money-answer :
    (req : AppendEntriesReq) (s : RaftState) {s' : RaftState} {rsp : AppendEntriesRsp}
    → answer req s ≡ ok (s', rsp)
    → money s' ≡ money s
unfolding answer
money-answer req s e = ground (
  arith,
  money-hear_leader req s,
  Ensures-of (λ t. money t ≡ money (hear_leader req s)) (accept_entries req (hear_leader req s))
      (money-accept_entries req (hear_leader req s)),
)

-- The leader: what holds of the money in the shared state.
abbrev Kept : World → World → Type 0
Kept w w' = money w'.raft ≡ money w.raft

money-respond_waiting :
    (idx : ℕ) (e : LogEntry) (msg : WrapperMessage) (w : World)
    → Kept w (respond_waiting idx e msg w)
unfolding respond_waiting
money-respond_waiting idx e msg w = ground arith

money-finish_prepare :
    (idx : ℕ) (e : LogEntry) (w t : World) → finish_prepare idx e w ≡ ok t → Kept w t
unfolding finish_prepare respond_waiting
money-finish_prepare idx e w t h = ground arith

money-finish_intra : (idx : ℕ) (e : LogEntry) (w t : World) → finish_intra idx e w ≡ ok t → Kept w t
unfolding finish_intra respond_waiting
money-finish_intra idx e w t h =
    let ((sender, receiver, amount), _, h₁) = >>=-eq-ok (or_undefined (scan_pays e.command)) _ h in
    ground (arith, total-transfer sender receiver amount w.raft.local_balance_tb)

money-finish_entry : (idx : ℕ) (e : LogEntry) (w t : World) → finish_entry idx e w ≡ ok t → Kept w t
unfolding finish_entry
money-finish_entry idx e w t h =
    ground (arith, money-finish_prepare idx e w t, money-finish_intra idx e w t)

money-finish_entries : (k : ℕ) (idx : ℤ) (w t : World) → finish_entries k idx w ≡ ok t → Kept w t
unfolding finish_entries
money-finish_entries zero idx w t h = ground arith
money-finish_entries (suc k) (negsuc n) w t h = cc
money-finish_entries (suc k) (pos idx) w t h =
    let (e, _, h₁) = >>=-eq-ok (at w.raft.log (pos idx)) _ h in
    let (w₁, c, h₂) = >>=-eq-ok (finish_entry idx e w) _ h₁ in
    money-finish_entries k (add_int (pos idx) (pos 1)) w₁ t h₂ ∙ money-finish_entry idx e w w₁ c

-- One answer of a follower.
money-set_matched :
    (server_id : ℤ) (f : ℤ → ℤ) (w t : World) → set_matched server_id f w ≡ ok t → Kept w t
unfolding set_matched
money-set_matched server_id f w t h =
    let (i, _, h₁) = >>=-eq-ok (server_slot server_id) _ h in
    let (m, _, h₂) = >>=-eq-ok (at w.raft.matched_log_size (pos i)) _ h₁ in ground arith

module _ (json : Json) where
  total-update_line : (line : List ℕ) (tb : Table ℤ) → total (update_line json line tb) ≡ total tb
  unfolding update_line
  total-update_line line tb = elim (Option-cases (json.int_field line (codes "id"))) [
    | inl no_id ↦ rw (no_id, update_line)
    | inr (id, e) ↦ rw (e, update_line) (total-touch id tb)
  ]

  total-update_lines :
      (lines : List (List ℕ)) (tb : Table ℤ) → total (update_lines json lines tb) ≡ total tb
  unfolding update_lines
  total-update_lines [] tb = refl
  total-update_lines (line ∷ lines) tb =
      total-update_lines lines (update_line json line tb) ∙ total-update_line line tb

  pub money-update_shard : (w : World) → Kept w (update_shard json w)
  unfolding update_shard update_data_shard
  money-update_shard w = elim (Option-cases (read_file (update_name w.raft) w.disk.files)) [
    | inl no_file ↦ ground arith
    | inr (buffer, e) ↦
        ground (arith, total-update_lines (split_lines [] buffer) w.raft.local_balance_tb)
  ]

  money-commit_coming : (w t : World) → commit_coming json w ≡ ok t → Kept w t
  unfolding commit_coming
  money-commit_coming w t h =
      let first = add_int w.raft.commit_index (pos 1) in
      let n = rounds first w.raft.coming_commit_index in
      let (w₁, c, h₁) = >>=-eq-ok (finish_entries n first w) _ h in
      ground (arith, money-finish_entries n first w w₁ c, money-update_shard w₁)

  money-count_success :
      (rsp : AppendEntriesRsp) (w t : World) → count_success json rsp w ≡ ok t → Kept w t
  unfolding count_success
  money-count_success rsp w t h =
      let s = record w.raft { log_granted_num = add_int w.raft.log_granted_num (pos 1) } in
      let w₁ = with_raft s w in
      let (majority, _, h₁) = >>=-eq-ok (can_commit s) _ h in
      let (w₂, c, h₂) = >>=-eq-ok (if majority then commit_coming json w₁ else ok w₁) _ h₁ in
      let moved =
        money-set_matched rsp.server_id (λ _. add_int w₂.raft.coming_commit_index (pos 1)) w₂ t
          h₂ in
      ground (arith, money-commit_coming w₁ w₂)

  money-receive_rsp :
      (rsp : AppendEntriesRsp) (w t : World) → receive_rsp json rsp w ≡ ok t → Kept w t
  unfolding receive_rsp
  money-receive_rsp rsp w t h = ground (
    arith,
    money-count_success rsp w t,
    money-set_matched rsp.server_id (λ m. sub_int m (pos 1)) w t,
  )

  -- A leader that handles an AppendEntriesRsp without undefined behaviour has afterwards the
  -- same sum of balances as before, modulo 2^32, whatever entries it commits.
  pub money-execute_rsp :
      (fd : ℤ) (rsp : AppendEntriesRsp) (w : World) {t : World}
      → execute_rsp json fd rsp w ≡ ok t
      → Kept w t
  unfolding execute_rsp step_down
  money-execute_rsp fd rsp w e =
      ground (arith, Ensures-of (Kept w) (receive_rsp json rsp w) (money-receive_rsp rsp w))
