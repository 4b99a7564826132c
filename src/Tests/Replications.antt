-- ===== src/Tests/Replications.antt =====
-- Log entries on their way from a leader to a follower, and their commit.
use raft_2pc_database.Prelude.{
  ℕ, ℤ, pos, minus_one, some, true, [], ◌∷◌, ◌≡◌, ◌⊎◌, refl, arith, List, add_int, int32, ◌+ℤ◌,
  ◌-ℤ◌, ok, All, map, ◌≤ℤ◌, ◌<ℤ◌, get_elem?, drop, InRange,
}
use raft_2pc_database.Prelude.Table.{value, insert, lookup}
use raft_2pc_database.Command.Decimal.{decimal_fmt, decimal_digits, digits_before}
use raft_2pc_database.Command.Format.{pays, format_int}
use raft_2pc_database.Command.Scan.{scan_pays, is_cross_shard, scan_int}
use raft_2pc_database.DataShard.{update_shard, update_data_shard, read_file}
use raft_2pc_database.Message.{Entry, AppendEntriesReq, AppendEntriesRsp}
use raft_2pc_database.RaftState
use raft_2pc_database.RaftState.{RaftState, Role, LogEntry}
use raft_2pc_database.World.{World}
use raft_2pc_database.AppendEntries.{
  answer, execute_rsp, finish_entry, transfer, is_mismatch, hear_leader, accept_entries,
  replicate_log, merge_entries, commit_entries, commit_entry, receive_rsp, count_success,
  can_commit, commit_coming, finish_entries, finish_intra, respond_waiting, unlock, set_matched,
  server_slot,
}
use raft_2pc_database.AppendEntries.Replication.{IsConsistent, Replicated, answer-Replicated}
use raft_2pc_database.AppendEntries.Conservation.{money, money-execute_rsp}
use raft_2pc_database.AppendEntries.Commit.{Applied, finish_entry-Applied}
use raft_2pc_database.AppendEntries.CommitRule.{MayCommit, execute_rsp-Moved}
use raft_2pc_database.AppendEntries.Regress.{heart_beat_req, commit_regress_applies_twice}
use raft_2pc_database.AppendEntries.{log_entry}
use raft_2pc_database.AppendEntries.Readable.{IsReadable}
use raft_2pc_database.AppendEntries.Totality.{answer-ok}
use raft_2pc_database.RequestVote.{step_down}
use raft_2pc_database.IntraShard.Admission.{balance}
use raft_2pc_database.Tests.Inputs.{no_json, empty_disk}

-- 1 pays 2 $3, 2 pays 1 $1, and a prepared transaction.
abbrev pub entry_at : ℤ → ℤ → List ℕ → LogEntry
entry_at term index command = record {
  term = term;
  index = index;
  command = command;
  id = index;
  req_fd = minus_one;
}

abbrev pub first_pays : List ℕ
first_pays = pays decimal_fmt (pos 1) (pos 2) (pos 3)

abbrev pub second_pays : List ℕ
second_pays = pays decimal_fmt (pos 2) (pos 1) (pos 1)

abbrev pub balances : RaftState
balances = record (RaftState.init (pos 0) (pos 0)) {
  current_term = pos 2;
  local_balance_tb = (pos 1, pos 10) ∷ (pos 2, pos 10) ∷ [];
}

-- A follower with an entry of term 1 that the leader of term 2 replaces.
abbrev pub behind : RaftState
behind = record balances {
  log = entry_at (pos 1) (pos 0) first_pays ∷ entry_at (pos 1) (pos 1) first_pays ∷ [];
}

abbrev sent_entry : Entry
sent_entry = record { term = pos 2; index = pos 1; command = second_pays; id = pos 1 }

abbrev pub append_req : AppendEntriesReq
append_req = record {
  term = pos 2;
  leader_id = pos 1;
  prev_log_index = pos 0;
  prev_log_term = pos 1;
  entries = sent_entry ∷ [];
  commit_index = pos 0;
  server_id = pos 0;
}

pub answered :
    (s' : RaftState) × (rsp : AppendEntriesRsp) × (answer append_req behind ≡ ok (s', rsp))
    × (rsp.success ≡ true)
unfolding answer is_mismatch hear_leader accept_entries replicate_log merge_entries commit_entries
    commit_entry transfer scan_pays is_cross_shard scan_int pays format_int decimal_digits
    digits_before int32 ◌+ℤ◌ ◌-ℤ◌ RaftState.init value lookup insert
answered = (_, _, refl, refl)

pub base_at_one : add_int (pos 0) (pos 1) ≡ pos 1
unfolding int32 ◌+ℤ◌
base_at_one = refl

behind-IsConsistent : IsConsistent (sent_entry ∷ []) (drop 1 behind.log)
behind-IsConsistent = ground arith

answer-Replicated_example : Replicated append_req 1 behind.log answered.0
answer-Replicated_example =
    answer-Replicated append_req behind 1 (omega arith) (omega arith, omega arith) base_at_one
      behind-IsConsistent answered.2 answered.3

-- A leader that waits for a second grant of an entry of its term.
abbrev pub leading : World
leading = record {
  raft = record balances {
    role = Role.leader;
    log = record (entry_at (pos 2) (pos 0) first_pays) { req_fd = pos 5 } ∷ [];
    log_granted_num = pos 1;
    coming_commit_index = pos 0;
    matched_log_size = pos 0 ∷ pos 0 ∷ pos 0 ∷ [];
    local_lock = (pos 1, true) ∷ (pos 2, true) ∷ [];
  };
  calls = [];
  disk = empty_disk;
}

abbrev pub append_rsp : AppendEntriesRsp
append_rsp = record { term = pos 2; success = true; server_id = pos 1 }

pub granted :
    (t : World) × (execute_rsp no_json (pos 9) append_rsp leading ≡ ok t)
    × (t.raft.commit_index ≡ pos 0)
unfolding execute_rsp receive_rsp count_success can_commit commit_coming finish_entries finish_entry
    finish_intra respond_waiting unlock set_matched server_slot step_down update_shard
    update_data_shard read_file transfer scan_pays is_cross_shard scan_int pays format_int
    decimal_digits digits_before int32 ◌+ℤ◌ ◌-ℤ◌ RaftState.init value lookup insert
granted = (_, refl, refl)

money-execute_rsp_example : money granted.0.raft ≡ money leading.raft
money-execute_rsp_example = money-execute_rsp no_json (pos 9) append_rsp leading granted.1

execute_rsp-Moved_example :
    (granted.0.raft.commit_index ≡ leading.raft.commit_index)
    ⊎ (MayCommit append_rsp leading.raft × (granted.0.raft.commit_index ≡ pos 0))
execute_rsp-Moved_example = execute_rsp-Moved no_json (pos 9) append_rsp leading granted.1

sender-InRange : InRange (balance (pos 1) leading.raft -ℤ pos 3)
unfolding value lookup RaftState.init ◌-ℤ◌
sender-InRange = (omega arith, omega arith)

receiver-InRange : InRange (balance (pos 2) leading.raft +ℤ pos 3)
unfolding value lookup RaftState.init ◌+ℤ◌
receiver-InRange = (omega arith, omega arith)

finish_entry-Applied_example :
    (w' : World) × (finish_entry 0 (entry_at (pos 2) (pos 0) first_pays) leading ≡ ok w')
    × Applied (pos 1) (pos 2) (pos 3) (entry_at (pos 2) (pos 0) first_pays) leading w'
finish_entry-Applied_example =
    finish_entry-Applied decimal_fmt 0 (entry_at (pos 2) (pos 0) first_pays) leading (pos 1) (pos 2)
      (pos 3) (omega arith, omega arith) (omega arith, omega arith) (omega arith, omega arith)
      sender-InRange receiver-InRange refl

-- A follower that has committed both entries of its log.
abbrev caught_up : RaftState
caught_up = record behind { commit_index = pos 1 }

log_small : get_elem? caught_up.log 1 ≡ some (entry_at (pos 1) (pos 1) first_pays)
log_small = refl

commit_regress_applies_twice_example :
    (s₁ s₂ : RaftState) × (rsp₁ rsp₂ : AppendEntriesRsp) × (answer
        (heart_beat_req caught_up (pos 0))
        caught_up
      ≡ ok (s₁, rsp₁))
    × (answer (heart_beat_req s₁ (pos 1)) s₁ ≡ ok (s₂, rsp₂))
    × (s₂.log ≡ caught_up.log)
    × (s₂.commit_index ≡ caught_up.commit_index)
    × (s₂.local_balance_tb ≡ transfer (pos 1) (pos 2) (pos 3) caught_up.local_balance_tb)
commit_regress_applies_twice_example =
    commit_regress_applies_twice decimal_fmt caught_up (entry_at (pos 1) (pos 1) first_pays) 0
      (pos 1) (pos 2) (pos 3) (omega arith, omega arith) (omega arith, omega arith)
      (omega arith, omega arith) (omega arith) (omega arith) refl log_small refl

entries-IsReadable : All IsReadable (map log_entry append_req.entries)
unfolding scan_pays is_cross_shard scan_int pays format_int decimal_digits digits_before int32 ◌+ℤ◌
entries-IsReadable = (refl, tt)

behind-IsReadable : All IsReadable behind.log
unfolding scan_pays is_cross_shard scan_int pays format_int decimal_digits digits_before int32 ◌+ℤ◌
behind-IsReadable = (refl, (refl, tt))

commit_covered : append_req.commit_index ≤ℤ append_req.prev_log_index +ℤ pos 1
unfolding ◌+ℤ◌
commit_covered = omega arith

nothing_committed : minus_one ≤ℤ behind.commit_index
unfolding RaftState.init
nothing_committed = omega arith

commit_in_log : behind.commit_index <ℤ pos 2
unfolding RaftState.init
commit_in_log = omega arith

answer-ok_example :
    (s' : RaftState) × (rsp : AppendEntriesRsp) × (answer append_req behind ≡ ok (s', rsp))
answer-ok_example =
    answer-ok append_req behind (omega arith) (omega arith) nothing_committed commit_in_log
      commit_covered behind-IsReadable entries-IsReadable
