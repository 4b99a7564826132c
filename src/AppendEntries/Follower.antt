-- ===== src/AppendEntries/Follower.antt =====
-- `AppendEntriesExecutor::executeReq`: a follower takes over the log of the leader.
use raft_2pc_database.Prelude.{
  ℕ, zero, suc, ℤ, pos, negsuc, minus_one, Bool, true, false, not, if◌then◌else◌, ltb_ℤ, leb_ℤ,
  eq_ℤ, add_int, sub_int, rounds, List, [], ◌∷◌, ◌++◌, map, take, drop, Result, ok, undefined, at,
  or_undefined, ◌>>=◌,
}
use raft_2pc_database.Prelude.Table.{Table, value, insert}
use raft_2pc_database.Message.{Entry, AppendEntriesReq, AppendEntriesRsp, WrapperMessage}
use raft_2pc_database.Command.Scan.{scan_pays, is_cross_shard}
use raft_2pc_database.RaftState.{RaftState, LogEntry, Role, log_size}
use raft_2pc_database.World.{World, respond, with_raft}

-- A term that is not out of date is taken over, and makes the server a follower.
unfoldable pub hear_leader : AppendEntriesReq → RaftState → RaftState
hear_leader req s = record s {
  current_term = if ltb_ℤ s.current_term req.term then req.term else s.current_term;
  role = Role.follower;
  heard_heart_beat = true;
}

-- `size <= prevLogIndex || (prevLogIndex >= 0 && log_[prevLogIndex].term != prevLogTerm)`
unfoldable pub is_mismatch : AppendEntriesReq → RaftState → Result Bool
is_mismatch req s =
    if leb_ℤ (log_size s) req.prev_log_index
    then ok true
    else if leb_ℤ (pos 0) req.prev_log_index
    then (at s.log req.prev_log_index >>= λ e. ok (not (eq_ℤ e.term req.prev_log_term)))
    else ok false

abbrev pub log_entry : Entry → LogEntry
log_entry e = record {
  term = e.term;
  index = e.index;
  command = e.command;
  id = e.id;
  req_fd = minus_one;
}

-- The two loops, on the part of the log from `log_idx_base` on: an entry that matches is kept, at
-- the first that does not the rest is dropped and the entries that are left are copied.
unfoldable pub merge_entries : List Entry → List LogEntry → List LogEntry
merge_entries [] old = old
merge_entries (entry ∷ entries) [] = log_entry entry ∷ map log_entry entries
merge_entries (entry ∷ entries) (e ∷ old) =
    if eq_ℤ entry.term e.term
    then e ∷ merge_entries entries old
    else log_entry entry ∷ map log_entry entries

-- `log_[base + idx]` at a negative position.
unfoldable pub replicate_log : ℤ → List Entry → List LogEntry → Result (List LogEntry)
unfolding merge_entries
replicate_log (pos base) entries log = ok (take base log ++ merge_entries entries (drop base log))
replicate_log (negsuc n) [] log = ok log
replicate_log (negsuc n) (entry ∷ entries) log = undefined

-- `local_balance_tb_[sender_id] -= amount; local_balance_tb_[receiver_id] += amount;`
unfoldable pub transfer : ℤ → ℤ → ℤ → Table ℤ → Table ℤ
transfer sender receiver amount tb =
    let tb₁ = insert sender (sub_int (value (pos 0) sender tb) amount) tb in
    insert receiver (add_int (value (pos 0) receiver tb₁) amount) tb₁

-- One round of the commit loop: the balances change by an intra-shard transaction only.
unfoldable pub commit_entry : LogEntry → Table ℤ → Result (Table ℤ)
unfolding transfer
commit_entry e tb =
    if is_cross_shard e.command
    then ok tb
    else or_undefined (scan_pays e.command) >>= λ (sender, receiver, amount).
        ok (transfer sender receiver amount tb)

-- The loop from `idx`, with the rounds left.
unfoldable pub commit_entries : ℕ → ℤ → List LogEntry → Table ℤ → Result (Table ℤ)
unfolding commit_entry
commit_entries zero idx log tb = ok tb
commit_entries (suc k) idx log tb = do
  e ← at log idx
  tb₁ ← commit_entry e tb
  commit_entries k (add_int idx (pos 1)) log tb₁

-- The branch that accepts the entries.
unfoldable pub accept_entries : AppendEntriesReq → RaftState → Result RaftState
unfolding replicate_log commit_entries
accept_entries req s = do
  log ← replicate_log (add_int req.prev_log_index (pos 1)) req.entries s.log
  let first = add_int s.commit_index (pos 1)
  tb ← commit_entries (rounds first req.commit_index) first log s.local_balance_tb
  ok (record s { log = log; local_balance_tb = tb; commit_index = req.commit_index })

abbrev pub append_rsp : AppendEntriesReq → RaftState → Bool → AppendEntriesRsp
append_rsp req s success = record {
  term = s.current_term;
  success = success;
  server_id = req.server_id;
}

-- The state and the response of `executeReq`.
unfoldable pub answer : AppendEntriesReq → RaftState → Result (RaftState × AppendEntriesRsp)
unfolding hear_leader
answer req s =
    if ltb_ℤ req.term s.current_term
    then ok (s, append_rsp req s false)
    else let s₁ = hear_leader req s in
      is_mismatch req s₁ >>= λ mismatch.
      if mismatch
      then ok (s₁, append_rsp req s₁ false)
      else accept_entries req s₁ >>= λ s₂. ok (s₂, append_rsp req s₂ true)

unfoldable pub execute_req : ℤ → AppendEntriesReq → World → Result World
unfolding answer
execute_req client_socket req w = answer req w.raft >>= λ (s, rsp).
    ok (respond client_socket (WrapperMessage.append_entries_rsp rsp) (with_raft s w))
