-- ===== src/AppendEntries/Leader.antt =====
-- `AppendEntriesExecutor::executeRsp`: the leader counts an answer and commits.
use raft_2pc_database.Prelude.{
  ℕ, zero, suc, ◌%◌, ℤ, pos, negsuc, minus_one, Bool, false, if◌then◌else◌, ◌&&◌, leb_ℤ, eq_ℤ,
  add_int, sub_int, rounds, set, Result, ok, undefined, at, or_undefined, ◌>>=◌,
}
use raft_2pc_database.Prelude.Table.{Table, insert}
use raft_2pc_database.Message.{
  AppendEntriesRsp, IntraShardResultType, CrossShardResultType, WrapperMessage,
}
use raft_2pc_database.Command.Scan.{scan_pays, scan_prepare_pays, is_cross_shard, is_prepare}
use raft_2pc_database.Aio.{AioCall}
use raft_2pc_database.RaftState.{RaftState, LogEntry, Role}
use raft_2pc_database.RequestVote.{step_down}
use raft_2pc_database.DataShard.{Json, update_shard}
use raft_2pc_database.World.{World, respond, with_raft, issue}
use raft_2pc_database.AppendEntries.Follower.{transfer}

-- Both locks are released.
unfoldable pub unlock : ℤ → ℤ → Table Bool → Table Bool
unlock sender receiver locks = insert receiver false (insert sender false locks)

-- The response to the client whose request is log entry `idx`, if it still waits.
unfoldable pub respond_waiting : ℕ → LogEntry → WrapperMessage → World → World
respond_waiting idx e msg w =
    if eq_ℤ e.req_fd minus_one
    then w
    else respond e.req_fd msg
        (with_raft (record w.raft { log = set w.raft.log idx (record e { req_fd = minus_one }) }) w)

-- A prepared cross-shard transaction: unlock its items, and vote yes.
unfoldable pub finish_prepare : ℕ → LogEntry → World → Result World
finish_prepare idx e w =
    or_undefined (scan_prepare_pays e.command) >>= λ (sender, receiver, amount).
    let s = record w.raft { local_lock = unlock sender receiver w.raft.local_lock } in
    let rsp =
      WrapperMessage.cross_shard_rsp
        (record { result = CrossShardResultType.yes_vote; id = e.id }) in
    ok (respond_waiting idx e rsp (with_raft s w))

-- An intra-shard transaction: move the money, unlock its items, and report success.
unfoldable pub finish_intra : ℕ → LogEntry → World → Result World
finish_intra idx e w = or_undefined (scan_pays e.command) >>= λ (sender, receiver, amount).
    let s = record w.raft {
      local_balance_tb = transfer sender receiver amount w.raft.local_balance_tb;
      local_lock = unlock sender receiver w.raft.local_lock;
    } in
    let rsp =
      WrapperMessage.intra_shard_rsp
        (record { result = IntraShardResultType.success; id = e.id }) in
    ok (respond_waiting idx e rsp (with_raft s w))

-- One round of the commit loop.
unfoldable pub finish_entry : ℕ → LogEntry → World → Result World
finish_entry idx e w =
    if is_cross_shard e.command
    then if is_prepare e.command then finish_prepare idx e w else ok w
    else finish_intra idx e w

-- The loop from `idx`, with the rounds left.
unfoldable pub finish_entries : ℕ → ℤ → World → Result World
unfolding finish_entry
finish_entries zero idx w = ok w
finish_entries (suc k) (negsuc n) w = undefined
finish_entries (suc k) (pos idx) w = do
  e ← at w.raft.log (pos idx)
  w₁ ← finish_entry idx e w
  finish_entries k (add_int (pos idx) (pos 1)) w₁

-- `rsp.serverid() % SERVER_NUM_PER_CLUSTER` as a position; C++ keeps the sign.
unfoldable pub server_slot : ℤ → Result ℕ
server_slot (pos n) = ok (n % 3)
server_slot (negsuc n) = elim (suc n % 3) [ zero ↦ ok 0 | suc _ ↦ undefined ]

-- A write to `matched_log_size_[…]`.
unfoldable pub set_matched : ℤ → (ℤ → ℤ) → World → Result World
unfolding server_slot
set_matched server_id f w = do
  i ← server_slot server_id
  m ← at w.raft.matched_log_size (pos i)
  ok (with_raft (record w.raft { matched_log_size = set w.raft.matched_log_size i (f m) }) w)

-- `log_granted_num_ >= 2 && coming_commit_index_ >= 0 && log_[coming_commit_index_].term ==
-- current_term_`
unfoldable pub can_commit : RaftState → Result Bool
can_commit s =
    if leb_ℤ (pos 2) s.log_granted_num && leb_ℤ (pos 0) s.coming_commit_index
    then (at s.log s.coming_commit_index >>= λ e. ok (eq_ℤ e.term s.current_term))
    else ok false

module _ (json : Json) where
  -- The commit of the leader: up to the coming commit index, and then the data shard.
  unfoldable pub commit_coming : World → Result World
  commit_coming w =
      let first = add_int w.raft.commit_index (pos 1) in
      finish_entries (rounds first w.raft.coming_commit_index) first w >>= λ w₁.
      if eq_ℤ w₁.raft.commit_index w₁.raft.coming_commit_index
      then ok w₁
      else let w₂ = update_shard json w₁ in
        ok (with_raft (record w₂.raft { commit_index = w₂.raft.coming_commit_index }) w₂)

  unfoldable pub count_success : AppendEntriesRsp → World → Result World
  count_success rsp w =
      let s = record w.raft { log_granted_num = add_int w.raft.log_granted_num (pos 1) } in
      let w₁ = with_raft s w in
      can_commit s >>= λ majority. (if majority then commit_coming w₁ else ok w₁) >>= λ w₂.
      set_matched rsp.server_id (λ m. add_int w₂.raft.coming_commit_index (pos 1)) w₂

  unfoldable pub receive_rsp : AppendEntriesRsp → World → Result World
  receive_rsp rsp w = elim w.raft.role [
    | Role.leader ↦
        if eq_ℤ rsp.term w.raft.current_term
        then if rsp.success
          then count_success rsp w
          else set_matched rsp.server_id (λ m. sub_int m (pos 1)) w
        else ok w
    | _ ↦ ok w
  ]

  unfoldable pub execute_rsp : ℤ → AppendEntriesRsp → World → Result World
  unfolding step_down
  execute_rsp client_socket rsp w = receive_rsp rsp w >>= λ w₁.
      ok (issue (AioCall.close client_socket) (with_raft (step_down rsp.term w₁.raft) w₁))
