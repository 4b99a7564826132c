-- ===== src/CrossShard.antt =====
-- CrossShardExecutor (server/src/excutor/crossShardExecutor.cpp): the participant of two-phase
-- commit.
pub mod Decision
pub mod Inert
pub mod Growth
pub mod Requests
pub mod Locks
pub mod Responses
pub mod Shards
pub mod Transaction
use raft_2pc_database.Prelude.{
  ℕ, ℤ, pos, minus_one, Bool, true, false, if◌then◌else◌, ◌&&◌, ◌||◌, ltb_ℤ, eq_ℤ, add_int, sub_int,
  int32, List, [], ◌∷◌, ◌++◌,
}
use raft_2pc_database.Prelude.Table.{Table, value, touch, insert}
use raft_2pc_database.Message.{
  CrossShardReq, CrossShardPhaseType, CrossShardResultType, WrapperMessage,
}
use raft_2pc_database.Command.Format.{Fmt, prepare_pays, commit_pays, abort_pays}
use raft_2pc_database.Command.Scan.{is_prepare, is_commit, is_abort}
use raft_2pc_database.DataShard.{Json, update_shard}
use raft_2pc_database.RaftState.{RaftState, LogEntry, Role, log_size}
use raft_2pc_database.World.{World, respond, with_raft}

-- Which of the two items are in the data shard of this server.
abbrev pub holds_sender : CrossShardReq → RaftState → Bool
holds_sender req s = eq_ℤ req.sender_cluster_id s.cluster_id

abbrev pub holds_receiver : CrossShardReq → RaftState → Bool
holds_receiver req s = eq_ℤ req.receiver_cluster_id s.cluster_id

-- The sender's part of the prepare condition: locked, or without enough balance.
unfoldable pub sender_refused : CrossShardReq → RaftState → Bool
sender_refused req s =
    holds_sender req s
    && (value false req.sender_id s.local_lock
        || ltb_ℤ (value (pos 0) req.sender_id s.local_balance_tb) req.amount)

unfoldable pub is_refused : CrossShardReq → RaftState → Bool
unfolding sender_refused
is_refused req s =
    sender_refused req s || holds_receiver req s && value false req.receiver_id s.local_lock

-- The entries that `operator[]` makes while the condition is evaluated.
unfoldable pub touch_sender : CrossShardReq → RaftState → RaftState
touch_sender req s =
    if holds_sender req s
    then if value false req.sender_id s.local_lock
      then record s { local_lock = touch false req.sender_id s.local_lock }
      else record s {
        local_lock = touch false req.sender_id s.local_lock;
        local_balance_tb = touch (pos 0) req.sender_id s.local_balance_tb;
      }
    else s

unfoldable pub touch_tables : CrossShardReq → RaftState → RaftState
unfolding sender_refused touch_sender
touch_tables req s =
    let s₁ = touch_sender req s in
    if sender_refused req s
    then s₁
    else if holds_receiver req s
    then record s₁ { local_lock = touch false req.receiver_id s₁.local_lock }
    else s₁

-- The loop over the log in the prepare phase: the transaction is prepared or aborted already.
unfoldable pub prepared_or_aborted : ℤ → List LogEntry → Bool
prepared_or_aborted id [] = false
prepared_or_aborted id (entry ∷ log) =
    if eq_ℤ entry.id id && (is_prepare entry.command || is_abort entry.command)
    then true
    else prepared_or_aborted id log

unfoldable pub committed : ℤ → List LogEntry → Bool
committed id [] = false
committed id (entry ∷ log) =
    if eq_ℤ entry.id id && is_commit entry.command then true else committed id log

unfoldable pub aborted : ℤ → List LogEntry → Bool
aborted id [] = false
aborted id (entry ∷ log) =
    if eq_ℤ entry.id id && is_abort entry.command then true else aborted id log

unfoldable pub rsp : CrossShardResultType → CrossShardReq → WrapperMessage
rsp result req = WrapperMessage.cross_shard_rsp (record { result = result; id = req.id })

-- `role_==Role::LEADER ? current_term_ : -1`
unfoldable pub entry_term : RaftState → ℤ
entry_term s = elim s.role [ Role.leader ↦ s.current_term | _ ↦ minus_one ]

-- The entry of the commit and abort phases.
unfoldable pub decision_entry : List ℕ → CrossShardReq → RaftState → LogEntry
unfolding entry_term
decision_entry command req s = record {
  term = entry_term s;
  index = log_size s;
  command = command;
  id = req.id;
  req_fd = minus_one;
}

-- Locks the items that this shard holds.
unfoldable pub lock_items : CrossShardReq → RaftState → RaftState
lock_items req s =
    let locks =
      if holds_sender req s then insert req.sender_id true s.local_lock else s.local_lock in
    record s {
      local_lock = if holds_receiver req s then insert req.receiver_id true locks else locks;
    }

abbrev pub debit : ℤ → ℤ → Table ℤ → Table ℤ
debit id amount tb = insert id (sub_int (value (pos 0) id tb) amount) tb

abbrev pub credit : ℤ → ℤ → Table ℤ → Table ℤ
credit id amount tb = insert id (add_int (value (pos 0) id tb) amount) tb

-- Moves the money of the items that this shard holds.
unfoldable pub move_money : CrossShardReq → RaftState → RaftState
move_money req s =
    let tb =
      if holds_sender req s
      then debit req.sender_id req.amount s.local_balance_tb
      else s.local_balance_tb in
    record s {
      local_balance_tb = if holds_receiver req s then credit req.receiver_id req.amount tb else tb;
    }

unfoldable pub append_entry : LogEntry → RaftState → RaftState
append_entry e s = record s { log = s.log ++ (e ∷ []) }

module _ (fmt : Fmt) (json : Json) where
  unfoldable pub prepare_entry : ℤ → CrossShardReq → RaftState → LogEntry
  prepare_entry client_socket req s = record {
    term = s.current_term;
    index = log_size s;
    command = prepare_pays fmt req.sender_id req.receiver_id req.amount;
    id = req.id;
    req_fd = client_socket;
  }

  unfoldable pub execute_prepare : ℤ → CrossShardReq → World → World
  unfolding append_entry
  execute_prepare client_socket req w =
      let s = touch_tables req w.raft in
      if is_refused req w.raft
      then respond client_socket (rsp CrossShardResultType.no_vote req) (with_raft s w)
      else if prepared_or_aborted req.id s.log
      then respond client_socket (rsp CrossShardResultType.no_vote req) (with_raft s w)
      else with_raft (lock_items req (append_entry (prepare_entry client_socket req s) s)) w

  abbrev pub commit_entry : CrossShardReq → RaftState → LogEntry
  commit_entry req = decision_entry (commit_pays fmt req.sender_id req.receiver_id req.amount) req

  abbrev pub abort_entry : CrossShardReq → RaftState → LogEntry
  abort_entry req = decision_entry (abort_pays fmt req.sender_id req.receiver_id req.amount) req

  -- The commit: a log entry, the balances, and the data shard.
  unfoldable pub apply_commit : CrossShardReq → World → World
  unfolding append_entry
  apply_commit req w =
      let s = append_entry (commit_entry req w.raft) w.raft in
      update_shard json (with_raft (move_money req s) w)

  unfoldable pub execute_commit : ℤ → CrossShardReq → World → World
  execute_commit client_socket req w =
      let done = if committed req.id w.raft.log then w else apply_commit req w in
      respond client_socket (rsp CrossShardResultType.ack req) done

  unfoldable pub execute_abort : ℤ → CrossShardReq → World → World
  unfolding append_entry
  execute_abort client_socket req w =
      let done =
        if aborted req.id w.raft.log
        then w
        else with_raft (append_entry (abort_entry req w.raft) w.raft) w in
      respond client_socket (rsp CrossShardResultType.ack req) done

  -- The `else` of the source is the abort phase, also for a phase that has no name.
  unfoldable pub execute_req : ℤ → CrossShardReq → World → World
  execute_req client_socket req w = elim req.phase [
    | CrossShardPhaseType.prepare ↦ execute_prepare client_socket req w
    | CrossShardPhaseType.commit ↦ execute_commit client_socket req w
    | _ ↦ execute_abort client_socket req w
  ]
