-- ===== src/IntraShard.antt =====
-- IntraShardExecutor (server/src/excutor/intraShardExecutor.cpp).
pub mod Admission
use raft_2pc_database.Prelude.{
  ℤ, pos, Bool, true, false, if◌then◌else◌, ◌||◌, ltb_ℤ, eq_ℤ, List, [], ◌∷◌, ◌++◌,
}
use raft_2pc_database.Prelude.Table.{Table, value, touch, insert}
use raft_2pc_database.Message.{IntraShardReq, IntraShardResultType, WrapperMessage}
use raft_2pc_database.Command.Format.{Fmt, pays}
use raft_2pc_database.RaftState.{RaftState, LogEntry, log_size}
use raft_2pc_database.World.{World, respond, with_raft}

-- `local_lock_[sender] || local_lock_[receiver] || local_balance_tb_[sender] < amount`
unfoldable pub is_refused : IntraShardReq → RaftState → Bool
is_refused req s =
    value false req.sender_id s.local_lock
    || value false req.receiver_id s.local_lock
    || ltb_ℤ (value (pos 0) req.sender_id s.local_balance_tb) req.amount

-- The entries that `operator[]` makes while the condition is evaluated from left to right.
unfoldable pub touch_tables : IntraShardReq → RaftState → RaftState
touch_tables req s =
    let locks₁ = touch false req.sender_id s.local_lock in
    let locks₂ = touch false req.receiver_id locks₁ in
    if value false req.sender_id s.local_lock
    then record s { local_lock = locks₁ }
    else if value false req.receiver_id s.local_lock
    then record s { local_lock = locks₂ }
    else record s {
      local_lock = locks₂;
      local_balance_tb = touch (pos 0) req.sender_id s.local_balance_tb;
    }

-- The loop over the log: a transaction id that is in use.
unfoldable pub id_exists : ℤ → List LogEntry → Bool
id_exists id [] = false
id_exists id (entry ∷ log) = if eq_ℤ entry.id id then true else id_exists id log

unfoldable pub fail_rsp : IntraShardReq → WrapperMessage
fail_rsp req =
    WrapperMessage.intra_shard_rsp (record { result = IntraShardResultType.fail; id = req.id })

module _ (fmt : Fmt) where
  unfoldable pub new_entry : ℤ → IntraShardReq → RaftState → LogEntry
  new_entry client_socket req s = record {
    term = s.current_term;
    index = log_size s;
    command = pays fmt req.sender_id req.receiver_id req.amount;
    id = req.id;
    req_fd = client_socket;
  }

  -- The new log entry, and the locks on both items.
  unfoldable pub accept : ℤ → IntraShardReq → RaftState → RaftState
  accept client_socket req s = record s {
    log = s.log ++ (new_entry client_socket req s ∷ []);
    local_lock = insert req.receiver_id true (insert req.sender_id true s.local_lock);
  }

  unfoldable pub execute_req : ℤ → IntraShardReq → World → World
  unfolding is_refused accept
  execute_req client_socket req w =
      let s = touch_tables req w.raft in
      if is_refused req w.raft
      then respond client_socket (fail_rsp req) (with_raft s w)
      else if id_exists req.id s.log
      then respond client_socket (fail_rsp req) (with_raft s w)
      else with_raft (accept client_socket req s) w
