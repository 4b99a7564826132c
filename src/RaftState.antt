-- ===== src/RaftState.antt =====
-- server/include/raftState.hpp and server/src/raftState.cpp: the state of the Raft protocol on one
-- server, its log, balances and locks.
use raft_2pc_database.Prelude.{
  ℕ, ℤ, pos, minus_one, Bool, false, none, some, List, [], length, get_last?, if◌then◌else◌, eq_ℤ,
  sub_int, int32, Result, ok, at, ◌>>=◌,
}
use raft_2pc_database.Prelude.Table.{Table}

pub record LogEntry : Type 0 where
  pub term : ℤ
  pub index : ℤ
  pub command : List ℕ
  pub id : ℤ
  pub req_fd : ℤ

pub data Role : Type 0 where
  follower candidate leader : Role

pub record RaftState : Type 0 where
  pub cluster_id : ℤ
  pub server_id : ℤ
  pub heard_heart_beat : Bool
  pub current_term : ℤ
  pub voted_for : ℤ
  pub role : Role
  pub vote_granted_num : ℤ
  pub log : List LogEntry
  pub log_granted_num : ℤ
  pub coming_commit_index : ℤ
  pub commit_index : ℤ
  pub matched_log_size : List ℤ
  pub local_balance_tb : Table ℤ
  pub local_lock : Table Bool

-- The constructor `RaftState(cluster_id, server_id)`.
unfoldable pub init : ℤ → ℤ → RaftState
init cluster_id server_id = record {
  cluster_id = cluster_id;
  server_id = server_id;
  heard_heart_beat = false;
  current_term = pos 0;
  voted_for = minus_one;
  role = Role.follower;
  vote_granted_num = pos 0;
  log = [];
  log_granted_num = pos 0;
  coming_commit_index = minus_one;
  commit_index = minus_one;
  matched_log_size = [];
  local_balance_tb = [];
  local_lock = [];
}

-- `(int)log_.size()`
abbrev pub log_size : RaftState → ℤ
log_size s = int32 (pos (length s.log))

unfoldable pub lastlogindex : RaftState → ℤ
lastlogindex s = elim (get_last? s.log) [ none ↦ minus_one | some e ↦ e.index ]

unfoldable pub lastlogterm : RaftState → ℤ
lastlogterm s = elim (get_last? s.log) [ none ↦ minus_one | some e ↦ e.term ]

unfoldable pub prevlogindex : RaftState → ℤ → Result ℤ
prevlogindex s idx = do m ← at s.matched_log_size idx; ok (sub_int m (pos 1))

unfoldable pub prevlogterm : RaftState → ℤ → Result ℤ
prevlogterm s idx = do
  m ← at s.matched_log_size idx
  if eq_ℤ m (pos 0) then ok minus_one else at s.log (sub_int m (pos 1)) >>= λ e. ok e.term
