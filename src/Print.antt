-- ===== src/Print.antt =====
-- PrintBalanceExecutor and PrintDatastoreExecutor (server/src/excutor/printBalanceExecutor.cpp,
-- printDatastoreExecutor.cpp).
use raft_2pc_database.Prelude.{
  ℕ, zero, suc, ℤ, pos, minus_one, none, some, List, [], ◌∷◌, Result, ok, at, ◌>>=◌, rounds,
}
use raft_2pc_database.Prelude.Table.{lookup}
use raft_2pc_database.Message.{
  Entry, PrintBalanceReq, PrintBalanceRsp, PrintDatastoreReq, WrapperMessage,
}
use raft_2pc_database.RaftState.{RaftState, LogEntry}
use raft_2pc_database.World.{World, respond}

-- A balance of -1 stands for an item that is not found.
unfoldable pub balance_rsp : PrintBalanceReq → RaftState → PrintBalanceRsp
balance_rsp req s = record {
  cluster_id = req.cluster_id;
  server_id = req.server_id;
  data_item_id = req.data_item_id;
  balance = elim (lookup req.data_item_id s.local_balance_tb) [ none ↦ minus_one | some b ↦ b ];
}

unfoldable pub print_balance : ℤ → PrintBalanceReq → World → World
unfolding balance_rsp
print_balance client_socket req w =
    respond client_socket (WrapperMessage.print_balance_rsp (balance_rsp req w.raft)) w

-- The fields that are copied; `id` keeps the default of protobuf.
unfoldable pub copy_entry : LogEntry → Entry
copy_entry e = record { term = e.term; index = e.index; command = e.command; id = pos 0 }

-- The loop from `idx`, with the rounds left: `log_[idx]` is not checked.
unfoldable pub copy_entries : ℕ → ℕ → List LogEntry → Result (List Entry)
unfolding copy_entry
copy_entries zero idx log = ok []
copy_entries (suc k) idx log = do
  e ← at log (pos idx)
  rest ← copy_entries k (suc idx) log
  ok (copy_entry e ∷ rest)

unfoldable pub print_datastore : ℤ → PrintDatastoreReq → World → Result World
unfolding copy_entries
print_datastore client_socket req w = do
  entries ← copy_entries (rounds (pos 0) w.raft.commit_index) 0 w.raft.log
  ok (
      respond client_socket
        (WrapperMessage.print_datastore_rsp
          (record { cluster_id = req.cluster_id; server_id = req.server_id; entries = entries }))
        w)
