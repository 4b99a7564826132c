-- ===== src/CrossShard/Inert.antt =====
-- What the requests other than a commit leave as it is on a shard: its money and the decisions in
-- its log (`CrossShardExecutor::executeReq`, `IntraShardExecutor::executeReq`).
use raft_2pc_database.Prelude.{ℕ, ℤ, List, [], ◌∷◌, ◌++◌, false, ◌≡◌, refl, arith, ◌∙◌}
use raft_2pc_database.Message.{CrossShardReq, IntraShardReq}
use raft_2pc_database.Command.Format.{Fmt, prepare_pays, abort_pays}
use raft_2pc_database.Command.Scan.{is_commit, is_cross_shard}
use raft_2pc_database.Command.RoundTrip.{is_cross_shard-pays}
use raft_2pc_database.DataShard.{Json}
use raft_2pc_database.RaftState.{RaftState, LogEntry}
use raft_2pc_database.World.{World}
use raft_2pc_database.Money.{total-touch}
use raft_2pc_database.AppendEntries.Conservation.{money}
use raft_2pc_database.IntraShard
use raft_2pc_database.CrossShard.{
  committed, decision_entry, execute_prepare, execute_abort, touch_sender, touch_tables, lock_items,
  append_entry, prepare_entry, abort_entry,
}

-- The shard has the same money, and the same commits for an id.
pub record Inert (id : ℤ) (s t : RaftState) : Type 0 where
  pub same_cluster : t.cluster_id ≡ s.cluster_id
  pub same_money : money t ≡ money s
  pub same_decision : committed id t.log ≡ committed id s.log

pub Inert-trans : {id : ℤ} {s t u : RaftState} → Inert id s t → Inert id t u → Inert id s u
Inert-trans a b = record {
  same_cluster = b.same_cluster ∙ a.same_cluster;
  same_money = b.same_money ∙ a.same_money;
  same_decision = b.same_decision ∙ a.same_decision;
}

-- An entry that is no commit.
committed_other :
    (id : ℤ) (log : List LogEntry) (e : LogEntry)
    → is_commit e.command ≡ false
    → committed id (log ++ (e ∷ [])) ≡ committed id log
unfolding committed
committed_other id [] e other = ground (arith, other)
committed_other id (x ∷ log) e other = ground (arith, committed_other id log e other)

is_commit-prepare_pays : (fmt : Fmt) (s r a : ℤ) → is_commit (prepare_pays fmt s r a) ≡ false
unfolding is_commit prepare_pays
is_commit-prepare_pays fmt s r a = refl

is_commit-abort_pays : (fmt : Fmt) (s r a : ℤ) → is_commit (abort_pays fmt s r a) ≡ false
unfolding is_commit abort_pays
is_commit-abort_pays fmt s r a = refl

intra_no_commit : (c : List ℕ) → is_cross_shard c ≡ false → is_commit c ≡ false
unfolding is_cross_shard is_commit
intra_no_commit [] h = refl
intra_no_commit (x ∷ c) h = ground arith

append_entry-Inert :
    (id : ℤ) (e : LogEntry) (s : RaftState)
    → is_commit e.command ≡ false
    → Inert id s (append_entry e s)
unfolding append_entry
append_entry-Inert id e s other = record {
  same_cluster = refl;
  same_money = refl;
  same_decision = committed_other id s.log e other;
}

module _ (id : ℤ) (req : CrossShardReq) (s : RaftState) where
  touch_tables-Inert : Inert id s (touch_tables req s)
  unfolding touch_tables touch_sender
  touch_tables-Inert = ground (arith, total-touch req.sender_id s.local_balance_tb)

  lock_items-Inert : Inert id s (lock_items req s)
  unfolding lock_items
  lock_items-Inert = ground arith

module _ (fmt : Fmt) (json : Json) (id fd : ℤ) (w : World) where
  pub execute_prepare-Inert :
      (req : CrossShardReq) → Inert id w.raft (execute_prepare fmt json fd req w).raft
  unfolding execute_prepare prepare_entry
  execute_prepare-Inert req =
      let s = touch_tables req w.raft in
      let e = prepare_entry fmt json fd req s in
      let touched = touch_tables-Inert id req w.raft in
      let added =
        append_entry-Inert id e s
          (is_commit-prepare_pays fmt req.sender_id req.receiver_id req.amount) in
      let locked = lock_items-Inert id req (append_entry e s) in
      let accepted = Inert-trans touched (Inert-trans added locked) in
      ground (arith, touched, accepted)

  pub execute_abort-Inert :
      (req : CrossShardReq) → Inert id w.raft (execute_abort fmt json fd req w).raft
  unfolding execute_abort decision_entry
  execute_abort-Inert req = ground (
    arith,
    append_entry-Inert id (abort_entry fmt json req w.raft) w.raft
        (is_commit-abort_pays fmt req.sender_id req.receiver_id req.amount),
  )

  pub intra_shard-Inert :
      (req : IntraShardReq) → Inert id w.raft (IntraShard.execute_req fmt fd req w).raft
  unfolding IntraShard.execute_req IntraShard.touch_tables IntraShard.accept IntraShard.new_entry
  intra_shard-Inert req =
      let s = IntraShard.touch_tables req w.raft in
      let e = IntraShard.new_entry fmt fd req s in
      let other =
        intra_no_commit e.command
          (is_cross_shard-pays fmt req.sender_id req.receiver_id req.amount) in
      ground (
        arith,
        total-touch req.sender_id w.raft.local_balance_tb,
        committed_other id w.raft.log e other,
      )
