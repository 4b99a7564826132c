-- ===== src/CrossShard/Decision.antt =====
-- The second phase on one server, on a second request with the same id, and on both shards.
use raft_2pc_database.Prelude.{
  ℕ, ◌+◌, ◌%◌, ◌^◌, ℤ, List, [], ◌∷◌, ◌++◌, true, false, Bool-cases, inl, inr, ◌≡◌, ◌≢◌, refl,
  arith, ap, ◌∙◌, sym, eq_ℤ, eq_ℤ_iff, residue,
}
use raft_2pc_database.Message.{CrossShardReq, CrossShardResultType}
use raft_2pc_database.Command.Format.{Fmt, commit_pays, abort_pays}
use raft_2pc_database.Command.Scan.{is_commit, is_abort}
use raft_2pc_database.DataShard.{Json, update_data_shard, update_shard}
use raft_2pc_database.RaftState.{RaftState, LogEntry}
use raft_2pc_database.World.{World, respond, with_raft}
use raft_2pc_database.Money.{total-debit, total-credit}
use raft_2pc_database.AppendEntries.Conservation.{money, money-update_shard}
use raft_2pc_database.CrossShard.{
  holds_sender, holds_receiver, committed, aborted, prepared_or_aborted, rsp, decision_entry,
  move_money, apply_commit, commit_entry, abort_entry, execute_commit, execute_abort,
  execute_prepare, touch_sender, touch_tables,
}

is_commit-commit_pays : (fmt : Fmt) (s r a : ℤ) → is_commit (commit_pays fmt s r a) ≡ true
unfolding is_commit commit_pays
is_commit-commit_pays fmt s r a = refl

is_abort-abort_pays : (fmt : Fmt) (s r a : ℤ) → is_abort (abort_pays fmt s r a) ≡ true
unfolding is_abort abort_pays
is_abort-abort_pays fmt s r a = refl

committed-append :
    (id : ℤ) (log : List LogEntry) (e : LogEntry)
    → e.id ≡ id
    → is_commit e.command ≡ true
    → committed id (log ++ (e ∷ [])) ≡ true
unfolding committed
committed-append id [] e same commit = rw commit (ground (arith, eq_ℤ_iff e.id id))
committed-append id (x ∷ log) e same commit = ground (arith, committed-append id log e same commit)

aborted-append :
    (id : ℤ) (log : List LogEntry) (e : LogEntry)
    → e.id ≡ id
    → is_abort e.command ≡ true
    → aborted id (log ++ (e ∷ [])) ≡ true
unfolding aborted
aborted-append id [] e same abort = rw abort (ground (arith, eq_ℤ_iff e.id id))
aborted-append id (x ∷ log) e same abort = ground (arith, aborted-append id log e same abort)

-- An aborted transaction is refused in the prepare phase.
aborted-refused :
    (id : ℤ) (log : List LogEntry) → aborted id log ≡ true → prepared_or_aborted id log ≡ true
unfolding aborted prepared_or_aborted
aborted-refused id [] h = cc
aborted-refused id (e ∷ log) h = ground (arith, aborted-refused id log)

update_shard-log : (json : Json) (w : World) → (update_shard json w).raft.log ≡ w.raft.log
unfolding update_shard update_data_shard
update_shard-log json w = ground arith

touch_tables-log : (req : CrossShardReq) (s : RaftState) → (touch_tables req s).log ≡ s.log
unfolding touch_tables touch_sender
touch_tables-log req s = ground arith

decision_entry_fields :
    (command : List ℕ) (req : CrossShardReq) (s : RaftState)
    → let e = decision_entry command req s in (e.id ≡ req.id) × (e.command ≡ command)
unfolding decision_entry
decision_entry_fields command req s = (refl, refl)

move_money-log : (req : CrossShardReq) (s : RaftState) → (move_money req s).log ≡ s.log
unfolding move_money
move_money-log req s = refl

-- The log of a server that has carried out a request: its own decision stands at the end.
module _ (fmt : Fmt) (json : Json) (req : CrossShardReq) (w : World) where
  apply_commit-log :
      (apply_commit fmt json req w).raft.log ≡ w.raft.log ++ (commit_entry fmt json req w.raft ∷ [])
  unfolding apply_commit
  apply_commit-log = update_shard-log json _ ∙ move_money-log req _

  pub commit_logged : (fd : ℤ) → committed req.id (execute_commit fmt json fd req w).raft.log ≡ true
  unfolding execute_commit
  commit_logged fd = elim (Bool-cases (committed req.id w.raft.log)) [
    | inl before ↦ rw before before
    | inr new ↦
        let e = commit_entry fmt json req w.raft in
        let (id, command) = decision_entry_fields _ req w.raft in
        rw new (
          rw apply_commit-log (
            committed-append req.id w.raft.log e id (
              ap is_commit command
              ∙ is_commit-commit_pays fmt req.sender_id req.receiver_id req.amount)))
  ]

  abort_logged : (fd : ℤ) → aborted req.id (execute_abort fmt json fd req w).raft.log ≡ true
  unfolding execute_abort
  abort_logged fd = elim (Bool-cases (aborted req.id w.raft.log)) [
    | inl before ↦ rw before before
    | inr new ↦
        let e = abort_entry fmt json req w.raft in
        let (id, command) = decision_entry_fields _ req w.raft in
        rw new (
          aborted-append req.id w.raft.log e id (
            ap is_abort command ∙ is_abort-abort_pays fmt req.sender_id req.receiver_id req.amount))
  ]

module _ (fmt : Fmt) (json : Json) (fd : ℤ) (req : CrossShardReq) (w : World) where
  pub execute_commit_again :
      committed req.id w.raft.log ≡ true
      → execute_commit fmt json fd req w ≡ respond fd (rsp CrossShardResultType.ack req) w
  unfolding execute_commit
  execute_commit_again h = rw h

  execute_abort_again :
      aborted req.id w.raft.log ≡ true
      → execute_abort fmt json fd req w ≡ respond fd (rsp CrossShardResultType.ack req) w
  unfolding execute_abort
  execute_abort_again h = rw h

  execute_prepare_again :
      prepared_or_aborted req.id w.raft.log ≡ true
      → let w' = execute_prepare fmt json fd req w in
        (w'.raft.log ≡ w.raft.log)
        × (w'.calls ≡ (respond fd (rsp CrossShardResultType.no_vote req) w).calls)
  unfolding execute_prepare
  execute_prepare_again h = ground (arith, touch_tables-log req w.raft)

module _ (fmt : Fmt) (json : Json) (fd fd' : ℤ) (req again : CrossShardReq) (w : World) where
  -- A second commit request with the same id is acknowledged, and changes neither the Raft state
  -- nor the data shard.
  pub commit_once :
      again.id ≡ req.id
      → let w' = execute_commit fmt json fd req w in
        execute_commit fmt json fd' again w' ≡ respond fd' (rsp CrossShardResultType.ack again) w'
  commit_once same =
      execute_commit_again fmt json fd' again _ (rw same (commit_logged fmt json req w fd))

  -- A second abort request with the same id is acknowledged, and changes neither the Raft state
  -- nor the data shard.
  pub abort_once :
      again.id ≡ req.id
      → let w' = execute_abort fmt json fd req w in
        execute_abort fmt json fd' again w' ≡ respond fd' (rsp CrossShardResultType.ack again) w'
  abort_once same =
      execute_abort_again fmt json fd' again _ (rw same (abort_logged fmt json req w fd))

  -- After an abort, a prepare request with the same id is answered with NO, and no entry is
  -- logged for it.
  pub abort_refuses_prepare :
      again.id ≡ req.id
      → let w' = execute_abort fmt json fd req w in
        let w'' = execute_prepare fmt json fd' again w' in
        (w''.raft.log ≡ w'.raft.log)
        × (w''.calls ≡ (respond fd' (rsp CrossShardResultType.no_vote again) w').calls)
  abort_refuses_prepare same =
      execute_prepare_again fmt json fd' again _
        (aborted-refused again.id _ (rw same (abort_logged fmt json req w fd)))

-- The money of the two shards.
move_money-sender :
    (req : CrossShardReq) (s : RaftState)
    → holds_sender req s ≡ true
    → holds_receiver req s ≡ false
    → (money (move_money req s) + residue req.amount) % 2 ^ 32 ≡ money s
unfolding move_money
move_money-sender req s hs hr =
    rw (hs, hr) (total-debit req.sender_id req.amount s.local_balance_tb)

move_money-receiver :
    (req : CrossShardReq) (s : RaftState)
    → holds_sender req s ≡ false
    → holds_receiver req s ≡ true
    → money (move_money req s) ≡ (money s + residue req.amount) % 2 ^ 32
unfolding move_money
move_money-receiver req s hs hr =
    rw (hs, hr) (total-credit req.receiver_id req.amount s.local_balance_tb)

module _ (fmt : Fmt) (json : Json) (req : CrossShardReq) (w : World) where
  pub apply_commit-sender :
      holds_sender req w.raft ≡ true
      → holds_receiver req w.raft ≡ false
      → (money (apply_commit fmt json req w).raft + residue req.amount) % 2 ^ 32 ≡ money w.raft
  unfolding apply_commit
  apply_commit-sender hs hr =
      rw (money-update_shard json (with_raft (move_money req _) w)) (move_money-sender req _ hs hr)

  pub apply_commit-receiver :
      holds_sender req w.raft ≡ false
      → holds_receiver req w.raft ≡ true
      → money (apply_commit fmt json req w).raft ≡ (money w.raft + residue req.amount) % 2 ^ 32
  unfolding apply_commit
  apply_commit-receiver hs hr =
      rw (money-update_shard json (with_raft (move_money req _) w))
        (move_money-receiver req _ hs hr)

pub shard_match : (a b : ℤ) → a ≡ b → eq_ℤ a b ≡ true
shard_match a b = (eq_ℤ_iff a b).1

pub shard_differs : (a b : ℤ) → a ≢ b → eq_ℤ a b ≡ false
shard_differs a b ne = ground (arith, eq_ℤ_iff a b)

-- A commit that the shards of two different clusters, the sender's and the receiver's, carry
-- out, or have both carried out before, leaves the sum of the balances of both shards as it was,
-- modulo 2^32.
pub commit_conserves :
    (fmt : Fmt) (json : Json) (fd fd' : ℤ) (req : CrossShardReq) (sender receiver : World)
    → sender.raft.cluster_id ≡ req.sender_cluster_id
    → receiver.raft.cluster_id ≡ req.receiver_cluster_id
    → req.sender_cluster_id ≢ req.receiver_cluster_id
    → committed req.id sender.raft.log ≡ committed req.id receiver.raft.log
    → let sender' = execute_commit fmt json fd req sender in
      let receiver' = execute_commit fmt json fd' req receiver in
      (money sender'.raft + money receiver'.raft) % 2 ^ 32
      ≡ (money sender.raft + money receiver.raft) % 2 ^ 32
unfolding execute_commit
commit_conserves fmt json fd fd' req sender receiver hs hr ne both =
    let s = sender.raft in
    let r = receiver.raft in
    let debits =
      apply_commit-sender fmt json req sender (shard_match _ _ (sym hs))
        (shard_differs _ _ (λ e. ne (sym (e ∙ hs)))) in
    let credits =
      apply_commit-receiver fmt json req receiver (shard_differs _ _ (λ e. ne (e ∙ hr)))
        (shard_match _ _ (sym hr)) in
    elim (Bool-cases (committed req.id s.log)) [
      | inl before ↦ rw (before, sym both ∙ before)
      | inr new ↦ rw (new, sym both ∙ new) (omega (arith, debits, credits))
    ]
