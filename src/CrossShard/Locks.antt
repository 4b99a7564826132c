-- ===== src/CrossShard/Locks.antt =====
-- What a prepare request locks on a shard (CrossShardExecutor::executeReq), and whom that keeps out.
use raft_2pc_database.Prelude.{
  ℤ, pos, true, false, ◌≡◌, ◌⊎◌, refl, arith, ◌<ℤ◌, [], ◌∷◌, ◌++◌, eq_ℤ, ◌&&◌, ◌||◌,
}
use raft_2pc_database.Prelude.Table.{insert, value-touch, value-insert}
use raft_2pc_database.Message.{CrossShardReq, CrossShardResultType}
use raft_2pc_database.Command.Format.{Fmt}
use raft_2pc_database.DataShard.{Json}
use raft_2pc_database.RaftState.{RaftState}
use raft_2pc_database.World.{World, respond, with_raft}
use raft_2pc_database.IntraShard.Admission.{locked, balance, SameItems}
use raft_2pc_database.CrossShard.{
  holds_sender, holds_receiver, sender_refused, is_refused, touch_sender, touch_tables,
  prepared_or_aborted, prepare_entry, lock_items, append_entry, rsp, execute_prepare,
}

-- An item of this shard is locked, the balance is short, or the transaction is known.
abbrev pub RefusedPrepare : CrossShardReq → RaftState → Type 0
RefusedPrepare req s =
    ((holds_sender req s ≡ true)
      × ((locked req.sender_id s ≡ true) ⊎ (balance req.sender_id s <ℤ req.amount)))
    ⊎ ((holds_receiver req s ≡ true) × (locked req.receiver_id s ≡ true))
    ⊎ (prepared_or_aborted req.id s.log ≡ true)

-- The item is one of the request's two, and in this shard.
abbrev pub Held : CrossShardReq → RaftState → ℤ → Type 0
Held req s k =
    ((holds_sender req s ≡ true) × (k ≡ req.sender_id))
    ⊎ ((holds_receiver req s ≡ true) × (k ≡ req.receiver_id))

touch_sender-SameItems : (req : CrossShardReq) (s : RaftState) → SameItems s (touch_sender req s)
unfolding touch_sender
touch_sender-SameItems req s = record {
  same_log = ground arith;
  same_term = ground arith;
  same_locks = λ k. ground (arith, value-touch false k req.sender_id s.local_lock);
  same_balances = λ k. ground (arith, value-touch (pos 0) k req.sender_id s.local_balance_tb);
}

touch_tables-SameItems : (req : CrossShardReq) (s : RaftState) → SameItems s (touch_tables req s)
unfolding touch_tables
touch_tables-SameItems req s =
    let h = touch_sender-SameItems req s in
    let touched = (touch_sender req s).local_lock in
    record {
      same_log = ground (arith, h.same_log);
      same_term = ground (arith, h.same_term);
      same_locks = λ k. ground (arith, h.same_locks k, value-touch false k req.receiver_id touched);
      same_balances = λ k. ground (arith, h.same_balances k);
    }

touch_tables-cluster :
    (req : CrossShardReq) (s : RaftState) → (touch_tables req s).cluster_id ≡ s.cluster_id
unfolding touch_tables touch_sender
touch_tables-cluster req s = ground arith

lock_items-locked :
    (req : CrossShardReq) (s : RaftState) (k : ℤ)
    → locked k (lock_items req s) ≡ (
        holds_sender req s && eq_ℤ k req.sender_id
        || (holds_receiver req s && eq_ℤ k req.receiver_id || locked k s))
unfolding lock_items
lock_items-locked req s k = ground (
  arith,
  value-insert false k req.sender_id true s.local_lock,
  value-insert false k req.receiver_id true s.local_lock,
  value-insert false k req.receiver_id true (insert req.sender_id true s.local_lock),
)

-- A request that is refused is answered with NO, and changes no lock, balance or entry.
execute_prepare-refuses :
    (fmt : Fmt) (json : Json) (fd : ℤ) (req : CrossShardReq) (w : World)
    → RefusedPrepare req w.raft
    → let w' = execute_prepare fmt json fd req w in
      SameItems w.raft w'.raft
      × (w'.calls ≡ (respond fd (rsp CrossShardResultType.no_vote req) w).calls)
unfolding execute_prepare is_refused sender_refused
execute_prepare-refuses fmt json fd req w refused =
    let same = touch_tables-SameItems req w.raft in ground (arith, refused, same, same.same_log)

module _ (fmt : Fmt) (json : Json) (fd : ℤ) (req : CrossShardReq) (w : World)
    (accepted : ¬ RefusedPrepare req w.raft) where
  taken : RaftState
  taken =
      let s = touch_tables req w.raft in
      lock_items req (append_entry (prepare_entry fmt json fd req s) s)

  execute_prepare-taken : execute_prepare fmt json fd req w ≡ with_raft taken w
  unfolding execute_prepare taken is_refused sender_refused
  execute_prepare-taken =
      let same = touch_tables-SameItems req w.raft in ground (arith, accepted, same.same_log)

  taken-locked :
      (k : ℤ)
      → locked k taken ≡ (
          holds_sender req w.raft && eq_ℤ k req.sender_id
          || (holds_receiver req w.raft && eq_ℤ k req.receiver_id || locked k w.raft))
  unfolding taken append_entry
  taken-locked k =
      let s = touch_tables req w.raft in
      let same = touch_tables-SameItems req w.raft in
      ground (
        arith,
        lock_items-locked req (append_entry (prepare_entry fmt json fd req s) s) k,
        touch_tables-cluster req w.raft,
        same.same_locks k,
      )

  taken-balance : (k : ℤ) → balance k taken ≡ balance k w.raft
  unfolding taken lock_items append_entry
  taken-balance k = (touch_tables-SameItems req w.raft).same_balances k

  taken-log : taken.log ≡ w.raft.log ++ (prepare_entry fmt json fd req w.raft ∷ [])
  unfolding taken lock_items append_entry prepare_entry
  taken-log =
      let same = touch_tables-SameItems req w.raft in ground (arith, same.same_log, same.same_term)

  -- A PREPARE whose items in this shard are not locked, whose sender has enough balance where it
  -- is in this shard, and whose id has no PREPARE or ABORT in the log is appended to the log,
  -- without a response yet; it locks exactly those of its two items that are in this shard, and
  -- changes no balance.
  pub execute_prepare-accepts :
      let w' = execute_prepare fmt json fd req w in
      (w'.raft.log ≡ w.raft.log ++ (prepare_entry fmt json fd req w.raft ∷ []))
      × (w'.calls ≡ w.calls)
      × ((k : ℤ)
          → locked k w'.raft ≡ (
              holds_sender req w.raft && eq_ℤ k req.sender_id
              || (holds_receiver req w.raft && eq_ℤ k req.receiver_id || locked k w.raft)))
      × ((k : ℤ) → balance k w'.raft ≡ balance k w.raft)
  execute_prepare-accepts = rw execute_prepare-taken (taken-log, refl, taken-locked, taken-balance)
