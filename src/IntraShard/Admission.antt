-- ===== src/IntraShard/Admission.antt =====
-- Which intra-shard requests the leader takes into its log, and what that locks.
use raft_2pc_database.Prelude.{
  ℤ, pos, Bool, true, false, ◌≡◌, ◌⊎◌, arith, ◌<ℤ◌, [], ◌∷◌, ◌++◌, eq_ℤ, ◌||◌,
}
use raft_2pc_database.Prelude.Table.{value, touch, insert, value-touch, value-insert}
use raft_2pc_database.Message.{IntraShardReq}
use raft_2pc_database.Command.Format.{Fmt}
use raft_2pc_database.RaftState.{RaftState}
use raft_2pc_database.World.{World}
use raft_2pc_database.IntraShard.{touch_tables, id_exists, new_entry, execute_req}

abbrev pub locked : ℤ → RaftState → Bool
locked k s = value false k s.local_lock

abbrev pub balance : ℤ → RaftState → ℤ
balance k s = value (pos 0) k s.local_balance_tb

-- An item is locked, the balance is short, or the id is in use.
abbrev pub Refused : IntraShardReq → RaftState → Type 0
Refused req s =
    (locked req.sender_id s ≡ true)
    ⊎ (locked req.receiver_id s ≡ true)
    ⊎ (balance req.sender_id s <ℤ req.amount)
    ⊎ (id_exists req.id s.log ≡ true)

-- Two states that agree on the log, the locks and the balances of all items.
pub record SameItems (s t : RaftState) : Type 0 where
  pub same_log : t.log ≡ s.log
  pub same_term : t.current_term ≡ s.current_term
  pub same_locks : (k : ℤ) → locked k t ≡ locked k s
  pub same_balances : (k : ℤ) → balance k t ≡ balance k s

-- Reading the tables in the test changes no lock and no balance.
pub touch_tables-SameItems :
    (req : IntraShardReq) (s : RaftState) → SameItems s (touch_tables req s)
unfolding touch_tables
touch_tables-SameItems req s = record {
  same_log = ground arith;
  same_term = ground arith;
  same_locks = λ k. ground (
    arith,
    value-touch false k req.sender_id s.local_lock,
    value-touch false k req.receiver_id (touch false req.sender_id s.local_lock),
  );
  same_balances = λ k. ground (arith, value-touch (pos 0) k req.sender_id s.local_balance_tb);
}

new_entry_same :
    (fmt : Fmt) (fd : ℤ) (req : IntraShardReq) {s t : RaftState}
    → SameItems s t
    → new_entry fmt fd req t ≡ new_entry fmt fd req s
unfolding new_entry
new_entry_same fmt fd req same = ground (arith, same)

module _ (fmt : Fmt) (fd : ℤ) (req : IntraShardReq) (w : World) where
  -- An intra-shard request whose items are not locked, whose balance is enough and whose id is
  -- new is appended to the log, without a response yet; it locks its two items and no other, and
  -- changes no balance.
  pub execute_req-accepts :
      ¬ Refused req w.raft
      → let w' = execute_req fmt fd req w in
        (w'.raft.log ≡ w.raft.log ++ (new_entry fmt fd req w.raft ∷ []))
        × (w'.calls ≡ w.calls)
        × ((k : ℤ)
            → locked k w'.raft
              ≡ (eq_ℤ k req.sender_id || eq_ℤ k req.receiver_id || locked k w.raft))
        × ((k : ℤ) → balance k w'.raft ≡ balance k w.raft)
  unfolding execute_req
  execute_req-accepts accepted =
      let t = touch_tables-SameItems req w.raft in
      (
        ground (arith, t, new_entry_same fmt fd req t),
        ground (arith, t),
        λ k. ground (
          arith,
          t,
          t.same_locks k,
          value-insert false k req.receiver_id true
              (insert req.sender_id true (touch_tables req w.raft).local_lock),
          value-insert false k req.sender_id true (touch_tables req w.raft).local_lock,
        ),
        λ k. ground (arith, t, t.same_balances k),
      )

-- Two requests that share an item, or have the same id.
abbrev pub Conflicts : IntraShardReq → IntraShardReq → Type 0
Conflicts a b =
    (b.sender_id ≡ a.sender_id)
    ⊎ (b.sender_id ≡ a.receiver_id)
    ⊎ (b.receiver_id ≡ a.sender_id)
    ⊎ (b.receiver_id ≡ a.receiver_id)
    ⊎ (b.id ≡ a.id)
