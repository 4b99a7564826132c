-- ===== src/CrossShard/Requests.antt =====
-- What a request adds to the log of a leader (IntraShardExecutor, CrossShardExecutor): at most one
-- entry, which the commit loop can finish, and whose index is its position.
use raft_2pc_database.Prelude.{
  ℤ, [], ◌∷◌, ◌++◌, Bool-cases, inl, inr, ◌≡◌, refl, ap, arith, InRange,
}
use raft_2pc_database.Message.{CrossShardReq, CrossShardPhaseType, IntraShardReq}
use raft_2pc_database.Command.Format.{Fmt, prepare_pays, commit_pays, abort_pays}
use raft_2pc_database.Command.Scan.{is_cross_shard, is_prepare}
use raft_2pc_database.Command.RoundTrip.{
  is_cross_shard-pays, scan_pays-pays, scan_prepare_pays-prepare_pays,
}
use raft_2pc_database.DataShard.{Json, update_shard, update_data_shard}
use raft_2pc_database.RaftState.{RaftState}
use raft_2pc_database.World.{World, with_raft}
use raft_2pc_database.AppendEntries.Finishing.{is_read, CanFinish}
use raft_2pc_database.IntraShard
use raft_2pc_database.IntraShard.{new_entry}
use raft_2pc_database.CrossShard.{
  execute_prepare, execute_commit, execute_abort, execute_req, touch_tables, touch_sender,
  prepare_entry, decision_entry, commit_entry, abort_entry, append_entry, lock_items, move_money,
  apply_commit, is_refused, prepared_or_aborted, committed, aborted,
}
use raft_2pc_database.CrossShard.Growth.{
  Grown, SameLog, same_state, SameLog-Grown, SameLog-trans, log_size-same, appended-Grown,
}

-- The three numbers of a request are numbers of type int.
abbrev pub InRanges : ℤ → ℤ → ℤ → Type 0
InRanges sender receiver amount = InRange sender × InRange receiver × InRange amount

locked : (req : CrossShardReq) (s : RaftState) → SameLog s (lock_items req s)
unfolding lock_items
locked req s = record {
  same_matched = refl;
  same_commit = refl;
  same_coming = refl;
  same_log = refl;
}

moved : (req : CrossShardReq) (s : RaftState) → SameLog s (move_money req s)
unfolding move_money
moved req s = record {
  same_matched = refl;
  same_commit = refl;
  same_coming = refl;
  same_log = refl;
}

intra_touched : (req : IntraShardReq) (s : RaftState) → SameLog s (IntraShard.touch_tables req s)
unfolding IntraShard.touch_tables
intra_touched req s = record {
  same_matched = ground arith;
  same_commit = ground arith;
  same_coming = ground arith;
  same_log = ground arith;
}

cross_touched : (req : CrossShardReq) (s : RaftState) → SameLog s (touch_tables req s)
unfolding touch_tables touch_sender
cross_touched req s = record {
  same_matched = ground arith;
  same_commit = ground arith;
  same_coming = ground arith;
  same_log = ground arith;
}

updated : (json : Json) (w : World) → SameLog w.raft (update_shard json w).raft
unfolding update_shard update_data_shard
updated json w = record {
  same_matched = ground arith;
  same_commit = ground arith;
  same_coming = ground arith;
  same_log = ground arith;
}

module _ (fmt : Fmt) (json : Json) (fd : ℤ) where
  new_entry-CanFinish :
      (req : IntraShardReq) (s : RaftState)
      → InRanges req.sender_id req.receiver_id req.amount
      → CanFinish (new_entry fmt fd req s)
  unfolding new_entry
  new_entry-CanFinish req s (hs, hr, ha) =
      rw
        (
          is_cross_shard-pays fmt req.sender_id req.receiver_id req.amount,
          scan_pays-pays fmt req.sender_id req.receiver_id req.amount hs hr ha,
        )
        refl

  prepare_entry-CanFinish :
      (req : CrossShardReq) (s : RaftState)
      → InRanges req.sender_id req.receiver_id req.amount
      → CanFinish (prepare_entry fmt json fd req s)
  unfolding prepare_entry is_cross_shard is_prepare prepare_pays
  prepare_entry-CanFinish req s (hs, hr, ha) =
      let read =
        scan_prepare_pays-prepare_pays fmt req.sender_id req.receiver_id req.amount hs hr ha in
      ap is_read read

  commit_entry-CanFinish :
      (req : CrossShardReq) (s : RaftState) → CanFinish (commit_entry fmt json req s)
  unfolding decision_entry is_cross_shard is_prepare commit_pays
  commit_entry-CanFinish req s = refl

  abort_entry-CanFinish :
      (req : CrossShardReq) (s : RaftState) → CanFinish (abort_entry fmt json req s)
  unfolding decision_entry is_cross_shard is_prepare abort_pays
  abort_entry-CanFinish req s = refl

  pub intra-Grown :
      (req : IntraShardReq) (w : World)
      → InRanges req.sender_id req.receiver_id req.amount
      → Grown w.raft (IntraShard.execute_req fmt fd req w).raft
  unfolding IntraShard.execute_req IntraShard.accept append_entry new_entry
  intra-Grown req w range =
      let s = IntraShard.touch_tables req w.raft in
      let touched = intra_touched req w.raft in
      let same = SameLog-Grown touched in
      let e = new_entry fmt fd req s in
      let p = new_entry-CanFinish req s range in
      elim (Bool-cases (IntraShard.is_refused req w.raft)) [
        | inl refused ↦ rw (refused, IntraShard.execute_req) same
        | inr free ↦ elim (Bool-cases (IntraShard.id_exists req.id s.log)) [
          | inl known ↦ rw (free, known, IntraShard.execute_req) same
          | inr new ↦
              rw (free, new, IntraShard.execute_req)
                (record {
                  same_matched = touched.same_matched;
                  same_commit = touched.same_commit;
                  same_coming = touched.same_coming;
                  log = inr (
                    e,
                    ap (λ log. log ++ (e ∷ [])) touched.same_log,
                    p,
                    log_size-same w.raft s touched.same_log,
                  );
                })
        ]
      ]

  prepare-Grown :
      (req : CrossShardReq) (w : World)
      → InRanges req.sender_id req.receiver_id req.amount
      → Grown w.raft (execute_prepare fmt json fd req w).raft
  unfolding execute_prepare lock_items prepare_entry
  prepare-Grown req w range =
      let s = touch_tables req w.raft in
      let touched = cross_touched req w.raft in
      let same = SameLog-Grown touched in
      let e = prepare_entry fmt json fd req s in
      let p = prepare_entry-CanFinish req s range in
      elim (Bool-cases (is_refused req w.raft)) [
        | inl refused ↦ rw (refused, execute_prepare) same
        | inr free ↦ elim (Bool-cases (prepared_or_aborted req.id s.log)) [
          | inl known ↦ rw (free, known, execute_prepare) same
          | inr new ↦
              rw (free, new, execute_prepare)
                (appended-Grown e touched p refl (locked req (append_entry e s)))
        ]
      ]

  commit-Grown :
      (req : CrossShardReq) (w : World) → Grown w.raft (execute_commit fmt json fd req w).raft
  unfolding execute_commit apply_commit move_money append_entry decision_entry
  commit-Grown req w = elim (Bool-cases (committed req.id w.raft.log)) [
    | inl before ↦ rw (before, execute_commit) (SameLog-Grown (same_state w.raft))
    | inr new ↦
        let e = commit_entry fmt json req w.raft in
        let s = move_money req (append_entry e w.raft) in
        rw (new, execute_commit)
          (appended-Grown e (same_state w.raft) (commit_entry-CanFinish req w.raft) refl
            (SameLog-trans (moved req (append_entry e w.raft)) (updated json (with_raft s w))))
  ]

  abort-Grown :
      (req : CrossShardReq) (w : World) → Grown w.raft (execute_abort fmt json fd req w).raft
  unfolding execute_abort decision_entry
  abort-Grown req w = elim (Bool-cases (aborted req.id w.raft.log)) [
    | inl before ↦ rw (before, execute_abort) (SameLog-Grown (same_state w.raft))
    | inr new ↦
        let e = abort_entry fmt json req w.raft in
        rw (new, execute_abort)
          (appended-Grown e (same_state w.raft) (abort_entry-CanFinish req w.raft) refl
            (same_state (append_entry e w.raft)))
  ]

  pub cross-Grown :
      (req : CrossShardReq) (w : World)
      → InRanges req.sender_id req.receiver_id req.amount
      → Grown w.raft (execute_req fmt json fd req w).raft
  unfolding execute_req
  cross-Grown req w range = by_phase req.phase refl
    where
      by_phase :
          (p : CrossShardPhaseType)
          → req.phase ≡ p
          → Grown w.raft (execute_req fmt json fd req w).raft
      by_phase CrossShardPhaseType.prepare e = rw (e, execute_req) (prepare-Grown req w range)
      by_phase CrossShardPhaseType.commit e = rw (e, execute_req) (commit-Grown req w)
      by_phase CrossShardPhaseType.abort e = rw (e, execute_req) (abort-Grown req w)
      by_phase (CrossShardPhaseType.other x) e = rw (e, execute_req) (abort-Grown req w)
