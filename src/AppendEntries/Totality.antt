-- ===== src/AppendEntries/Totality.antt =====
-- When the answer of a follower is defined: no read out of bounds, and no variable that sscanf
-- leaves unset.
use raft_2pc_database.Prelude.{
  ℕ, zero, suc, ◌+◌, ◌≤◌, ◌<◌, ◌^◌, ℤ, pos, negsuc, minus_one, true, false, List, ◌++◌, map, length,
  take, drop, ◌≡◌, refl, arith, All, All-append, Bool-cases, inl, inr, eq_ℤ, leb_ℤ, ltb_ℤ, ◌≤ℤ◌,
  ◌<ℤ◌, ◌+ℤ◌, add_int, int32, rounds, ok, at, get_elem?_in_range, ◌⊎◌, +ℤ_parts, add_int-pos_one,
  int32_of_InRange,
}
use raft_2pc_database.Prelude.Table.{Table}
use raft_2pc_database.Message.{AppendEntriesReq, AppendEntriesRsp}
use raft_2pc_database.RaftState.{RaftState, LogEntry, log_size}
use raft_2pc_database.AppendEntries.Follower.{
  log_entry, merge_entries, replicate_log, accept_entries, is_mismatch, hear_leader, answer,
  commit_entries, append_rsp,
}
use raft_2pc_database.AppendEntries.Readable.{
  IsReadable, commit_entries-ok, All-take, All-drop, All-merge_entries, length-merge_entries,
  length-merge_entries-le, length-append, length-take, length-drop,
}

pub next_index :
    (z : ℤ) (bound : ℕ)
    → minus_one ≤ℤ z
    → z <ℤ pos bound
    → bound < 2 ^ 31
    → (n : ℕ) × (add_int z (pos 1) ≡ pos n) × (z <ℤ pos n) × (n ≤ bound)
unfolding int32 ◌+ℤ◌
next_index (pos k) bound ge lt small =
    (suc k, add_int-pos_one k (omega arith), omega arith, omega arith)
next_index (negsuc zero) bound ge lt small = (0, refl, omega arith, omega arith)
next_index (negsuc (suc k)) bound ge lt small = absurd (ground arith)

commit_rounds-ok :
    (n : ℕ) (hi : ℤ) (log : List LogEntry) (tb : Table ℤ)
    → hi <ℤ pos (length log)
    → length log < 2 ^ 31
    → All IsReadable log
    → (tb' : Table ℤ) × (commit_entries (rounds (pos n) hi) (pos n) log tb ≡ ok tb')
unfolding commit_entries
commit_rounds-ok n hi log tb lt small h = elim (Bool-cases (leb_ℤ (pos n) hi)) [
  | inl some_left ↦ commit_entries-ok (rounds (pos n) hi) n log tb (ground arith) small h
  | inr none_left ↦ let nothing : rounds (pos n) hi ≡ 0 = ground arith in rw nothing (tb, refl)
]

-- The log of the follower and the entries, in the bounds of int.
module _ (req : AppendEntriesReq) (s : RaftState) (base : ℕ) where
  merged : List LogEntry
  merged = take base s.log ++ merge_entries req.entries (drop base s.log)

  module _ (inside : base ≤ length s.log) where
    merged-long : base + length req.entries ≤ length merged
    unfolding merged
    merged-long = omega (
      arith,
      length-append (take base s.log) (merge_entries req.entries (drop base s.log)),
      length-take base s.log inside,
      length-merge_entries req.entries (drop base s.log),
    )

    merged-short : length merged ≤ base + length req.entries + length s.log
    unfolding merged
    merged-short = omega (
      arith,
      length-append (take base s.log) (merge_entries req.entries (drop base s.log)),
      length-take base s.log inside,
      length-merge_entries-le req.entries (drop base s.log),
      length-drop base s.log,
    )

  merged-All :
      All IsReadable s.log → All IsReadable (map log_entry req.entries) → All IsReadable merged
  unfolding merged
  merged-All old new =
      All-append IsReadable (take base s.log) (merge_entries req.entries (drop base s.log))
        (All-take base s.log old)
        (All-merge_entries req.entries (drop base s.log) new (All-drop base s.log old))

  accept_entries-ok :
      add_int req.prev_log_index (pos 1) ≡ pos base
      → base ≤ length s.log
      → length s.log + length s.log + length req.entries < 2 ^ 31
      → minus_one ≤ℤ s.commit_index
      → s.commit_index <ℤ pos (length s.log)
      → req.commit_index <ℤ pos (base + length req.entries)
      → All IsReadable s.log
      → All IsReadable (map log_entry req.entries)
      → (t : RaftState) × (accept_entries req s ≡ ok t)
  unfolding accept_entries replicate_log merged
  accept_entries-ok at_base inside small lo lo_lt hi old new =
      let (n, first, _, _) = next_index s.commit_index (length s.log) lo lo_lt (omega arith) in
      let (tb, done) =
        commit_rounds-ok n req.commit_index merged s.local_balance_tb
          (omega (arith, hi, merged-long inside)) (omega (arith, small, merged-short inside))
          (merged-All old new) in
      (
        record s { log = merged; local_balance_tb = tb; commit_index = req.commit_index },
        ground (arith, at_base, first, done),
      )

pub at-ok :
    (log : List LogEntry) (z : ℤ)
    → pos 0 ≤ℤ z
    → z <ℤ pos (length log)
    → (e : LogEntry) × (at log z ≡ ok e)
at-ok log (pos n) ge lt =
    let (e, found) = get_elem?_in_range log n (omega arith) in (e, rw found refl)
at-ok log (negsuc n) ge lt = absurd (ground arith)

pub log_size-pos : (s : RaftState) → length s.log < 2 ^ 31 → log_size s ≡ pos (length s.log)
log_size-pos s small = int32_of_InRange (pos (length s.log)) (small, omega arith)

-- The test of the previous entry is defined; where it is passed, the previous index is in the log.
is_mismatch-ok :
    (req : AppendEntriesReq) (s : RaftState)
    → length s.log < 2 ^ 31
    → (is_mismatch req s ≡ ok true)
      ⊎ ((is_mismatch req s ≡ ok false) × (req.prev_log_index <ℤ pos (length s.log)))
unfolding is_mismatch
is_mismatch-ok req s small =
    let size = log_size-pos s small in
    elim (Bool-cases (leb_ℤ (pos (length s.log)) req.prev_log_index)) [
      | inl short ↦ inl (ground (arith, size, short))
      | inr within ↦ elim (Bool-cases (leb_ℤ (pos 0) req.prev_log_index)) [
        | inl first ↦
            let (e, found) = at-ok s.log req.prev_log_index (ground arith) (ground arith) in
            elim (Bool-cases (eq_ℤ e.term req.prev_log_term)) [
              | inl same ↦ inr (ground (arith, size, within, found, same), ground arith)
              | inr other ↦ inl (ground (arith, size, within, found, other))
            ]
        | inr none_before ↦ inr (ground (arith, size, within, none_before), ground arith)
      ]
    ]

-- The second part of the answer, for a request that is not out of date.
accept_matching-ok :
    (req : AppendEntriesReq) (s : RaftState)
    → length s.log + length s.log + length req.entries < 2 ^ 31
    → minus_one ≤ℤ req.prev_log_index
    → req.prev_log_index <ℤ pos (length s.log)
    → minus_one ≤ℤ s.commit_index
    → s.commit_index <ℤ pos (length s.log)
    → req.commit_index ≤ℤ req.prev_log_index +ℤ pos (length req.entries)
    → All IsReadable s.log
    → All IsReadable (map log_entry req.entries)
    → (t : RaftState) × (accept_entries req s ≡ ok t)
accept_matching-ok req s small prev prev_lt lo lo_lt hi old new =
    let (base, at_base, above, inside) =
      next_index req.prev_log_index (length s.log) prev prev_lt (omega arith) in
    accept_entries-ok req s base at_base inside small lo lo_lt
      (omega (arith, hi, above, +ℤ_parts req.prev_log_index (pos (length req.entries)))) old new

-- A follower answers an AppendEntriesReq without a read out of bounds and without a variable
-- that sscanf leaves unset, if its commit index is at least -1 and in the log, the previous
-- index is at least -1, the leader's commit index lies within the entries it sends, every
-- command in the log and in the request is a cross-shard one or reads in full, and twice the log
-- with the entries is shorter than 2^31. Whether the balances stay in the range of int is not
-- part of it: a sum that leaves it wraps around.
pub answer-ok :
    (req : AppendEntriesReq) (s : RaftState)
    → length s.log + length s.log + length req.entries < 2 ^ 31
    → minus_one ≤ℤ req.prev_log_index
    → minus_one ≤ℤ s.commit_index
    → s.commit_index <ℤ pos (length s.log)
    → req.commit_index ≤ℤ req.prev_log_index +ℤ pos (length req.entries)
    → All IsReadable s.log
    → All IsReadable (map log_entry req.entries)
    → (s' : RaftState) × (rsp : AppendEntriesRsp) × (answer req s ≡ ok (s', rsp))
unfolding answer hear_leader
answer-ok req s small prev lo lo_lt hi old new = elim (Bool-cases (ltb_ℤ req.term s.current_term)) [
  | inl old_term ↦ (s, append_rsp req s false, ground (arith, old_term))
  | inr current ↦
      let s₁ = hear_leader req s in
      elim (is_mismatch-ok req s₁ (omega arith)) [
        | inl mismatch ↦ (s₁, append_rsp req s₁ false, ground (arith, current, mismatch))
        | inr (matching, prev_lt) ↦
            let (t, done) = accept_matching-ok req s₁ small prev prev_lt lo lo_lt hi old new in
            (t, append_rsp req t true, ground (arith, current, matching, done))
      ]
]
