-- ===== src/AppendEntries/Regress.antt =====
-- What a follower does when it hears of a commit index below its own.
use raft_2pc_database.Prelude.{
  add_int-pos_one, ℕ, suc, ◌<◌, ◌^◌, ℤ, pos, minus_one, List, [], length, get_elem?, true, ◌≡◌,
  refl, arith, ap, ◌∙◌, sym, ok, add_int, int32, int32_of_InRange, InRange, rounds, ◌+ℤ◌, some,
}
use raft_2pc_database.Prelude.Table.{Table}
use raft_2pc_database.Message.{AppendEntriesReq, AppendEntriesRsp}
use raft_2pc_database.Command.Format.{Fmt, pays}
use raft_2pc_database.Command.Scan.{scan_pays, is_cross_shard}
use raft_2pc_database.Command.RoundTrip.{scan_pays-pays, is_cross_shard-pays}
use raft_2pc_database.RaftState.{RaftState, LogEntry, log_size}
use raft_2pc_database.AppendEntries.Follower.{
  transfer, commit_entry, commit_entries, replicate_log, merge_entries, is_mismatch, hear_leader,
  accept_entries, answer, append_rsp,
}

-- A heart beat without entries.
abbrev pub heart_beat_req : RaftState → ℤ → AppendEntriesReq
heart_beat_req s commit_index = record {
  term = s.current_term;
  leader_id = pos 0;
  prev_log_index = minus_one;
  prev_log_term = minus_one;
  entries = [];
  commit_index = commit_index;
  server_id = s.server_id;
}

abbrev after_heart_beat : RaftState → Table ℤ → ℤ → RaftState
after_heart_beat s tb commit_index = record (hear_leader (heart_beat_req s commit_index) s) {
  local_balance_tb = tb;
  commit_index = commit_index;
}

no_entries_base : add_int minus_one (pos 1) ≡ pos 0
unfolding int32 ◌+ℤ◌
no_entries_base = refl

log_size-pos : (s : RaftState) → length s.log < 2 ^ 31 → log_size s ≡ pos (length s.log)
log_size-pos s small = int32_of_InRange (pos (length s.log)) (small, omega arith)

abbrev heart_beat_rsp : RaftState → ℤ → AppendEntriesRsp
heart_beat_rsp s c = append_rsp (heart_beat_req s c) (hear_leader (heart_beat_req s c) s) true

answer_heart_beat :
    (s : RaftState) (c : ℤ) (tb : Table ℤ)
    → commit_entries
        (rounds (add_int s.commit_index (pos 1)) c)
        (add_int s.commit_index (pos 1))
        s.log
        s.local_balance_tb
      ≡ ok tb
    → length s.log < 2 ^ 31
    → answer (heart_beat_req s c) s ≡ ok (after_heart_beat s tb c, heart_beat_rsp s c)
unfolding answer is_mismatch hear_leader accept_entries replicate_log merge_entries
answer_heart_beat s c tb h small = ground (arith, log_size-pos s small, no_entries_base)

no_rounds : (d : ℕ) → rounds (pos (suc (suc d))) (pos d) ≡ 0
no_rounds d = omega arith

one_round : (d : ℕ) → rounds (pos (suc d)) (pos (suc d)) ≡ 1
one_round d = omega arith

commit_entries-down :
    (d : ℕ) (log : List LogEntry) (tb : Table ℤ)
    → suc (suc d) < 2 ^ 31
    → commit_entries
        (rounds (add_int (pos (suc d)) (pos 1)) (pos d))
        (add_int (pos (suc d)) (pos 1))
        log
        tb
      ≡ ok tb
unfolding commit_entries
commit_entries-down d log tb small = rw (add_int-pos_one (suc d) small, no_rounds d)

commit_entries-up :
    (fmt : Fmt) (d : ℕ) (log : List LogEntry) (e : LogEntry) (tb : Table ℤ)
    (sender receiver amount : ℤ)
    → InRange sender
    → InRange receiver
    → InRange amount
    → suc (suc d) < 2 ^ 31
    → get_elem? log (suc d) ≡ some e
    → e.command ≡ pays fmt sender receiver amount
    → commit_entries
        (rounds (add_int (pos d) (pos 1)) (pos (suc d)))
        (add_int (pos d) (pos 1))
        log
        tb
      ≡ ok (transfer sender receiver amount tb)
unfolding commit_entries commit_entry
commit_entries-up fmt d log e tb sender receiver amount hs hr ha small found printed =
    let intra = ap is_cross_shard printed ∙ is_cross_shard-pays fmt sender receiver amount in
    let scanned = ap scan_pays printed ∙ scan_pays-pays fmt sender receiver amount hs hr ha in
    rw (add_int-pos_one d (omega arith), one_round d, found, intra, scanned)

-- A follower with commit index n > 0 that hears of commit index n - 1 and then of n again, in
-- two heart beats without entries, ends with the same log and commit index, but has applied the
-- intra-shard entry n another time. The log and the index are below 2^31, and the entry was
-- printed from three numbers in the range of int.
pub commit_regress_applies_twice :
    (fmt : Fmt) (s : RaftState) (e : LogEntry) (d : ℕ) (sender receiver amount : ℤ)
    → InRange sender
    → InRange receiver
    → InRange amount
    → length s.log < 2 ^ 31
    → suc (suc d) < 2 ^ 31
    → s.commit_index ≡ pos (suc d)
    → get_elem? s.log (suc d) ≡ some e
    → e.command ≡ pays fmt sender receiver amount
    → (s₁ s₂ : RaftState) × (rsp₁ rsp₂ : AppendEntriesRsp) × (answer (heart_beat_req s (pos d)) s
        ≡ ok (s₁, rsp₁))
      × (answer (heart_beat_req s₁ (pos (suc d))) s₁ ≡ ok (s₂, rsp₂))
      × (s₂.log ≡ s.log)
      × (s₂.commit_index ≡ s.commit_index)
      × (s₂.local_balance_tb ≡ transfer sender receiver amount s.local_balance_tb)
unfolding hear_leader
commit_regress_applies_twice fmt s e d sender receiver amount hs hr ha small_log small commit found
      printed =
    let tb = s.local_balance_tb in
    let s₁ = after_heart_beat s tb (pos d) in
    let down =
      ap (λ c. commit_entries (rounds (add_int c (pos 1)) (pos d)) (add_int c (pos 1)) s.log tb)
        commit
      ∙ commit_entries-down d s.log tb small in
    let up =
      commit_entries-up fmt d s.log e tb sender receiver amount hs hr ha small found printed in
    (
      s₁,
      after_heart_beat s₁ (transfer sender receiver amount tb) (pos (suc d)),
      heart_beat_rsp s (pos d),
      heart_beat_rsp s₁ (pos (suc d)),
      answer_heart_beat s (pos d) tb down small_log,
      answer_heart_beat s₁ (pos (suc d)) _ up small_log,
      refl,
      sym commit,
      refl,
    )
