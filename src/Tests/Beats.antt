-- ===== src/Tests/Beats.antt =====
-- A leader of term 2 and the follower that it brings up to date.
use raft_2pc_database.Prelude.{
  ℤ, false, undefined, zero, suc, pos, ok, true, [], ◌∷◌, ◌≡◌, refl, arith, int32, ◌+ℤ◌, ◌-ℤ◌,
}
use raft_2pc_database.Message.{AppendEntriesReq, AppendEntriesRsp}
use raft_2pc_database.RaftState
use raft_2pc_database.RaftState.{RaftState, Role, LogEntry, prevlogindex, prevlogterm}
use raft_2pc_database.AppendEntries.{
  answer, is_mismatch, hear_leader, accept_entries, replicate_log, merge_entries, commit_entries,
}
use raft_2pc_database.AppendEntries.Loops.{replicate_loops, replicate_loops-replicate_log}
use raft_2pc_database.Server.{heart_beat, entries_from, peer_id, div_cluster}
use raft_2pc_database.World.{World}
use raft_2pc_database.Tests.Inputs.{no_json, empty_disk}
use raft_2pc_database.AppendEntries.{execute_rsp, server_slot}
use raft_2pc_database.Server.Backoff.{Refuses, heart_beat-execute_rsp, heart_beat-resends}
use raft_2pc_database.Server.Replicate.{Beat, LogMatching, Follows, heart_beat-Follows}
use raft_2pc_database.Tests.Replications.{
  balances, behind, append_req, entry_at, first_pays, second_pays,
}

abbrev ahead : RaftState
ahead = record balances {
  role = Role.leader;
  log = entry_at (pos 1) (pos 0) first_pays ∷ entry_at (pos 2) (pos 1) second_pays ∷ [];
  matched_log_size = pos 1 ∷ pos 1 ∷ pos 1 ∷ [];
}

logs_match : LogMatching ahead.log behind.log
logs_match zero e f ha hb same = refl
logs_match (suc zero) e f ha hb same = absurd (ground (arith, ha, hb, same))
logs_match (suc (suc n)) e f ha hb same = cc

beat_and_answer :
    (req : AppendEntriesReq) × (t : RaftState) × (rsp : AppendEntriesRsp) × (heart_beat
        (pos 0)
        1
        ahead
      ≡ ok req)
    × (answer req behind ≡ ok (t, rsp))
    × (rsp.success ≡ true)
unfolding heart_beat prevlogindex prevlogterm entries_from peer_id div_cluster answer is_mismatch
    hear_leader accept_entries replicate_log merge_entries commit_entries RaftState.init int32 ◌+ℤ◌
    ◌-ℤ◌
beat_and_answer = (_, _, _, refl, refl, refl)

heart_beat-Follows_example : Follows ahead beat_and_answer.1
heart_beat-Follows_example =
    heart_beat-Follows (pos 0) 1 1 ahead behind refl (omega arith) (omega arith) (omega arith)
      logs_match beat_and_answer.3 beat_and_answer.4 beat_and_answer.5

replicate_loops-replicate_log_example :
    replicate_loops (pos 1) append_req.entries behind.log
    ≡ replicate_log (pos 1) append_req.entries behind.log
replicate_loops-replicate_log_example =
    replicate_loops-replicate_log 1 append_req.entries behind.log (omega arith) (omega arith)

-- The second server refuses.
abbrev refusal : AppendEntriesRsp
refusal = record { term = pos 2; success = false; server_id = pos 1 }

abbrev pub leading_from : ℤ → World
leading_from m = record {
  raft = record ahead { matched_log_size = m ∷ m ∷ m ∷ [] };
  calls = [];
  disk = empty_disk;
}

zero-Refuses : Refuses refusal (leading_from (pos 0)).raft 1 (pos 0)
unfolding server_slot
zero-Refuses = record { leads = refl; current = refl; refused = refl; slot = refl; matched = refl }

heart_beat-execute_rsp_example :
    (t : World) × (execute_rsp no_json (pos 9) refusal (leading_from (pos 0)) ≡ ok t)
    × (heart_beat (pos 0) 1 t.raft ≡ undefined)
heart_beat-execute_rsp_example =
    heart_beat-execute_rsp no_json (pos 9) (pos 0) refusal (leading_from (pos 0)) 1 zero-Refuses

two-Refuses : Refuses refusal (leading_from (pos 2)).raft 1 (pos 2)
unfolding server_slot
two-Refuses = record { leads = refl; current = refl; refused = refl; slot = refl; matched = refl }

heart_beat-resends_example :
    (t : World) × (req : AppendEntriesReq) × (execute_rsp no_json
        (pos 9)
        refusal
        (leading_from (pos 2))
      ≡ ok t)
    × (heart_beat (pos 0) 1 t.raft ≡ ok req)
    × Beat 1 1 t.raft req
    × (t.raft.log ≡ ahead.log)
heart_beat-resends_example =
    heart_beat-resends no_json (pos 9) (pos 0) refusal (leading_from (pos 2)) 1 1 two-Refuses
      (omega arith) (omega arith)
