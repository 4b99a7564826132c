-- ===== src/AppendEntries/Ready.antt =====
-- A leader that can take any answer of a follower (`executeRsp`), and what keeps it so.
use raft_2pc_database.Prelude.{◌<◌, ◌^◌, pos, minus_one, length, All, ◌≡◌, ap, ◌∙◌, ◌≤ℤ◌, ◌<ℤ◌}
use raft_2pc_database.RaftState.{RaftState}
use raft_2pc_database.World.{World}
use raft_2pc_database.AppendEntries.Indices.{IndexedFrom}
use raft_2pc_database.AppendEntries.Finishing.{CanFinish, Finished}

-- A state on which a leader can take any answer.
pub record IsReady (s : RaftState) : Type 0 where
  pub slots : length s.matched_log_size ≡ 3
  pub short : length s.log < 2 ^ 31
  pub commit_from : minus_one ≤ℤ s.commit_index
  pub commit_inside : s.commit_index <ℤ pos (length s.log)
  pub coming_inside : s.coming_commit_index <ℤ pos (length s.log)
  pub can_finish : All CanFinish s.log

-- What each piece of the handler gives: a ready state, with as many entries as before, whose
-- indices are their positions if they were before.
pub record StaysReady (w t : World) : Type 0 where
  pub ready : IsReady t.raft
  pub same_length : length t.raft.log ≡ length w.raft.log
  pub placed : IndexedFrom 0 w.raft.log → IndexedFrom 0 t.raft.log

pub StaysReady-trans : {w t u : World} → StaysReady w t → StaysReady t u → StaysReady w u
StaysReady-trans a b = record {
  ready = b.ready;
  same_length = b.same_length ∙ a.same_length;
  placed = λ h. b.placed (a.placed h);
}

-- Nothing has happened to the log.
pub same-StaysReady : (w t : World) → t.raft.log ≡ w.raft.log → IsReady t.raft → StaysReady w t
same-StaysReady w t log h = record {
  ready = h;
  same_length = ap length log;
  placed = λ placed. rw log placed;
}

pub same-IsReady :
    (s t : RaftState)
    → t.matched_log_size ≡ s.matched_log_size
    → t.log ≡ s.log
    → t.commit_index ≡ s.commit_index
    → t.coming_commit_index ≡ s.coming_commit_index
    → IsReady s
    → IsReady t
same-IsReady s t matched log commit coming h = record {
  slots = ap length matched ∙ h.slots;
  short = rw log h.short;
  commit_from = rw commit h.commit_from;
  commit_inside = rw (log, commit) h.commit_inside;
  coming_inside = rw (log, coming) h.coming_inside;
  can_finish = rw log h.can_finish;
}

pub Finished-StaysReady : (w t : World) → Finished w t → IsReady w.raft → StaysReady w t
Finished-StaysReady w t f h = record {
  ready = record {
    slots = ap length f.same_matched ∙ h.slots;
    short = rw f.same_length h.short;
    commit_from = rw f.same_commit h.commit_from;
    commit_inside = rw (f.same_length, f.same_commit) h.commit_inside;
    coming_inside = rw (f.same_length, f.same_coming) h.coming_inside;
    can_finish = f.still h.can_finish;
  };
  same_length = f.same_length;
  placed = f.placed;
}
