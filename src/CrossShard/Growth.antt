-- ===== src/CrossShard/Growth.antt =====
-- The log of a leader that has grown by at most one entry, which the commit loop can finish, and
-- whose index is its position.
use raft_2pc_database.Prelude.{
  suc, ◌+◌, pos, int32, ◌≤◌, ◌<◌, ◌^◌, [], ◌∷◌, ◌++◌, length, length-append, All-append, inl, inr,
  ◌⊎◌, ◌≡◌, refl, ap, ◌∙◌, arith,
}
use raft_2pc_database.RaftState.{RaftState, LogEntry, log_size}
use raft_2pc_database.AppendEntries.Totality.{log_size-pos}
use raft_2pc_database.AppendEntries.Indices.{IndexedFrom, IndexedFrom-append}
use raft_2pc_database.AppendEntries.Finishing.{CanFinish}
use raft_2pc_database.AppendEntries.Ready.{IsReady, same-IsReady}
use raft_2pc_database.CrossShard.{append_entry}

-- The log has grown by at most one entry, which can be finished and has the size as its index.
pub record Grown (s t : RaftState) : Type 0 where
  pub same_matched : t.matched_log_size ≡ s.matched_log_size
  pub same_commit : t.commit_index ≡ s.commit_index
  pub same_coming : t.coming_commit_index ≡ s.coming_commit_index
  pub log :
      (t.log ≡ s.log)
      ⊎ ((e : LogEntry) × (t.log ≡ s.log ++ (e ∷ [])) × CanFinish e × (e.index ≡ log_size s))

pub Grown-IsReady :
    (s t : RaftState)
    → suc (length s.log) < 2 ^ 31
    → Grown s t
    → IsReady s
    → IsReady t × (length t.log ≤ suc (length s.log))
Grown-IsReady s t room g h = elim g.log [
  | inl same ↦ (
    same-IsReady s t g.same_matched same g.same_commit g.same_coming h,
    omega (arith, ap length same),
  )
  | inr (e, more, p, _) ↦
      let size : length t.log ≡ suc (length s.log) =
        omega (arith, ap length more, length-append s.log (e ∷ [])) in
      (
        record {
          slots = ap length g.same_matched ∙ h.slots;
          short = omega (arith, size);
          commit_from = rw g.same_commit h.commit_from;
          commit_inside = rw g.same_commit (omega (arith, size, h.commit_inside));
          coming_inside = rw g.same_coming (omega (arith, size, h.coming_inside));
          can_finish = rw more (All-append CanFinish s.log (e ∷ []) h.can_finish (p, tt));
        },
        omega (arith, size),
      )
]

pub Grown-IndexedFrom :
    (s t : RaftState)
    → length s.log < 2 ^ 31
    → Grown s t
    → IndexedFrom 0 s.log
    → IndexedFrom 0 t.log
Grown-IndexedFrom s t small g h = elim g.log [
  | inl same ↦ rw same h
  | inr (e, more, _, index) ↦
      let size : 0 + length s.log ≡ length s.log = omega arith in
      let last : e.index ≡ pos (0 + length s.log) = rw size (index ∙ log_size-pos s small) in
      rw more (IndexedFrom-append 0 s.log (e ∷ []) h (last, tt))
]

-- Only tables and what no test of the leader reads have changed.
pub record SameLog (s t : RaftState) : Type 0 where
  pub same_matched : t.matched_log_size ≡ s.matched_log_size
  pub same_commit : t.commit_index ≡ s.commit_index
  pub same_coming : t.coming_commit_index ≡ s.coming_commit_index
  pub same_log : t.log ≡ s.log

pub same_state : (s : RaftState) → SameLog s s
same_state s = record {
  same_matched = refl;
  same_commit = refl;
  same_coming = refl;
  same_log = refl;
}

pub SameLog-Grown : {s t : RaftState} → SameLog s t → Grown s t
SameLog-Grown h = record {
  same_matched = h.same_matched;
  same_commit = h.same_commit;
  same_coming = h.same_coming;
  log = inl h.same_log;
}

pub SameLog-trans : {s t u : RaftState} → SameLog s t → SameLog t u → SameLog s u
SameLog-trans a b = record {
  same_matched = b.same_matched ∙ a.same_matched;
  same_commit = b.same_commit ∙ a.same_commit;
  same_coming = b.same_coming ∙ a.same_coming;
  same_log = b.same_log ∙ a.same_log;
}

pub log_size-same : (s t : RaftState) → t.log ≡ s.log → log_size t ≡ log_size s
log_size-same s t same = ap (λ log. int32 (pos (length log))) same

-- An entry behind a log that is the same, and then only tables change.
pub appended-Grown :
    {s t u : RaftState} (e : LogEntry)
    → SameLog s t
    → CanFinish e
    → e.index ≡ log_size t
    → SameLog (append_entry e t) u
    → Grown s u
unfolding append_entry
appended-Grown {s} {t} e a p index b = record {
  same_matched = b.same_matched ∙ a.same_matched;
  same_commit = b.same_commit ∙ a.same_commit;
  same_coming = b.same_coming ∙ a.same_coming;
  log = inr (
    e,
    b.same_log ∙ ap (λ log. log ++ (e ∷ [])) a.same_log,
    p,
    index ∙ log_size-same s t a.same_log,
  );
}
