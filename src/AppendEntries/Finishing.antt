-- ===== src/AppendEntries/Finishing.antt =====
-- The commit loop of a leader (`executeRsp`) over a log whose commands can be read.
use raft_2pc_database.Prelude.{
  ℕ, zero, suc, ◌+◌, ◌≤◌, ◌<◌, ◌^◌, ℤ, pos, Bool, true, false, List, length, length-set, set, All,
  get_elem?, get_elem?-All, All-set, Option, none, some, Option-cases, Bool-cases, inl, inr, ◌≡◌,
  refl, ◌∙◌, arith, eq_ℤ, minus_one, if◌then◌else◌, ok, add_int-pos_one,
}
use raft_2pc_database.Prelude.Table.{Table}
use raft_2pc_database.Command.Scan.{scan_pays, scan_prepare_pays, is_cross_shard, is_prepare}
use raft_2pc_database.Message.{WrapperMessage}
use raft_2pc_database.RaftState.{LogEntry}
use raft_2pc_database.World.{World, with_raft}
use raft_2pc_database.AppendEntries.Indices.{IndexedFrom, IndexedFrom-set}
use raft_2pc_database.AppendEntries.Leader.{
  respond_waiting, finish_prepare, finish_intra, finish_entry, finish_entries,
}

abbrev pub is_read : Option (ℤ × ℤ × ℤ) → Bool
is_read none = false
is_read (some r) = true

-- What the leader scans reads in full.
abbrev can_finish : LogEntry → Bool
can_finish e =
    if is_cross_shard e.command
    then if is_prepare e.command then is_read (scan_prepare_pays e.command) else true
    else is_read (scan_pays e.command)

abbrev pub CanFinish : LogEntry → Type 0
CanFinish e = can_finish e ≡ true

-- The log has the same length and can still be finished; no index has changed.
pub record Finished (w t : World) : Type 0 where
  pub same_length : length t.raft.log ≡ length w.raft.log
  pub still : All CanFinish w.raft.log → All CanFinish t.raft.log
  pub placed : IndexedFrom 0 w.raft.log → IndexedFrom 0 t.raft.log
  pub same_matched : t.raft.matched_log_size ≡ w.raft.matched_log_size
  pub same_coming : t.raft.coming_commit_index ≡ w.raft.coming_commit_index
  pub same_commit : t.raft.commit_index ≡ w.raft.commit_index

Finished-trans : {w t u : World} → Finished w t → Finished t u → Finished w u
Finished-trans a b = record {
  same_length = b.same_length ∙ a.same_length;
  still = λ h. b.still (a.still h);
  placed = λ h. b.placed (a.placed h);
  same_matched = b.same_matched ∙ a.same_matched;
  same_coming = b.same_coming ∙ a.same_coming;
  same_commit = b.same_commit ∙ a.same_commit;
}

-- Only the log and the tables of the state change.
log-Finished :
    (w : World) (log : List LogEntry) (tb : Table ℤ) (locks : Table Bool)
    → length log ≡ length w.raft.log
    → (All CanFinish w.raft.log → All CanFinish log)
    → (IndexedFrom 0 w.raft.log → IndexedFrom 0 log)
    → Finished w
        (with_raft (record w.raft { log = log; local_balance_tb = tb; local_lock = locks }) w)
log-Finished w log tb locks same still placed = record {
  same_length = same;
  still = still;
  placed = placed;
  same_matched = refl;
  same_coming = refl;
  same_commit = refl;
}

respond_waiting-Finished :
    (idx : ℕ) (e : LogEntry) (msg : WrapperMessage) (w : World)
    → get_elem? w.raft.log idx ≡ some e
    → CanFinish e
    → Finished w (respond_waiting idx e msg w)
unfolding respond_waiting
respond_waiting-Finished idx e msg w there p = elim (Bool-cases (eq_ℤ e.req_fd minus_one)) [
  | inl gone ↦ rw (gone, respond_waiting) (log-Finished w w.raft.log _ _ refl (λ h. h) (λ h. h))
  | inr waits ↦
      let e' = record e { req_fd = minus_one } in
      let h =
        log-Finished w (set w.raft.log idx e') w.raft.local_balance_tb w.raft.local_lock
          (length-set w.raft.log idx e') (All-set CanFinish w.raft.log idx e' p)
          (IndexedFrom-set 0 idx w.raft.log e e' there refl) in
      rw (waits, respond_waiting)
        (record {
          same_length = h.same_length;
          still = h.still;
          placed = h.placed;
          same_matched = h.same_matched;
          same_coming = h.same_coming;
          same_commit = h.same_commit;
        })
]

-- The tables change, and the client is answered.
answered-Finished :
    (idx : ℕ) (e : LogEntry) (msg : WrapperMessage) (w : World) (tb : Table ℤ) (locks : Table Bool)
    → get_elem? w.raft.log idx ≡ some e
    → CanFinish e
    → Finished w (
        respond_waiting idx e msg
          (with_raft (record w.raft { local_balance_tb = tb; local_lock = locks }) w))
answered-Finished idx e msg w tb locks there p =
    Finished-trans (log-Finished w w.raft.log tb locks refl (λ h. h) (λ h. h))
      (respond_waiting-Finished idx e msg _ there p)

finish_prepare-Finished :
    (idx : ℕ) (e : LogEntry) (w : World) {r : ℤ × ℤ × ℤ}
    → get_elem? w.raft.log idx ≡ some e
    → scan_prepare_pays e.command ≡ some r
    → CanFinish e
    → (t : World) × (finish_prepare idx e w ≡ ok t) × Finished w t
unfolding finish_prepare
finish_prepare-Finished idx e w there read p =
    rw (read, finish_prepare) (_, refl, answered-Finished idx e _ w _ _ there p)

finish_intra-Finished :
    (idx : ℕ) (e : LogEntry) (w : World) {r : ℤ × ℤ × ℤ}
    → get_elem? w.raft.log idx ≡ some e
    → scan_pays e.command ≡ some r
    → CanFinish e
    → (t : World) × (finish_intra idx e w ≡ ok t) × Finished w t
unfolding finish_intra
finish_intra-Finished idx e w there read p =
    rw (read, finish_intra) (_, refl, answered-Finished idx e _ w _ _ there p)

finish_entry-Finished :
    (idx : ℕ) (e : LogEntry) (w : World)
    → get_elem? w.raft.log idx ≡ some e
    → CanFinish e
    → (t : World) × (finish_entry idx e w ≡ ok t) × Finished w t
unfolding finish_entry
finish_entry-Finished idx e w there p = elim (Bool-cases (is_cross_shard e.command)) [
  | inl cross ↦ elim (Bool-cases (is_prepare e.command)) [
    | inl prepare ↦ elim (Option-cases (scan_prepare_pays e.command)) [
      | inl unread ↦ absurd (let h = rw (cross, prepare, unread) at p in cc)
      | inr (r, read) ↦
          rw (cross, prepare, finish_entry) (finish_prepare-Finished idx e w there read p)
    ]
    | inr decision ↦
        rw (cross, decision, finish_entry)
          (w, refl, log-Finished w w.raft.log _ _ refl (λ h. h) (λ h. h))
  ]
  | inr intra ↦ elim (Option-cases (scan_pays e.command)) [
    | inl unread ↦ absurd (let h = rw (intra, unread) at p in cc)
    | inr (r, read) ↦ rw (intra, finish_entry) (finish_intra-Finished idx e w there read p)
  ]
]

pub finish_entries-Finished :
    (k n : ℕ) (w : World)
    → n + k ≤ length w.raft.log
    → length w.raft.log < 2 ^ 31
    → All CanFinish w.raft.log
    → (t : World) × (finish_entries k (pos n) w ≡ ok t) × Finished w t
unfolding finish_entries
finish_entries-Finished zero n w le small h =
    (w, refl, log-Finished w w.raft.log _ _ refl (λ k. k) (λ k. k))
finish_entries-Finished (suc k) n w le small h =
    let (e, found, p) = get_elem?-All CanFinish w.raft.log n (omega arith) h in
    let (w₁, first, a) = finish_entry-Finished n e w found p in
    let (t, rest, b) =
      finish_entries-Finished k (suc n) w₁ (omega (arith, a.same_length))
        (omega (arith, a.same_length)) (a.still h) in
    (t, rw (found, first, add_int-pos_one n (omega arith)) rest, Finished-trans a b)
