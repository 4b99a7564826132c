-- ===== src/AppendEntries/Indices.antt =====
-- Logs in which the index of an entry is its position, through the loops over the entries
-- (`executeReq`) and the append of an entry.
use raft_2pc_database.Prelude.{
  ℕ, zero, suc, ◌+◌, ◌≤◌, ◌<◌, ◌-◌, ◌^◌, pos, false, List, [], ◌∷◌, ◌++◌, map, length, take, drop,
  set, InRange, get_elem?, get_last?, some, Bool-cases, inl, inr, ◌≡◌, refl, subst, ap, arith, ◌-ℤ◌,
  eq_ℤ, ok, add_int,
}
use raft_2pc_database.Message.{Entry, AppendEntriesReq, AppendEntriesRsp}
use raft_2pc_database.RaftState.{RaftState, LogEntry, lastlogindex}
use raft_2pc_database.AppendEntries.Readable.{length-take}
use raft_2pc_database.AppendEntries.Replication.{
  accept_entries-log, answer-success, base_in_log, match_in_log,
}
use raft_2pc_database.AppendEntries.Follower.{
  log_entry, merge_entries, accept_entries, hear_leader, answer,
}

-- The entries stand at their positions, the first at `n`.
abbrev pub IndexedFrom : ℕ → List LogEntry → Type 0
IndexedFrom n [] = Unit
IndexedFrom n (e ∷ log) = (e.index ≡ pos n) × IndexedFrom (suc n) log

pub IndexedFrom-append :
    (n : ℕ) (xs ys : List LogEntry)
    → IndexedFrom n xs
    → IndexedFrom (n + length xs) ys
    → IndexedFrom n (xs ++ ys)
IndexedFrom-append n [] ys hx hy = let e : n + 0 ≡ n = omega arith in rw e at hy
IndexedFrom-append n (x ∷ xs) ys hx hy =
    let e : n + suc (length xs) ≡ suc n + length xs = omega arith in
    (hx.0, IndexedFrom-append (suc n) xs ys hx.1 (rw e at hy))

IndexedFrom-take : (n k : ℕ) (xs : List LogEntry) → IndexedFrom n xs → IndexedFrom n (take k xs)
IndexedFrom-take n zero xs h = tt
IndexedFrom-take n (suc k) [] h = tt
IndexedFrom-take n (suc k) (x ∷ xs) h = (h.0, IndexedFrom-take (suc n) k xs h.1)

pub IndexedFrom-drop :
    (n k : ℕ) (xs : List LogEntry) → IndexedFrom n xs → IndexedFrom (n + k) (drop k xs)
IndexedFrom-drop n zero xs h = let e : n + 0 ≡ n = omega arith in rw e h
IndexedFrom-drop n (suc k) [] h = tt
IndexedFrom-drop n (suc k) (x ∷ xs) h =
    let e : n + suc k ≡ suc n + k = omega arith in rw e (IndexedFrom-drop (suc n) k xs h.1)

IndexedFrom-merge_entries :
    (n : ℕ) (entries : List Entry) (old : List LogEntry)
    → IndexedFrom n (map log_entry entries)
    → IndexedFrom n old
    → IndexedFrom n (merge_entries entries old)
unfolding merge_entries
IndexedFrom-merge_entries n [] old new h = h
IndexedFrom-merge_entries n (entry ∷ entries) [] new h = new
IndexedFrom-merge_entries n (entry ∷ entries) (e ∷ old) new h =
    elim (Bool-cases (eq_ℤ entry.term e.term)) [
      | inl same ↦ rw same (h.0, IndexedFrom-merge_entries (suc n) entries old new.1 h.1)
      | inr other ↦ rw other new
    ]

pub IndexedFrom-set :
    (n i : ℕ) (xs : List LogEntry) (e f : LogEntry)
    → get_elem? xs i ≡ some e
    → f.index ≡ e.index
    → IndexedFrom n xs
    → IndexedFrom n (set xs i f)
IndexedFrom-set n i [] e f there same h = tt
IndexedFrom-set n zero (x ∷ xs) e f there same h = (ground (arith, there, same, h.0), h.1)
IndexedFrom-set n (suc i) (x ∷ xs) e f there same h =
    (h.0, IndexedFrom-set (suc n) i xs e f there same h.1)

pub last_index :
    (n : ℕ) (xs : List LogEntry)
    → 0 < length xs
    → IndexedFrom n xs
    → (e : LogEntry) × (get_last? xs ≡ some e) × (e.index ≡ pos (n + length xs - 1))
last_index n [] some_entry h = absurd (omega arith)
last_index n (x ∷ []) some_entry h =
    let at_n : n + 1 - 1 ≡ n = omega arith in (x, refl, rw at_n h.0)
last_index n (x ∷ y ∷ xs) some_entry h =
    let (e, last, index) = last_index (suc n) (y ∷ xs) (omega arith) h.1 in
    let size : suc n + suc (length xs) ≡ n + suc (suc (length xs)) = omega arith in
    (e, last, rw size at index)

-- The last log index that a candidate sends is one below the size, also for an empty log.
pub lastlogindex-IndexedFrom :
    (s : RaftState) → IndexedFrom 0 s.log → lastlogindex s ≡ pos (length s.log) -ℤ pos 1
unfolding lastlogindex ◌-ℤ◌
lastlogindex-IndexedFrom s h = by_log s.log refl
  where
    by_log : (log : List LogEntry) → s.log ≡ log → lastlogindex s ≡ pos (length s.log) -ℤ pos 1
    by_log [] nothing = ground (arith, nothing)
    by_log (e ∷ log) some_entry =
        let (l, last, index) = last_index 0 s.log (omega (arith, ap length some_entry)) h in
        ground (arith, last, index, ap length some_entry)

accept_entries-IndexedFrom :
    (req : AppendEntriesReq) (s t : RaftState) (base : ℕ)
    → add_int req.prev_log_index (pos 1) ≡ pos base
    → base ≤ length s.log
    → IndexedFrom base (map log_entry req.entries)
    → IndexedFrom 0 s.log
    → accept_entries req s ≡ ok t
    → IndexedFrom 0 t.log
accept_entries-IndexedFrom req s t base at_base inside new old h =
    let at_zero : 0 + base ≡ base = omega arith in
    let merged =
      IndexedFrom-merge_entries base req.entries (drop base s.log) new
        (rw at_zero at (IndexedFrom-drop 0 base s.log old)) in
    let size : base ≡ 0 + length (take base s.log) = omega (arith, length-take base s.log inside) in
    rw (accept_entries-log req s t base at_base h).0 (
      IndexedFrom-append 0 _ _ (IndexedFrom-take 0 base s.log old)
        (subst (λ n. IndexedFrom n (merge_entries req.entries (drop base s.log))) size merged))

-- An answer without success leaves the log alone.
answer_keeps_log :
    (req : AppendEntriesReq) (s : RaftState) {t : RaftState} {rsp : AppendEntriesRsp}
    → answer req s ≡ ok (t, rsp)
    → rsp.success ≡ false
    → t.log ≡ s.log
unfolding answer hear_leader
answer_keeps_log req s h refused = ground arith

-- A follower whose entries have their positions as indices has them so again after any answer to
-- an AppendEntriesReq whose entries are numbered on from the previous index. The log is shorter
-- than 2^31 and the previous index is at least -1.
pub answer-IndexedFrom :
    (req : AppendEntriesReq) (s : RaftState) (base : ℕ) {t : RaftState} {rsp : AppendEntriesRsp}
    → length s.log < 2 ^ 31
    → InRange req.prev_log_index
    → add_int req.prev_log_index (pos 1) ≡ pos base
    → IndexedFrom base (map log_entry req.entries)
    → IndexedFrom 0 s.log
    → answer req s ≡ ok (t, rsp)
    → IndexedFrom 0 t.log
unfolding hear_leader
answer-IndexedFrom req s base {rsp} small range at_base new old h = elim (Bool-cases rsp.success) [
  | inl success ↦
      let (current, matched, accepted) = answer-success req s h success in
      let s₁ = hear_leader req s in
      let inside =
        base_in_log s₁ req.prev_log_index base small range at_base (match_in_log req s₁ matched) in
      accept_entries-IndexedFrom req s₁ _ base at_base inside new old accepted
  | inr refused ↦ rw (answer_keeps_log req s h refused) old
]
