-- ===== src/AppendEntries/Loops.antt =====
-- The two loops of `AppendEntriesExecutor::executeReq` over the entries of a request, statement by
-- statement: positions in the log are computed at type `int`, entries are popped and pushed one by
-- one.
use raft_2pc_database.Prelude.{
  ℕ, zero, suc, ◌+◌, ◌≤◌, ◌<◌, ◌^◌, ℤ, pos, pos_part, if◌then◌else◌, leb_ℤ, ltb_ℤ, eq_ℤ, add_int,
  int32, ◌+ℤ◌, List, [], ◌∷◌, ◌++◌, map, length, take, drop, get_elem?, take-append-drop, some,
  Result, ok, at, ◌>>=◌, ◌≡◌, refl, sym, ap, ◌∙◌, arith, Bool-cases, inl, inr, ◌⊎◌,
  int32_of_InRange, append-nil, append_assoc, take_all, add_int-pos_one,
}
use raft_2pc_database.Message.{Entry}
use raft_2pc_database.RaftState.{LogEntry}
use raft_2pc_database.AppendEntries.Follower.{log_entry, merge_entries, replicate_log}

-- `log_.pop_back()`
abbrev pub pop_back : List LogEntry → List LogEntry
pop_back [] = []
pop_back (e ∷ []) = []
pop_back (e ∷ f ∷ log) = e ∷ pop_back (f ∷ log)

-- `(int)log_.size()`
abbrev pub size : List LogEntry → ℤ
size log = int32 (pos (length log))

-- `while ((int)log_.size() > here)`, with the rounds left.
unfoldable pub pop_loop : ℕ → ℤ → List LogEntry → List LogEntry
pop_loop zero here log = log
pop_loop (suc k) here log =
    let rest = pop_loop k here (pop_back log) in if ltb_ℤ here (size log) then rest else log

-- The loop that looks for the first entry that does not match, from `idx` on: where it stops, and
-- the log that it leaves.
unfoldable pub find_unmatched : List Entry → ℤ → ℤ → List LogEntry → Result (ℤ × List LogEntry)
unfolding pop_loop
find_unmatched [] log_idx_base idx log = ok (idx, log)
find_unmatched (entry ∷ entries) log_idx_base idx log =
    let here = add_int log_idx_base idx in
    let rest = find_unmatched entries log_idx_base (add_int idx (pos 1)) log in
    let stop = ok (idx, pop_loop (length log) here log) in
    if leb_ℤ (size log) here
    then stop
    else at log here >>= λ e. if eq_ℤ entry.term e.term then rest else stop

-- The loop that copies the entries that are left.
unfoldable pub push_entries : List Entry → List LogEntry → List LogEntry
push_entries [] log = log
push_entries (entry ∷ entries) log = push_entries entries (log ++ (log_entry entry ∷ []))

-- Both loops.
unfoldable pub replicate_loops : ℤ → List Entry → List LogEntry → Result (List LogEntry)
unfolding find_unmatched push_entries
replicate_loops log_idx_base entries log =
    find_unmatched entries log_idx_base (pos 0) log >>= λ (idx, left).
    ok (push_entries (drop (pos_part idx) entries) left)

push_entries-map :
    (entries : List Entry) (log : List LogEntry)
    → push_entries entries log ≡ log ++ map log_entry entries
unfolding push_entries
push_entries-map [] log = sym (append-nil log)
push_entries-map (entry ∷ entries) log =
    push_entries-map entries (log ++ (log_entry entry ∷ []))
    ∙ append_assoc log (log_entry entry ∷ []) (map log_entry entries)

size_pos : (log : List LogEntry) → length log < 2 ^ 31 → size log ≡ pos (length log)
size_pos log small = int32_of_InRange (pos (length log)) (small, omega arith)

length-pop_back : (e : LogEntry) (log : List LogEntry) → length (pop_back (e ∷ log)) ≡ length log
length-pop_back e [] = refl
length-pop_back e (f ∷ log) = ap suc (length-pop_back f log)

take-pop_back :
    (n : ℕ) (e : LogEntry) (log : List LogEntry)
    → n ≤ length log
    → take n (pop_back (e ∷ log)) ≡ take n (e ∷ log)
take-pop_back zero e log h = refl
take-pop_back (suc n) e [] h = absurd (omega arith)
take-pop_back (suc n) e (f ∷ log) h = ap (◌∷◌ e) (take-pop_back n f log (omega arith))

-- Popping leaves a prefix.
pop_loop-take :
    (k n : ℕ) (log : List LogEntry)
    → length log < 2 ^ 31
    → length log ≤ n + k
    → pop_loop k (pos n) log ≡ take n log
unfolding pop_loop
pop_loop-take zero n log small fuel = sym (take_all n log (omega arith))
pop_loop-take (suc k) n [] small fuel =
    ground (arith, size_pos [] small, take_all {A = LogEntry} n [] (omega arith))
pop_loop-take (suc k) n (e ∷ log) small fuel =
    elim (Bool-cases (ltb_ℤ (pos n) (pos (suc (length log))))) [
      | inl longer ↦
          let shorter = length-pop_back e log in
          let rest =
            pop_loop-take k n (pop_back (e ∷ log)) (omega (arith, shorter))
              (omega (arith, shorter)) in
          ground (arith, size_pos (e ∷ log) small, longer, rest, take-pop_back n e log)
      | inr done ↦ ground (arith, size_pos (e ∷ log) small, done, take_all n (e ∷ log))
    ]

-- The part of a log behind a position.
drop-cases :
    (n : ℕ) (log : List LogEntry)
    → n ≤ length log
    → ((length log ≡ n) × (drop n log ≡ []))
      ⊎ ((e : LogEntry) × (n < length log)
          × (get_elem? log n ≡ some e)
          × (drop n log ≡ e ∷ drop (suc n) log)
          × (take (suc n) log ≡ take n log ++ (e ∷ [])))
drop-cases zero [] h = inl (refl, refl)
drop-cases zero (e ∷ log) h = inr (e, omega arith, refl, refl, refl)
drop-cases (suc n) [] h = absurd (omega arith)
drop-cases (suc n) (e ∷ log) h = elim (drop-cases n log (omega arith)) [
  | inl (same, none_left) ↦ inl (ap suc same, none_left)
  | inr (f, lt, there, left, first) ↦ inr (f, omega (arith, lt), there, left, ap (◌∷◌ e) first)
]

-- What the loops have made of a log, in place of the merge.
record Found (entries : List Entry) (n idx base : ℕ) (log : List LogEntry) : Type 0 where
  pub count : ℕ
  pub left : List LogEntry
  pub stops : find_unmatched entries (pos base) (pos idx) log ≡ ok (pos (idx + count), left)
  pub pushed :
      push_entries (drop count entries) left ≡ take n log ++ merge_entries entries (drop n log)

position : (base idx : ℕ) → base + idx < 2 ^ 31 → add_int (pos base) (pos idx) ≡ pos (base + idx)
unfolding int32 ◌+ℤ◌
position base idx small = ground arith

module _ (base : ℕ) (log : List LogEntry) where
  found :
      (entries : List Entry) (idx : ℕ)
      → base + idx ≤ length log
      → base + idx + length entries + length log < 2 ^ 31
      → Found entries (base + idx) idx base log
  unfolding find_unmatched merge_entries
  found [] idx inside small = record {
    count = 0;
    left = log;
    stops = ground arith;
    pushed = push_entries-map [] log ∙ append-nil log ∙ sym (take-append-drop (base + idx) log);
  }
  found (entry ∷ entries) idx inside small =
      let here = position base idx (omega arith) in
      let long = size_pos log (omega arith) in
      let popped = pop_loop-take (length log) (base + idx) log (omega arith) (omega arith) in
      let pushed = push_entries-map (entry ∷ entries) (take (base + idx) log) in
      elim (drop-cases (base + idx) log inside) [
        | inl (end, none_left) ↦ record {
          count = 0;
          left = take (base + idx) log;
          stops = ground (arith, here, long, popped, end);
          pushed = rw none_left pushed;
        }
        | inr (e, lt, there, left, first) ↦ elim (Bool-cases (eq_ℤ entry.term e.term)) [
          | inl same ↦
              let next : base + suc idx ≡ suc (base + idx) = omega arith in
              let rest = found entries (suc idx) (omega arith) (omega arith) in
              let merged = merge_entries entries (drop (suc (base + idx)) log) in
              record {
                count = suc rest.count;
                left = rest.left;
                stops =
                    ground (
                      arith,
                      here,
                      long,
                      there,
                      same,
                      add_int-pos_one idx (omega arith),
                      rest.stops,
                    );
                pushed =
                    rw (left, same)
                      (rw (next, first) at rest.pushed
                        ∙ append_assoc (take (base + idx) log) (e ∷ []) merged);
              }
          | inr other ↦ record {
            count = 0;
            left = take (base + idx) log;
            stops = ground (arith, here, long, popped, there, other);
            pushed = rw (left, other) pushed;
          }
        ]
      ]

-- The two loops of executeReq over the entries, with positions computed at type int and entries
-- popped and pushed one by one, end without undefined behaviour in the log that the merge of the
-- entries gives, if the base is a position in the log and the base, the entries and the log
-- together are shorter than 2^31.
pub replicate_loops-replicate_log :
    (base : ℕ) (entries : List Entry) (log : List LogEntry)
    → base ≤ length log
    → base + length entries + length log < 2 ^ 31
    → replicate_loops (pos base) entries log ≡ replicate_log (pos base) entries log
unfolding replicate_loops replicate_log
replicate_loops-replicate_log base entries log inside small =
    let start : base + 0 ≡ base = omega arith in
    let done = found base log entries 0 (omega arith) (omega arith) in
    let pushed = rw start at done.pushed in ground (arith, done.stops, pushed)
