-- ===== src/AppendEntries/Readable.antt =====
-- Logs whose commands can be read, through the loops of a follower.
use raft_2pc_database.Prelude.{
  ℕ, zero, suc, ◌+◌, ◌≤◌, ◌<◌, ◌^◌, ℤ, pos, true, false, ◌||◌, List, [], ◌∷◌, ◌++◌, map, length,
  length-map, take, drop, none, some, ◌≡◌, refl, ap, arith, All, get_elem?-All, Bool-cases,
  Option-cases, inl, inr, eq_ℤ, ok, add_int-pos_one,
}
use raft_2pc_database.Prelude.Table.{Table}
use raft_2pc_database.Message.{Entry}
use raft_2pc_database.Command.Scan.{scan_pays, is_cross_shard}
use raft_2pc_database.RaftState.{LogEntry}
use raft_2pc_database.AppendEntries.Follower.{
  log_entry, merge_entries, commit_entry, commit_entries,
}

-- A command that the commit loop skips or reads in full.
abbrev pub IsReadable : LogEntry → Type 0
IsReadable e =
    (is_cross_shard e.command || elim (scan_pays e.command) [ none ↦ false | some r ↦ true ]) ≡ true

pub commit_entry-ok :
    (e : LogEntry) (tb : Table ℤ) → IsReadable e → (tb' : Table ℤ) × (commit_entry e tb ≡ ok tb')
unfolding commit_entry
commit_entry-ok e tb h = elim (Bool-cases (is_cross_shard e.command)) [
  | inl cross ↦ rw cross (tb, refl)
  | inr intra ↦ elim (Option-cases (scan_pays e.command)) [
    | inl unread ↦ absurd (ground (arith, intra, unread, h))
    | inr (r, read) ↦ rw (intra, read) (_, refl)
  ]
]

pub commit_entries-ok :
    (k n : ℕ) (log : List LogEntry) (tb : Table ℤ)
    → n + k ≤ length log
    → length log < 2 ^ 31
    → All IsReadable log
    → (tb' : Table ℤ) × (commit_entries k (pos n) log tb ≡ ok tb')
unfolding commit_entries
commit_entries-ok zero n log tb le small h = (tb, refl)
commit_entries-ok (suc k) n log tb le small h =
    let (e, found, readable) = get_elem?-All IsReadable log n (omega arith) h in
    let (tb₁, first) = commit_entry-ok e tb readable in
    let (tb₂, rest) = commit_entries-ok k (suc n) log tb₁ (omega arith) small h in
    (tb₂, rw (found, first, add_int-pos_one n (omega arith)) rest)

pub All-take : (n : ℕ) (xs : List LogEntry) → All IsReadable xs → All IsReadable (take n xs)
All-take zero xs h = tt
All-take (suc n) [] h = tt
All-take (suc n) (x ∷ xs) h = (h.0, All-take n xs h.1)

pub All-drop : (n : ℕ) (xs : List LogEntry) → All IsReadable xs → All IsReadable (drop n xs)
All-drop zero xs h = h
All-drop (suc n) [] h = tt
All-drop (suc n) (x ∷ xs) h = All-drop n xs h.1

pub All-merge_entries :
    (entries : List Entry) (old : List LogEntry)
    → All IsReadable (map log_entry entries)
    → All IsReadable old
    → All IsReadable (merge_entries entries old)
unfolding merge_entries
All-merge_entries [] old hn ho = ho
All-merge_entries (entry ∷ entries) [] hn ho = hn
All-merge_entries (entry ∷ entries) (e ∷ old) hn ho = elim (Bool-cases (eq_ℤ entry.term e.term)) [
  | inl same ↦ rw same (ho.0, All-merge_entries entries old hn.1 ho.1)
  | inr other ↦ rw other hn
]

pub length-merge_entries :
    (entries : List Entry) (old : List LogEntry)
    → length entries ≤ length (merge_entries entries old)
unfolding merge_entries
length-merge_entries [] old = omega arith
length-merge_entries (entry ∷ entries) [] = omega (arith, length-map log_entry entries)
length-merge_entries (entry ∷ entries) (e ∷ old) =
    ground (arith, length-merge_entries entries old, length-map log_entry entries)

pub length-merge_entries-le :
    (entries : List Entry) (old : List LogEntry)
    → length (merge_entries entries old) ≤ length entries + length old
unfolding merge_entries
length-merge_entries-le [] old = omega arith
length-merge_entries-le (entry ∷ entries) [] = omega (arith, length-map log_entry entries)
length-merge_entries-le (entry ∷ entries) (e ∷ old) =
    ground (arith, length-merge_entries-le entries old, length-map log_entry entries)

pub length-append : (xs ys : List LogEntry) → length (xs ++ ys) ≡ length xs + length ys
length-append [] ys = omega arith
length-append (x ∷ xs) ys = omega (arith, length-append xs ys)

pub length-take : (n : ℕ) (xs : List LogEntry) → n ≤ length xs → length (take n xs) ≡ n
length-take zero xs le = refl
length-take (suc n) [] le = absurd (ground arith)
length-take (suc n) (x ∷ xs) le = ap suc (length-take n xs (omega arith))

pub length-drop : (n : ℕ) (xs : List LogEntry) → length (drop n xs) ≤ length xs
length-drop zero xs = omega arith
length-drop (suc n) [] = omega arith
length-drop (suc n) (x ∷ xs) = omega (arith, length-drop n xs)
