-- ===== src/AppendEntries/Refinement.antt =====
-- A follower refines the state machine of its committed commands (`executeReq`).
use raft_2pc_database.Prelude.{
  ℕ, zero, suc, ◌+◌, ◌-◌, ◌≤◌, ◌<◌, ◌^◌, ℤ, pos, minus_one, List, [], ◌∷◌, ◌++◌, length, take, drop,
  ◌≡◌, refl, ap, ◌∙◌, sym, arith, ◌≤ℤ◌, ◌<ℤ◌, add_int, rounds, eq_ℤ_iff, ltb_ℤ, Bool-cases, inl,
  inr, ok, at, >>=-eq-ok, ok-injective, subst, take-map, add_int-pos_one,
}
use raft_2pc_database.Prelude.Table.{Table}
use raft_2pc_database.Message.{Entry, AppendEntriesReq, AppendEntriesRsp}
use raft_2pc_database.RaftState.{RaftState, LogEntry}
use raft_2pc_database.AppendEntries.Follower.{
  merge_entries, replicate_log, accept_entries, is_mismatch, hear_leader, answer, commit_entry,
  commit_entries,
}
use raft_2pc_database.AppendEntries.StateMachine.{
  Balances, view, replay, commands, committed_size, committed_commands, Mirrors, view-commit_entry,
  replay_more, add_int-committed_size, rounds-committed_size, at-get_elem?, drop-commands,
}

-- The entries that the leader sends for the first `n` positions have the terms of the follower's
-- entries there, as Raft's leader completeness promises for committed positions.
abbrev pub Agrees : ℕ → List Entry → List LogEntry → Type 0
Agrees zero entries old = Unit
Agrees (suc n) [] old = Unit
Agrees (suc n) (entry ∷ entries) [] = Unit
Agrees (suc n) (entry ∷ entries) (e ∷ old) = (entry.term ≡ e.term) × Agrees n entries old

merge_entries-agreed :
    (n : ℕ) (entries : List Entry) (old : List LogEntry)
    → n ≤ length old
    → Agrees n entries old
    → take n (merge_entries entries old) ≡ take n old
unfolding merge_entries
merge_entries-agreed zero entries old h a = refl
merge_entries-agreed (suc n) [] old h a = refl
merge_entries-agreed (suc n) (entry ∷ entries) [] h a = absurd (omega arith)
merge_entries-agreed (suc n) (entry ∷ entries) (e ∷ old) h (same, a) =
    rw ((eq_ℤ_iff entry.term e.term).1 same)
      (ap (◌∷◌ e) (merge_entries-agreed n entries old (omega arith) a))

-- The committed part of the log stays.
committed-kept :
    (n base : ℕ) (entries : List Entry) (log : List LogEntry)
    → n ≤ length log
    → Agrees (n - base) entries (drop base log)
    → take n (take base log ++ merge_entries entries (drop base log)) ≡ take n log
committed-kept zero base entries log h a = refl
committed-kept (suc n) zero entries log h a =
    let all_of : suc n - 0 ≡ suc n = omega arith in
    merge_entries-agreed (suc n) entries log h (rw all_of at a)
committed-kept (suc n) (suc base) entries [] h a = absurd (omega arith)
committed-kept (suc n) (suc base) entries (e ∷ log) h a =
    let left : suc n - suc base ≡ n - base = omega arith in
    ap (◌∷◌ e) (committed-kept n base entries log (omega arith) (rw left at a))

-- The commit loop applies the commands of its positions, in their order.
commit_entries-view :
    (k n : ℕ) (log : List LogEntry) (tb tb' : Table ℤ)
    → n + k < 2 ^ 31
    → commit_entries k (pos n) log tb ≡ ok tb'
    → view tb' ≡ replay (take k (drop n (commands log))) (view tb)
unfolding commit_entries replay
commit_entries-view zero n log tb tb' small h = ap view (sym (ok-injective h))
commit_entries-view (suc k) n log tb tb' small h =
    let (e, a, h₁) = >>=-eq-ok (at log (pos n)) _ h in
    let (tb₁, c, h₂) = >>=-eq-ok (commit_entry e tb) _ h₁ in
    let next = rw (add_int-pos_one n (omega arith)) at h₂ in
    rw (drop-commands log n e (at-get_elem? log n e a)) (
      commit_entries-view k (suc n) log tb₁ tb' (omega arith) next
      ∙ ap (replay (take k (drop (suc n) (commands log)))) (view-commit_entry e tb tb₁ c))

-- A follower that moves its commit index from `s` to `t` over a log that keeps the committed part.
Mirrors-step :
    (start : Balances) (s t : RaftState)
    → minus_one ≤ℤ s.commit_index
    → s.commit_index ≤ℤ t.commit_index
    → t.commit_index <ℤ pos (2 ^ 31 - 1)
    → take (committed_size s.commit_index) t.log ≡ take (committed_size s.commit_index) s.log
    → commit_entries
        (rounds (pos (committed_size s.commit_index)) t.commit_index)
        (pos (committed_size s.commit_index))
        t.log
        s.local_balance_tb
      ≡ ok t.local_balance_tb
    → Mirrors start s
    → Mirrors start t
Mirrors-step start s t ge le small kept run mirrors =
    let n = committed_size s.commit_index in
    let k = rounds (pos n) t.commit_index in
    let size : n + k ≡ committed_size t.commit_index =
      rounds-committed_size s.commit_index t.commit_index ge le in
    let same : take n (commands t.log) ≡ committed_commands s =
      take-map (λ (e : LogEntry). e.command) n t.log
      ∙ ap commands kept
      ∙ sym (take-map (λ (e : LogEntry). e.command) n s.log) in
    let more = replay_more start (commands t.log) s.commit_index t.commit_index ge le in
    commit_entries-view k n t.log s.local_balance_tb t.local_balance_tb (omega (arith, size)) run
    ∙ ap (replay (take k (drop n (commands t.log)))) (mirrors ∙ ap (λ c. replay c start) (sym same))
    ∙ sym more

accept_entries-Mirrors :
    (start : Balances) (req : AppendEntriesReq) (s t : RaftState) (base : ℕ)
    → length s.log < 2 ^ 31
    → minus_one ≤ℤ s.commit_index
    → s.commit_index <ℤ pos (length s.log)
    → s.commit_index ≤ℤ req.commit_index
    → req.commit_index <ℤ pos (2 ^ 31 - 1)
    → add_int req.prev_log_index (pos 1) ≡ pos base
    → Agrees (committed_size s.commit_index - base) req.entries (drop base s.log)
    → accept_entries req s ≡ ok t
    → Mirrors start s
    → Mirrors start t
unfolding accept_entries replicate_log
accept_entries-Mirrors start req s t base long ge lt le small at_base agreed h mirrors =
    let (log, c, h₁) =
      >>=-eq-ok (replicate_log (add_int req.prev_log_index (pos 1)) req.entries s.log) _ h in
    let first = add_int s.commit_index (pos 1) in
    let (tb, run, h₂) =
      >>=-eq-ok (commit_entries (rounds first req.commit_index) first log s.local_balance_tb) _
        h₁ in
    let (next, inside) = add_int-committed_size s.commit_index (length s.log) ge lt long in
    let merged : take base s.log ++ merge_entries req.entries (drop base s.log) ≡ log =
      ok-injective (rw at_base at c) in
    let stays =
      committed-kept (committed_size s.commit_index) base req.entries s.log inside agreed in
    let done = ok-injective h₂ in
    subst (Mirrors start) done (
      Mirrors-step start s
        (record s { log = log; local_balance_tb = tb; commit_index = req.commit_index }) ge le small
        (rw merged at stays) (rw next at run) mirrors)

-- If the balances of a follower are the ones that its committed commands make, replayed one
-- after the other on the balances it started with, then they are so again after it has answered
-- an AppendEntriesReq without undefined behaviour, whether it accepts the request or not. This
-- holds for a log of less than 2^31 entries, a commit index of at least -1 that is in the log
-- and does not go down and stays below 2^31 - 1, a previous index of at least -1, and a leader
-- whose entries have the follower's terms at the positions that the follower has committed.
pub answer-Mirrors :
    (start : Balances) (req : AppendEntriesReq) (s : RaftState) (base : ℕ) {s' : RaftState}
    {rsp : AppendEntriesRsp}
    → length s.log < 2 ^ 31
    → minus_one ≤ℤ s.commit_index
    → s.commit_index <ℤ pos (length s.log)
    → s.commit_index ≤ℤ req.commit_index
    → req.commit_index <ℤ pos (2 ^ 31 - 1)
    → add_int req.prev_log_index (pos 1) ≡ pos base
    → Agrees (committed_size s.commit_index - base) req.entries (drop base s.log)
    → Mirrors start s
    → answer req s ≡ ok (s', rsp)
    → Mirrors start s'
unfolding answer hear_leader
answer-Mirrors start req s base {s'} long ge lt le small at_base agreed mirrors h =
    elim (Bool-cases (ltb_ℤ req.term s.current_term)) [
      | inl old_term ↦
          let same : s ≡ s' = ground (arith, old_term, h) in subst (Mirrors start) same mirrors
      | inr current ↦
          let s₁ = hear_leader req s in
          let (mismatch, m, h₁) = >>=-eq-ok (is_mismatch req s₁) _ (rw current at h) in
          elim (Bool-cases mismatch) [
            | inl unmatched ↦
                let same : s₁ ≡ s' = ground (arith, unmatched, h₁) in
                subst (Mirrors start) same mirrors
            | inr matched ↦
                let (t, accepted, h₂) = >>=-eq-ok (accept_entries req s₁) _ (rw matched at h₁) in
                let same : t ≡ s' = ground (arith, h₂) in
                subst (Mirrors start) same (
                  accept_entries-Mirrors start req s₁ t base long ge lt le small at_base agreed
                    accepted mirrors)
          ]
    ]
