-- ===== src/AppendEntries/Replication.antt =====
-- The log of a follower after it has accepted entries of the leader.
use raft_2pc_database.Prelude.{
  ℕ, suc, ◌≤◌, ◌<◌, ◌^◌, ℤ, pos, List, [], ◌∷◌, ◌++◌, map, length, take, drop, true, false,
  Bool-cases, ◌⊎◌, inl, inr, ◌≡◌, refl, arith, ap, ap₂, ◌∙◌, sym, length-map, take-append_take,
  drop-append_take, eq_ℤ, eq_ℤ_iff, ok, >>=-eq-ok, add_int, int32, InRange, eq_of_parts, leb_ℤ,
  ltb_ℤ, rounds, ◌+ℤ◌,
}
use raft_2pc_database.Message.{Entry, AppendEntriesReq, AppendEntriesRsp}
use raft_2pc_database.RaftState.{RaftState, LogEntry, log_size}
use raft_2pc_database.AppendEntries.Follower.{
  log_entry, merge_entries, replicate_log, accept_entries, is_mismatch, hear_leader, answer,
  commit_entries,
}

-- What a log entry and an entry of a message have in common: all but the waiting request.
abbrev pub content : LogEntry → Entry
content e = record { term = e.term; index = e.index; command = e.command; id = e.id }

-- Raft's log matching property, as far as the merge relies on it: where the two logs have the same
-- term up to some position, they have the same entry there.
abbrev pub IsConsistent : List Entry → List LogEntry → Type 0
IsConsistent [] old = Unit
IsConsistent (entry ∷ entries) [] = Unit
IsConsistent (entry ∷ entries) (e ∷ old) =
    entry.term ≡ e.term → (content e ≡ entry) × IsConsistent entries old

content-log_entry : (entries : List Entry) → map content (map log_entry entries) ≡ entries
content-log_entry [] = refl
content-log_entry (e ∷ entries) = ap (◌∷◌ e) (content-log_entry entries)

take-map-all :
    (entries : List Entry) → map content (take (length entries) (map log_entry entries)) ≡ entries
take-map-all [] = refl
take-map-all (e ∷ entries) = ap (◌∷◌ e) (take-map-all entries)

-- The merged part begins with the entries of the leader.
merge_entries-begins :
    (entries : List Entry) (old : List LogEntry)
    → IsConsistent entries old
    → map content (take (length entries) (merge_entries entries old)) ≡ entries
unfolding merge_entries
merge_entries-begins [] old h = refl
merge_entries-begins (entry ∷ entries) [] h = ap (◌∷◌ entry) (take-map-all entries)
merge_entries-begins (entry ∷ entries) (e ∷ old) h = elim (Bool-cases (eq_ℤ entry.term e.term)) [
  | inl same ↦
      let (same_content, rest) = h ((eq_ℤ_iff entry.term e.term).0 same) in
      rw same (ap₂ ◌∷◌ same_content (merge_entries-begins entries old rest))
  | inr other ↦ rw other (ap (◌∷◌ entry) (take-map-all entries))
]

-- It is longer than that only if nothing was cut off: then the old part stays as it was, up to
-- the entries themselves.
merge_entries-keeps :
    (entries : List Entry) (old : List LogEntry)
    → (merge_entries entries old ≡ old) ⊎ (length (merge_entries entries old) ≡ length entries)
unfolding merge_entries
merge_entries-keeps [] old = inl refl
merge_entries-keeps (entry ∷ entries) [] = inr (ap suc (length-map log_entry entries))
merge_entries-keeps (entry ∷ entries) (e ∷ old) =
    ground (arith, merge_entries-keeps entries old, length-map log_entry entries)

-- A previous index that is in the log is followed by a position in it, or by its end.
pub base_in_log :
    (s : RaftState) (prev : ℤ) (base : ℕ)
    → length s.log < 2 ^ 31
    → InRange prev
    → add_int prev (pos 1) ≡ pos base
    → leb_ℤ (log_size s) prev ≡ false
    → base ≤ length s.log
unfolding int32 ◌+ℤ◌
base_in_log s prev base small range e within = ground arith

replicate_log-at :
    (base : ℕ) (entries : List Entry) (log : List LogEntry)
    → replicate_log (pos base) entries log
      ≡ ok (take base log ++ merge_entries entries (drop base log))
unfolding replicate_log
replicate_log-at base entries log = refl

pub accept_entries-log :
    (req : AppendEntriesReq) (s t : RaftState) (base : ℕ)
    → add_int req.prev_log_index (pos 1) ≡ pos base
    → accept_entries req s ≡ ok t
    → (t.log ≡ take base s.log ++ merge_entries req.entries (drop base s.log))
      × (t.commit_index ≡ req.commit_index)
unfolding accept_entries
accept_entries-log req s t base e h =
    let (log, c, h₁) =
      >>=-eq-ok (replicate_log (add_int req.prev_log_index (pos 1)) req.entries s.log) _ h in
    let first = add_int s.commit_index (pos 1) in
    let (tb, _, h₂) =
      >>=-eq-ok (commit_entries (rounds first req.commit_index) first log s.local_balance_tb) _
        h₁ in
    let at_base =
      ap (λ b. replicate_log b req.entries s.log) e ∙ replicate_log-at base req.entries s.log in
    ground (arith, sym c ∙ at_base, h₂)

-- What an AppendEntriesReq that is answered with success leaves behind.
pub record Replicated (req : AppendEntriesReq) (base : ℕ) (old : List LogEntry) (s' : RaftState)
    : Type 0 where
  pub current : s'.current_term ≡ req.term
  pub prefix : take base s'.log ≡ take base old
  pub copied : map content (take (length req.entries) (drop base s'.log)) ≡ req.entries
  pub rest : (drop base s'.log ≡ drop base old) ⊎ (length (drop base s'.log) ≡ length req.entries)
  pub commit : s'.commit_index ≡ req.commit_index

accept_entries-Replicated :
    (req : AppendEntriesReq) (s t : RaftState) (base : ℕ)
    → add_int req.prev_log_index (pos 1) ≡ pos base
    → base ≤ length s.log
    → IsConsistent req.entries (drop base s.log)
    → accept_entries req s ≡ ok t
    → t.current_term ≡ req.term
    → Replicated req base s.log t
accept_entries-Replicated req s t base e inside consistent h term =
    let (log, commit) = accept_entries-log req s t base e h in
    let old = drop base s.log in
    let merged = merge_entries req.entries old in
    let suffix : drop base t.log ≡ merged =
      ap (drop base) log ∙ drop-append_take base s.log merged inside in
    record {
      current = term;
      prefix = ap (take base) log ∙ take-append_take base s.log merged inside;
      copied =
          ap (λ l. map content (take (length req.entries) l)) suffix
          ∙ merge_entries-begins req.entries old consistent;
      rest = rw suffix (merge_entries-keeps req.entries old);
      commit = commit;
    }

-- The only way to a successful answer.
pub answer-success :
    (req : AppendEntriesReq) (s : RaftState) {s' : RaftState} {rsp : AppendEntriesRsp}
    → answer req s ≡ ok (s', rsp)
    → rsp.success ≡ true
    → (ltb_ℤ req.term s.current_term ≡ false)
      × (is_mismatch req (hear_leader req s) ≡ ok false)
      × (accept_entries req (hear_leader req s) ≡ ok s')
unfolding answer
answer-success req s h success = ground arith

-- Entries that match are in the log as far as the previous index.
pub match_in_log :
    (req : AppendEntriesReq) (s : RaftState)
    → is_mismatch req s ≡ ok false
    → leb_ℤ (log_size s) req.prev_log_index ≡ false
unfolding is_mismatch
match_in_log req s h = ground arith

hear_leader-term :
    (req : AppendEntriesReq) (s : RaftState)
    → ltb_ℤ req.term s.current_term ≡ false
    → (hear_leader req s).current_term ≡ req.term
unfolding hear_leader
hear_leader-term req s h = ground (arith, eq_of_parts s.current_term req.term)

accept_entries-term :
    (req : AppendEntriesReq) (s t : RaftState)
    → accept_entries req s ≡ ok t
    → t.current_term ≡ s.current_term
unfolding accept_entries
accept_entries-term req s t h = ground arith

-- When a follower answers an AppendEntriesReq with success, its term is the leader's, its log up
-- to the previous index is kept, behind it stand exactly the entries of the request, what goes
-- on behind those is unchanged, and the commit index is the leader's. This holds for a log of
-- less than 2^31 entries, a previous index of at least -1, and a log that agrees with the
-- entries wherever the terms agree up to that point.
pub answer-Replicated :
    (req : AppendEntriesReq) (s : RaftState) (base : ℕ) {s' : RaftState} {rsp : AppendEntriesRsp}
    → length s.log < 2 ^ 31
    → InRange req.prev_log_index
    → add_int req.prev_log_index (pos 1) ≡ pos base
    → IsConsistent req.entries (drop base s.log)
    → answer req s ≡ ok (s', rsp)
    → rsp.success ≡ true
    → Replicated req base s.log s'
unfolding hear_leader
answer-Replicated req s base small range e consistent h success =
    let (current, matched, accepted) = answer-success req s h success in
    let s₁ = hear_leader req s in
    let inside =
      base_in_log s₁ req.prev_log_index base small range e (match_in_log req s₁ matched) in
    accept_entries-Replicated req s₁ _ base e inside consistent accepted
      (accept_entries-term req s₁ _ accepted ∙ hear_leader-term req s current)
