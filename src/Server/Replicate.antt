-- ===== src/Server/Replicate.antt =====
-- A heart beat of a leader (`AIOServer::broadcast_heart_beat`) and the follower that takes it
-- (`AppendEntriesExecutor::executeReq`), one behind the other.
use raft_2pc_database.Prelude.{
  ℕ, zero, suc, ◌+◌, ◌≤◌, ◌<◌, ◌^◌, ℤ, pos, true, false, eq_ℤ_iff, add_int, sub_int, int32,
  int32-InRange, ◌+ℤ◌, ◌-ℤ◌, InRange, List, [], ◌∷◌, ◌++◌, map, length, length-map, take, drop,
  get_elem?, get_elem?-drop, take-add, map-append, take-append-drop, add-length-drop, some,
  Option-cases, ok, at, >>=-eq-ok, ok-injective, subst, ◌≡◌, refl, sym, ap, ap₂, ◌∙◌, arith, inl,
  inr,
}
use raft_2pc_database.Message.{AppendEntriesReq, AppendEntriesRsp}
use raft_2pc_database.RaftState.{RaftState, LogEntry, prevlogindex, prevlogterm}
use raft_2pc_database.AppendEntries.{answer, is_mismatch, hear_leader}
use raft_2pc_database.AppendEntries.Replication.{
  content, IsConsistent, answer-Replicated, answer-success,
}
use raft_2pc_database.Server.Broadcast.{message_entry, entries_from, heart_beat}

-- Raft's log matching property: where two logs have entries of the same term, they are the same up
-- to there.
abbrev pub LogMatching : List LogEntry → List LogEntry → Type 0
LogMatching a b =
    (n : ℕ) (e f : LogEntry)
    → get_elem? a n ≡ some e
    → get_elem? b n ≡ some f
    → e.term ≡ f.term
    → map content (take (suc n) a) ≡ map content (take (suc n) b)

-- Entries of the same term have the same content.
abbrev Pointwise : List LogEntry → List LogEntry → Type 0
Pointwise a b =
    (n : ℕ) (e f : LogEntry)
    → get_elem? a n ≡ some e
    → get_elem? b n ≡ some f
    → e.term ≡ f.term
    → content f ≡ content e

same_at :
    (n : ℕ) (a b : List LogEntry) (e f : LogEntry)
    → map content (take (suc n) a) ≡ map content (take (suc n) b)
    → get_elem? a n ≡ some e
    → get_elem? b n ≡ some f
    → content f ≡ content e
same_at n [] b e f h ha hb = cc
same_at n (x ∷ a) [] e f h ha hb = cc
same_at zero (x ∷ a) (y ∷ b) e f h ha hb = ground (arith, h, ha, hb)
same_at (suc n) (x ∷ a) (y ∷ b) e f h ha hb = same_at n a b e f (ground (arith, h)) ha hb

matching-Pointwise :
    (a b : List LogEntry) (m : ℕ) → LogMatching a b → Pointwise (drop m a) (drop m b)
matching-Pointwise a b m matching n e f ha hb same =
    let at_a = sym (get_elem?-drop m n a) ∙ ha in
    let at_b = sym (get_elem?-drop m n b) ∙ hb in
    same_at (m + n) a b e f (matching (m + n) e f at_a at_b same) at_a at_b

entries-IsConsistent : (a b : List LogEntry) → Pointwise a b → IsConsistent (map message_entry a) b
entries-IsConsistent [] b h = tt
entries-IsConsistent (x ∷ a) [] h = tt
entries-IsConsistent (x ∷ a) (y ∷ b) h =
    λ same. (h 0 x y refl refl same, entries-IsConsistent a b (λ n e f. h (suc n) e f))

-- What a heart beat says, where the leader takes the follower's log to match up to `m`.
pub record Beat (idx m : ℕ) (s : RaftState) (req : AppendEntriesReq) : Type 0 where
  pub term : req.term ≡ s.current_term
  pub prev_index : req.prev_log_index ≡ sub_int (pos m) (pos 1)
  pub prev_term : prevlogterm s (pos idx) ≡ ok req.prev_log_term
  pub entries : req.entries ≡ map message_entry (drop m s.log)
  pub commit : req.commit_index ≡ s.commit_index

pub heart_beat-Beat :
    (server_id : ℤ) (idx m : ℕ) (s : RaftState) (req : AppendEntriesReq)
    → at s.matched_log_size (pos idx) ≡ ok (pos m)
    → heart_beat server_id idx s ≡ ok req
    → Beat idx m s req
unfolding heart_beat prevlogindex entries_from
heart_beat-Beat server_id idx m s req matched h =
    let (prev_index, i, h₁) = >>=-eq-ok (prevlogindex s (pos idx)) _ h in
    let (prev_term, t, h₂) = >>=-eq-ok (prevlogterm s (pos idx)) _ h₁ in
    let (size, same, h₃) = >>=-eq-ok (at s.matched_log_size (pos idx)) _ h₂ in
    let is_m : size ≡ pos m = ok-injective (sym same ∙ matched) in
    let index : prev_index ≡ sub_int (pos m) (pos 1) = ok-injective (sym (rw matched at i)) in
    let done = ok-injective h₃ in
    record {
      term = ground (arith, done);
      prev_index = ground (arith, done, index);
      prev_term = ground (arith, done, t);
      entries = ground (arith, done, is_m);
      commit = ground (arith, done);
    }

before : (k : ℕ) → suc k < 2 ^ 31 → sub_int (pos (suc k)) (pos 1) ≡ pos k
unfolding int32 ◌-ℤ◌
before k small = ground arith

pub after_before : (m : ℕ) → m < 2 ^ 31 → add_int (sub_int (pos m) (pos 1)) (pos 1) ≡ pos m
unfolding int32 ◌-ℤ◌ ◌+ℤ◌
after_before zero small = ground arith
after_before (suc k) small = ground arith

-- The entry of the leader in front of those that it sends.
prev_entry :
    (idx k : ℕ) (s : RaftState) (term : ℤ)
    → suc k < 2 ^ 31
    → at s.matched_log_size (pos idx) ≡ ok (pos (suc k))
    → prevlogterm s (pos idx) ≡ ok term
    → (e : LogEntry) × (get_elem? s.log k ≡ some e) × (e.term ≡ term)
unfolding prevlogterm
prev_entry idx k s term small matched h = elim (Option-cases (get_elem? s.log k)) [
  | inl no_entry ↦ absurd (ground (arith, before k small, matched, no_entry, h))
  | inr (e, there) ↦ (e, there, ground (arith, before k small, matched, there, h))
]

-- The entry that the follower compares it with.
match_entry :
    (k : ℕ) (req : AppendEntriesReq) (t : RaftState)
    → req.prev_log_index ≡ pos k
    → is_mismatch req t ≡ ok false
    → (f : LogEntry) × (get_elem? t.log k ≡ some f) × (f.term ≡ req.prev_log_term)
unfolding is_mismatch
match_entry k req t index h = elim (Option-cases (get_elem? t.log k)) [
  | inl no_entry ↦ absurd (ground (arith, index, no_entry, h))
  | inr (f, there) ↦ (f, there, ground (arith, index, there, h, eq_ℤ_iff f.term req.prev_log_term))
]

-- The entries in front of those that are sent are the same, if the follower finds no mismatch.
prefix-same :
    (idx m : ℕ) (s t : RaftState) (req : AppendEntriesReq)
    → m < 2 ^ 31
    → at s.matched_log_size (pos idx) ≡ ok (pos m)
    → Beat idx m s req
    → LogMatching s.log t.log
    → is_mismatch req t ≡ ok false
    → map content (take m s.log) ≡ map content (take m t.log)
prefix-same idx zero s t req small matched beat matching h = refl
prefix-same idx (suc k) s t req small matched beat matching h =
    let (e, at_s, e_term) = prev_entry idx k s req.prev_log_term small matched beat.prev_term in
    let (f, at_t, f_term) = match_entry k req t (beat.prev_index ∙ before k small) h in
    matching k e f at_s at_t (e_term ∙ sym f_term)

-- What the follower has afterwards.
pub record Follows (s t : RaftState) : Type 0 where
  pub term : t.current_term ≡ s.current_term
  pub log : map content (take (length s.log) t.log) ≡ map content s.log
  pub commit : t.commit_index ≡ s.commit_index

-- A log in two parts.
joined :
    (m : ℕ) (a b c : List LogEntry)
    → m ≤ length a
    → take m b ≡ take m c
    → map content (take m a) ≡ map content (take m c)
    → map content (take (length (map message_entry (drop m a))) (drop m b))
      ≡ map message_entry (drop m a)
    → map content (take (length a) b) ≡ map content a
joined m a b c inside kept same copied =
    let rest = length (map message_entry (drop m a)) in
    let size : m + rest ≡ length a =
      omega (arith, length-map message_entry (drop m a), add-length-drop m a inside) in
    ap (λ n. map content (take n b)) (sym size)
    ∙ ap (map content) (take-add m rest b)
    ∙ map-append content (take m b) (take rest (drop m b))
    ∙ ap₂ ◌++◌ (ap (map content) kept ∙ sym same) copied
    ∙ sym (map-append content (take m a) (drop m a))
    ∙ ap (map content) (take-append-drop m a)

-- When a follower answers the heart beat of a leader with success, its log begins with the whole
-- log of the leader, in term, index, command and id, and its term and commit index are the
-- leader's. This holds if the two logs have Raft's log matching property beforehand, both are
-- shorter than 2^31 entries, and the leader's count of matched entries for the follower is a
-- position in the leader's log.
pub heart_beat-Follows :
    (server_id : ℤ) (idx m : ℕ) (s t : RaftState) {req : AppendEntriesReq} {t' : RaftState}
    {rsp : AppendEntriesRsp}
    → at s.matched_log_size (pos idx) ≡ ok (pos m)
    → m ≤ length s.log
    → length s.log < 2 ^ 31
    → length t.log < 2 ^ 31
    → LogMatching s.log t.log
    → heart_beat server_id idx s ≡ ok req
    → answer req t ≡ ok (t', rsp)
    → rsp.success ≡ true
    → Follows s t'
unfolding hear_leader
heart_beat-Follows server_id idx m s t {req} {t'} matched inside small small' matching sent answered
      success =
    let beat = heart_beat-Beat server_id idx m s req matched sent in
    let consistent =
      subst (λ es. IsConsistent es (drop m t.log)) (sym beat.entries)
        (entries-IsConsistent (drop m s.log) (drop m t.log)
          (matching-Pointwise s.log t.log m matching)) in
    let done =
      answer-Replicated req t m small'
        (subst InRange (sym beat.prev_index) (int32-InRange (pos m -ℤ pos 1)))
        (ap (λ i. add_int i (pos 1)) beat.prev_index ∙ after_before m (omega arith)) consistent
        answered success in
    let (_, no_mismatch, _) = answer-success req t answered success in
    let same =
      prefix-same idx m s (hear_leader req t) req (omega arith) matched beat matching no_mismatch in
    record {
      term = done.current ∙ beat.term;
      log = joined m s.log t'.log t.log inside done.prefix same (rw beat.entries at done.copied);
      commit = done.commit ∙ beat.commit;
    }
