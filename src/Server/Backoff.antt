-- ===== src/Server/Backoff.antt =====
-- What a leader does when a follower refuses its entries: it sends from one position earlier the
-- next time (`AppendEntriesExecutor::executeRsp`, `AIOServer::broadcast_heart_beat`).
use raft_2pc_database.Prelude.{
  ℕ, zero, suc, ◌<◌, ◌≤◌, ◌^◌, ℤ, pos, negsuc, minus_one, false, eq_ℤ_iff, sub_int, int32, ◌-ℤ◌,
  set, get_elem?, get_elem?_in_range, length, some, List, [], ◌∷◌, ok, undefined, at, ◌≡◌, refl,
  arith, ◌∙◌, ap, Option-cases, inl, inr,
}
use raft_2pc_database.Message.{AppendEntriesReq, AppendEntriesRsp}
use raft_2pc_database.Server.Replicate.{Beat, heart_beat-Beat}
use raft_2pc_database.RaftState.{RaftState, Role, prevlogindex, prevlogterm}
use raft_2pc_database.DataShard.{Json}
use raft_2pc_database.World.{World, issue, with_raft}
use raft_2pc_database.Aio.{AioCall}
use raft_2pc_database.RequestVote.{step_down}
use raft_2pc_database.AppendEntries.{execute_rsp, receive_rsp, set_matched, server_slot}
use raft_2pc_database.Server.Broadcast.{heart_beat, entries_from, peer_id}

get_elem?-set_same :
    (xs : List ℤ) (i : ℕ) (x y : ℤ) → get_elem? xs i ≡ some x → get_elem? (set xs i y) i ≡ some y
get_elem?-set_same [] i x y h = cc
get_elem?-set_same (z ∷ xs) zero x y h = refl
get_elem?-set_same (z ∷ xs) (suc i) x y h = get_elem?-set_same xs i x y h

get_of_at : (xs : List ℤ) (i : ℕ) (x : ℤ) → at xs (pos i) ≡ ok x → get_elem? xs i ≡ some x
get_of_at xs i x h = elim (Option-cases (get_elem? xs i)) [
  | inl no_entry ↦ absurd (ground (arith, no_entry, h))
  | inr (y, there) ↦ ground (arith, there, h)
]

-- The leader behind a refusal.
abbrev lowered : ℤ → ℕ → ℤ → World → World
lowered fd idx m w = issue (AioCall.close fd) (
    with_raft
      (record w.raft { matched_log_size = set w.raft.matched_log_size idx (sub_int m (pos 1)) }) w)

-- A response that refuses the entries, of the leader's own term.
pub record Refuses (rsp : AppendEntriesRsp) (s : RaftState) (idx : ℕ) (m : ℤ) : Type 0 where
  pub leads : s.role ≡ Role.leader
  pub current : rsp.term ≡ s.current_term
  pub refused : rsp.success ≡ false
  pub slot : server_slot rsp.server_id ≡ ok idx
  pub matched : at s.matched_log_size (pos idx) ≡ ok m

execute_rsp-lowered :
    (json : Json) (fd : ℤ) (rsp : AppendEntriesRsp) (w : World) (idx : ℕ) (m : ℤ)
    → Refuses rsp w.raft idx m
    → execute_rsp json fd rsp w ≡ ok (lowered fd idx m w)
unfolding execute_rsp receive_rsp set_matched step_down
execute_rsp-lowered json fd rsp w idx m r = ground (arith, r, eq_ℤ_iff rsp.term w.raft.current_term)

lowered-matched :
    (fd m : ℤ) (w : World) (idx : ℕ)
    → at w.raft.matched_log_size (pos idx) ≡ ok m
    → at (lowered fd idx m w).raft.matched_log_size (pos idx) ≡ ok (sub_int m (pos 1))
lowered-matched fd m w idx h =
    let there =
      get_elem?-set_same w.raft.matched_log_size idx m (sub_int m (pos 1))
        (get_of_at w.raft.matched_log_size idx m h) in
    ground (arith, there)

below_zero : sub_int (pos 0) (pos 1) ≡ minus_one
unfolding int32 ◌-ℤ◌
below_zero = refl

below_minus_one : sub_int minus_one (pos 1) ≡ negsuc 1
unfolding int32 ◌-ℤ◌
below_minus_one = refl

heart_beat-undefined :
    (server_id : ℤ) (idx : ℕ) (s : RaftState)
    → at s.matched_log_size (pos idx) ≡ ok minus_one
    → heart_beat server_id idx s ≡ undefined
unfolding heart_beat prevlogindex prevlogterm
heart_beat-undefined server_id idx s h = rw (h, below_minus_one) refl

-- When a refusal of the leader's own term arrives from a follower for which the count of matched
-- entries is zero already, the leader handles it, and its next heart beat for this follower is
-- undefined behaviour: it reads the log at a negative position.
pub heart_beat-execute_rsp :
    (json : Json) (fd server_id : ℤ) (rsp : AppendEntriesRsp) (w : World) (idx : ℕ)
    → Refuses rsp w.raft idx (pos 0)
    → (t : World) × (execute_rsp json fd rsp w ≡ ok t)
      × (heart_beat server_id idx t.raft ≡ undefined)
heart_beat-execute_rsp json fd server_id rsp w idx r =
    let t = lowered fd idx (pos 0) w in
    (
      t,
      execute_rsp-lowered json fd rsp w idx (pos 0) r,
      heart_beat-undefined server_id idx t.raft
          (lowered-matched fd (pos 0) w idx r.matched ∙ ap ok below_zero),
    )

below : (k : ℕ) → k < 2 ^ 31 → sub_int (pos (suc k)) (pos 1) ≡ pos k
unfolding int32 ◌-ℤ◌
below k small = ground arith

-- A heart beat from a position in the log is defined.
prevlogterm-ok :
    (s : RaftState) (idx k : ℕ)
    → k ≤ length s.log
    → length s.log < 2 ^ 31
    → at s.matched_log_size (pos idx) ≡ ok (pos k)
    → (term : ℤ) × (prevlogterm s (pos idx) ≡ ok term)
unfolding prevlogterm
prevlogterm-ok s idx zero inside small h = (minus_one, ground (arith, h))
prevlogterm-ok s idx (suc k) inside small h =
    let (e, there) = get_elem?_in_range s.log k (omega arith) in
    (e.term, ground (arith, h, there, below k (omega arith)))

heart_beat-ok :
    (server_id : ℤ) (s : RaftState) (idx k : ℕ)
    → k ≤ length s.log
    → length s.log < 2 ^ 31
    → at s.matched_log_size (pos idx) ≡ ok (pos k)
    → (req : AppendEntriesReq) × (heart_beat server_id idx s ≡ ok req)
unfolding heart_beat prevlogindex
heart_beat-ok server_id s idx k inside small h =
    let (term, t) = prevlogterm-ok s idx k inside small h in
    (
      record {
        term = s.current_term;
        leader_id = server_id;
        prev_log_index = sub_int (pos k) (pos 1);
        prev_log_term = term;
        entries = entries_from (pos k) s.log;
        commit_index = s.commit_index;
        server_id = peer_id server_id idx;
      },
      rw (t, h) refl,
    )

-- When a follower refuses the entries of a leader, in a response of the leader's own term, the
-- leader's next heart beat for this follower is defined and sends the entries from one position
-- earlier, with that position's predecessor to compare; its log stays as it is. This holds while
-- the count of matched entries for the follower is positive, at most one above the size of the
-- log, and the log is shorter than 2^31.
pub heart_beat-resends :
    (json : Json) (fd server_id : ℤ) (rsp : AppendEntriesRsp) (w : World) (idx k : ℕ)
    → Refuses rsp w.raft idx (pos (suc k))
    → k ≤ length w.raft.log
    → length w.raft.log < 2 ^ 31
    → (t : World) × (req : AppendEntriesReq) × (execute_rsp json fd rsp w ≡ ok t)
      × (heart_beat server_id idx t.raft ≡ ok req)
      × Beat idx k t.raft req
      × (t.raft.log ≡ w.raft.log)
heart_beat-resends json fd server_id rsp w idx k r inside small =
    let t = lowered fd idx (pos (suc k)) w in
    let matched =
      lowered-matched fd (pos (suc k)) w idx r.matched ∙ ap ok (below k (omega arith)) in
    let (req, sent) = heart_beat-ok server_id t.raft idx k inside small matched in
    (
      t,
      req,
      execute_rsp-lowered json fd rsp w idx (pos (suc k)) r,
      sent,
      heart_beat-Beat server_id idx k t.raft req matched sent,
      refl,
    )
