-- ===== src/AppendEntries/LeaderTotality.antt =====
-- When what a leader does with the answer of a follower (`executeRsp`) is defined: no read out of
-- bounds, and no variable that sscanf leaves unset.
use raft_2pc_database.Prelude.{
  ℕ, ◌%◌, ℤ, pos, true, false, ◌&&◌, length, length-set, Bool-cases, inl, inr, ◌⊎◌, ◌≡◌, refl, ◌∙◌,
  arith, eq_ℤ, leb_ℤ, ◌≤ℤ◌, add_int, sub_int, rounds, ok, get_elem?_in_range, set,
}
use raft_2pc_database.Message.{AppendEntriesRsp}
use raft_2pc_database.RaftState.{RaftState, Role}
use raft_2pc_database.DataShard.{Json, update_data_shard, update_shard}
use raft_2pc_database.World.{World, with_raft}
use raft_2pc_database.RequestVote.{step_down}
use raft_2pc_database.AppendEntries.Leader.{
  finish_entries, set_matched, server_slot, commit_coming, can_commit, count_success, receive_rsp,
  execute_rsp,
}
use raft_2pc_database.AppendEntries.Totality.{next_index, at-ok}
use raft_2pc_database.AppendEntries.Finishing.{Finished, finish_entries-Finished}
use raft_2pc_database.AppendEntries.Ready.{
  IsReady, StaysReady, StaysReady-trans, same-StaysReady, same-IsReady, Finished-StaysReady,
}

-- The commit index moves to the coming one.
committed-IsReady :
    (s : RaftState)
    → pos 0 ≤ℤ s.coming_commit_index
    → IsReady s
    → IsReady (record s { commit_index = s.coming_commit_index })
committed-IsReady s ge h = record {
  slots = h.slots;
  short = h.short;
  commit_from = omega arith;
  commit_inside = h.coming_inside;
  coming_inside = h.coming_inside;
  can_finish = h.can_finish;
}

commit_rounds-Finished :
    (w : World)
    → IsReady w.raft
    → let first = add_int w.raft.commit_index (pos 1) in
      (t : World) × (finish_entries (rounds first w.raft.coming_commit_index) first w ≡ ok t)
      × Finished w t
unfolding finish_entries
commit_rounds-Finished w h =
    let hi = w.raft.coming_commit_index in
    let (n, first, _, inside) =
      next_index w.raft.commit_index (length w.raft.log) h.commit_from h.commit_inside h.short in
    rw first (elim (Bool-cases (leb_ℤ (pos n) hi)) [
      | inl some_left ↦
          finish_entries-Finished (rounds (pos n) hi) n w
            (ground (arith, h.coming_inside, some_left)) h.short h.can_finish
      | inr none_left ↦
          let nothing : rounds (pos n) hi ≡ 0 = ground arith in
          rw nothing (finish_entries-Finished 0 n w (omega (arith, inside)) h.short h.can_finish)
    ])

module _ (json : Json) where
  update_shard-fields :
      (w : World)
      → let t = update_shard json w in
        (t.raft.matched_log_size ≡ w.raft.matched_log_size)
        × (t.raft.log ≡ w.raft.log)
        × (t.raft.commit_index ≡ w.raft.commit_index)
        × (t.raft.coming_commit_index ≡ w.raft.coming_commit_index)
  unfolding update_shard update_data_shard
  update_shard-fields w = ground arith

  update_shard-IsReady : (w : World) → IsReady w.raft → IsReady (update_shard json w).raft
  update_shard-IsReady w h =
      let (matched, log, commit, coming) = update_shard-fields w in
      same-IsReady w.raft (update_shard json w).raft matched log commit coming h

  commit_coming-IsReady :
      (w : World)
      → pos 0 ≤ℤ w.raft.coming_commit_index
      → IsReady w.raft
      → (t : World) × (commit_coming json w ≡ ok t) × StaysReady w t
  unfolding commit_coming
  commit_coming-IsReady w ge h =
      let (w₁, done, f) = commit_rounds-Finished w h in
      let stays = Finished-StaysReady w w₁ f h in
      let w₂ = update_shard json w₁ in
      let (_, log, _, coming) = update_shard-fields w₁ in
      elim (Bool-cases (eq_ℤ w₁.raft.commit_index w₁.raft.coming_commit_index)) [
        | inl there ↦ rw (done, there) (w₁, refl, stays)
        | inr behind ↦
            rw (done, behind)
              (
                _,
                refl,
                StaysReady-trans stays (
                    same-StaysReady w₁ _ log (
                      committed-IsReady w₂.raft (rw (coming, f.same_coming) ge)
                        (update_shard-IsReady w₁ stays.ready))),
              )
      ]

set_matched-IsReady :
    (n : ℕ) (f : ℤ → ℤ) (w : World)
    → IsReady w.raft
    → (t : World) × (set_matched (pos n) f w ≡ ok t) × StaysReady w t
unfolding set_matched server_slot
set_matched-IsReady n f w h =
    let sizes = w.raft.matched_log_size in
    let (m, found) = get_elem?_in_range sizes (n % 3) (omega (arith, h.slots)) in
    rw found (
      _,
      refl,
      same-StaysReady w _ refl (record {
        slots = length-set sizes (n % 3) (f m) ∙ h.slots;
        short = h.short;
        commit_from = h.commit_from;
        commit_inside = h.commit_inside;
        coming_inside = h.coming_inside;
        can_finish = h.can_finish;
      }),
    )

step_down-fields :
    (term : ℤ) (s : RaftState)
    → let t = step_down term s in
      (t.matched_log_size ≡ s.matched_log_size)
      × (t.log ≡ s.log)
      × (t.commit_index ≡ s.commit_index)
      × (t.coming_commit_index ≡ s.coming_commit_index)
unfolding step_down
step_down-fields term s = ground arith

step_down-IsReady : (term : ℤ) (s : RaftState) → IsReady s → IsReady (step_down term s)
step_down-IsReady term s h =
    let (matched, log, commit, coming) = step_down-fields term s in
    same-IsReady s (step_down term s) matched log commit coming h

can_commit-ok :
    (s : RaftState)
    → IsReady s
    → (can_commit s ≡ ok false) ⊎ ((can_commit s ≡ ok true) × (pos 0 ≤ℤ s.coming_commit_index))
unfolding can_commit
can_commit-ok s h =
    elim (Bool-cases (leb_ℤ (pos 2) s.log_granted_num && leb_ℤ (pos 0) s.coming_commit_index)) [
      | inl majority ↦
          let ge : pos 0 ≤ℤ s.coming_commit_index = ground (arith, majority) in
          let (e, found) = at-ok s.log s.coming_commit_index ge h.coming_inside in
          elim (Bool-cases (eq_ℤ e.term s.current_term)) [
            | inl own ↦ inr (rw (majority, found, own) refl, ge)
            | inr old ↦ inl (rw (majority, found, old) refl)
          ]
      | inr few ↦ inl (rw few refl)
    ]

module _ (json : Json) (rsp : AppendEntriesRsp) (n : ℕ) (from : rsp.server_id ≡ pos n) where
  count_success-IsReady :
      (w : World)
      → IsReady w.raft
      → (t : World) × (count_success json rsp w ≡ ok t) × StaysReady w t
  unfolding count_success
  count_success-IsReady w h =
      let s = record w.raft { log_granted_num = add_int w.raft.log_granted_num (pos 1) } in
      let w₁ = with_raft s w in
      let ready = same-IsReady w.raft s refl refl refl refl h in
      let coming = λ (v : World) (_ : ℤ). add_int v.raft.coming_commit_index (pos 1) in
      elim (can_commit-ok s ready) [
        | inl few ↦
            let (t, set, done) = set_matched-IsReady n (coming w₁) w₁ ready in
            rw (few, from) (t, set, StaysReady-trans (same-StaysReady w w₁ refl ready) done)
        | inr (majority, ge) ↦
            let (w₂, committed, stays) = commit_coming-IsReady json w₁ ge ready in
            let (t, set, done) = set_matched-IsReady n (coming w₂) w₂ stays.ready in
            rw (majority, committed, from)
              (
                t,
                set,
                StaysReady-trans (same-StaysReady w w₁ refl ready) (StaysReady-trans stays done),
              )
      ]

  -- The three ways of the handler, before the term of the answer is read.
  receive_rsp-cases :
      (w : World)
      → (receive_rsp json rsp w ≡ count_success json rsp w)
        ⊎ ((receive_rsp json rsp w ≡ set_matched rsp.server_id (λ m. sub_int m (pos 1)) w)
            ⊎ (receive_rsp json rsp w ≡ ok w))
  unfolding receive_rsp
  receive_rsp-cases w = by_role w.raft.role refl
    where
      by_role :
          (r : Role)
          → w.raft.role ≡ r
          → (receive_rsp json rsp w ≡ count_success json rsp w)
            ⊎ ((receive_rsp json rsp w ≡ set_matched rsp.server_id (λ m. sub_int m (pos 1)) w)
                ⊎ (receive_rsp json rsp w ≡ ok w))
      by_role r e = ground (arith, e)

  receive_rsp-IsReady :
      (w : World) → IsReady w.raft → (t : World) × (receive_rsp json rsp w ≡ ok t) × StaysReady w t
  receive_rsp-IsReady w h = elim (receive_rsp-cases w) [
    | inl counts ↦ rw counts (count_success-IsReady w h)
    | inr other ↦ elim other [
      | inl refused ↦ rw (refused, from) (set_matched-IsReady n (λ m. sub_int m (pos 1)) w h)
      | inr ignored ↦ rw ignored (w, refl, same-StaysReady w w refl h)
    ]
  ]

  -- The whole handler.
  pub execute_rsp-IsReady :
      (fd : ℤ) (w : World)
      → IsReady w.raft
      → (t : World) × (execute_rsp json fd rsp w ≡ ok t) × StaysReady w t
  unfolding execute_rsp step_down
  execute_rsp-IsReady fd w h =
      let (w₁, done, stays) = receive_rsp-IsReady w h in
      let (_, log, _, _) = step_down-fields rsp.term w₁.raft in
      let ready = step_down-IsReady rsp.term w₁.raft stays.ready in
      rw done (_, refl, StaysReady-trans stays (same-StaysReady w₁ _ log ready))
