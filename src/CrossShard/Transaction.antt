-- ===== src/CrossShard/Transaction.antt =====
-- A cross-shard transaction on its two shards (CrossShardExecutor), under any order of requests.
use raft_2pc_database.Prelude.{
  ℕ, ◌+◌, ◌%◌, ◌^◌, ℤ, true, false, Bool-cases, inl, inr, ◌≡◌, ◌≢◌, refl, arith, ◌∙◌, sym, residue,
  subst,
}
use raft_2pc_database.Message.{CrossShardReq, CrossShardPhaseType}
use raft_2pc_database.Command.Format.{Fmt}
use raft_2pc_database.DataShard.{Json, update_shard, update_data_shard}
use raft_2pc_database.RaftState.{RaftState}
use raft_2pc_database.World.{World}
use raft_2pc_database.AppendEntries.Conservation.{money}
use raft_2pc_database.CrossShard.Responses.{execute_rsp-Inert}
use raft_2pc_database.CrossShard.{
  committed, move_money, apply_commit, execute_commit, execute_req, append_entry,
}
use raft_2pc_database.CrossShard.Decision.{
  commit_logged, execute_commit_again, apply_commit-sender, apply_commit-receiver, shard_match,
  shard_differs,
}
use raft_2pc_database.CrossShard.Shards.{ShardStep, Shards, Reach}
use raft_2pc_database.CrossShard.Inert.{
  Inert, execute_prepare-Inert, execute_abort-Inert, intra_shard-Inert,
}

-- A shard since the start: without a commit it has the same money, behind it the money has moved.
record Tracks (Moved : ℕ → ℕ → Type 0) (id : ℤ) (s t : RaftState) : Type 0 where
  pub same_cluster : t.cluster_id ≡ s.cluster_id
  pub undecided : committed id t.log ≡ false → money t ≡ money s
  pub decided : committed id t.log ≡ true → Moved (money s) (money t)

Inert-Tracks :
    {Moved : ℕ → ℕ → Type 0} {id : ℤ} {s t u : RaftState}
    → Tracks Moved id s t
    → Inert id t u
    → Tracks Moved id s u
Inert-Tracks {Moved} {id} {s} {t} {u} a b = record {
  same_cluster = b.same_cluster ∙ a.same_cluster;
  undecided = λ h. b.same_money ∙ a.undecided (sym b.same_decision ∙ h);
  decided = λ h. subst (Moved (money s)) (sym b.same_money) (a.decided (sym b.same_decision ∙ h));
}

module _ (fmt : Fmt) (json : Json) (fd : ℤ) (req : CrossShardReq) (w : World) where
  execute_commit-cluster : (execute_commit fmt json fd req w).raft.cluster_id ≡ w.raft.cluster_id
  unfolding execute_commit apply_commit move_money append_entry update_shard update_data_shard
  execute_commit-cluster = ground arith

  execute_commit-first :
      committed req.id w.raft.log ≡ false
      → money (execute_commit fmt json fd req w).raft ≡ money (apply_commit fmt json req w).raft
  unfolding execute_commit
  execute_commit-first new = rw new refl

-- A request of another phase than commit.
undecided-Inert :
    (fmt : Fmt) (json : Json) (id fd : ℤ) (w : World) (p : CrossShardPhaseType) (o : CrossShardReq)
    → o.phase ≡ p
    → p ≢ CrossShardPhaseType.commit
    → Inert id w.raft (execute_req fmt json fd o w).raft
unfolding execute_req
undecided-Inert fmt json id fd w CrossShardPhaseType.prepare o e u =
    rw e (execute_prepare-Inert fmt json id fd w (record o { phase = CrossShardPhaseType.prepare }))
undecided-Inert fmt json id fd w CrossShardPhaseType.commit o e u = absurd (u refl)
undecided-Inert fmt json id fd w CrossShardPhaseType.abort o e u =
    rw e (execute_abort-Inert fmt json id fd w (record o { phase = CrossShardPhaseType.abort }))
undecided-Inert fmt json id fd w (CrossShardPhaseType.other x) o e u =
    rw e (execute_abort-Inert fmt json id fd w (record o { phase = CrossShardPhaseType.other x }))

-- A shard on which a commit moves the money of the transaction.
module _ (fmt : Fmt) (json : Json) (req : CrossShardReq) (s : RaftState) (Moved : ℕ → ℕ → Type 0)
    (moves : (p : CrossShardPhaseType) (w : World)
      → w.raft.cluster_id ≡ s.cluster_id
      → Moved
          (money w.raft)
          (money (apply_commit fmt json (record req { phase = p }) w).raft)) where
  commit-Tracks :
      (fd : ℤ) (p : CrossShardPhaseType) (w : World)
      → Tracks Moved req.id s w.raft
      → Tracks Moved req.id s (execute_commit fmt json fd (record req { phase = p }) w).raft
  commit-Tracks fd p w a =
      let again = record req { phase = p } in
      elim (Bool-cases (committed req.id w.raft.log)) [
        | inl before ↦
            subst (λ (v : World). Tracks Moved req.id s v.raft)
              (sym (execute_commit_again fmt json fd again w before)) (a)
        | inr new ↦
            let same = execute_commit-first fmt json fd again w new in
            let moved = moves p w a.same_cluster in
            record {
              same_cluster = execute_commit-cluster fmt json fd again w ∙ a.same_cluster;
              undecided = λ h. absurd (ground (arith, h, commit_logged fmt json again w fd));
              decided = λ _. rw (sym same, a.undecided new) at moved;
            }
      ]

  step-Tracks :
      {w t : World}
      → Tracks Moved req.id s w.raft
      → ShardStep fmt json req w t
      → Tracks Moved req.id s t.raft
  unfolding execute_req
  step-Tracks a (ShardStep.intra fd r w) = Inert-Tracks a (intra_shard-Inert fmt json req.id fd w r)
  step-Tracks a (ShardStep.replicate fd rsp w t done) =
      Inert-Tracks a (execute_rsp-Inert json req.id fd rsp w done)
  step-Tracks a (ShardStep.other fd o w undecided) =
      Inert-Tracks a (undecided-Inert fmt json req.id fd w o.phase o refl undecided)
  step-Tracks a (ShardStep.phase fd CrossShardPhaseType.prepare w) =
      Inert-Tracks a (execute_prepare-Inert fmt json req.id fd w _)
  step-Tracks a (ShardStep.phase fd CrossShardPhaseType.commit w) =
      commit-Tracks fd CrossShardPhaseType.commit w a
  step-Tracks a (ShardStep.phase fd CrossShardPhaseType.abort w) =
      Inert-Tracks a (execute_abort-Inert fmt json req.id fd w _)
  step-Tracks a (ShardStep.phase fd (CrossShardPhaseType.other x) w) =
      Inert-Tracks a (execute_abort-Inert fmt json req.id fd w _)

-- The sender's shard pays, the receiver's is paid.
module _ (fmt : Fmt) (json : Json) (req : CrossShardReq) (start : Shards)
    (is_sender : start.sender.raft.cluster_id ≡ req.sender_cluster_id)
    (is_receiver : start.receiver.raft.cluster_id ≡ req.receiver_cluster_id)
    (differ : req.sender_cluster_id ≢ req.receiver_cluster_id)
    (new_sender : committed req.id start.sender.raft.log ≡ false)
    (new_receiver : committed req.id start.receiver.raft.log ≡ false) where
  abbrev Paid : ℕ → ℕ → Type 0
  Paid m n = (n + residue req.amount) % 2 ^ 32 ≡ m

  abbrev Received : ℕ → ℕ → Type 0
  Received m n = n ≡ (m + residue req.amount) % 2 ^ 32

  reach-Tracks :
      {now : Shards}
      → Reach fmt json req start now
      → Tracks Paid req.id start.sender.raft now.sender.raft
        × Tracks Received req.id start.receiver.raft now.receiver.raft
  reach-Tracks Reach.begin = (
    record {
      same_cluster = refl;
      undecided = λ h. refl;
      decided = λ h. absurd (ground (arith, h, new_sender));
    },
    record {
      same_cluster = refl;
      undecided = λ h. refl;
      decided = λ h. absurd (ground (arith, h, new_receiver));
    },
  )
  reach-Tracks (Reach.at_sender r step) =
      let (paid, received) = reach-Tracks r in
      (
        step-Tracks fmt json req start.sender.raft Paid
            (λ p w same.
              apply_commit-sender fmt json (record req { phase = p }) w
                (shard_match _ _ (sym (same ∙ is_sender)))
                (shard_differs _ _ (λ e. differ (sym (e ∙ same ∙ is_sender)))))
            paid step,
        received,
      )
  reach-Tracks (Reach.at_receiver r step) =
      let (paid, received) = reach-Tracks r in
      (
        paid,
        step-Tracks fmt json req start.receiver.raft Received
            (λ p w same.
              apply_commit-receiver fmt json (record req { phase = p }) w
                (shard_differs _ _ (λ e. differ (e ∙ same ∙ is_receiver)))
                (shard_match _ _ (sym (same ∙ is_receiver))))
            received step,
      )

  -- A cross-shard transaction between two different clusters, which neither shard has committed
  -- at the start: after any sequence of events at its two shards, the sum of the balances of
  -- both shards is the one at the start, modulo 2^32, whenever both shards have committed the
  -- transaction or neither has. The events are requests of this transaction in any phase and as
  -- often as they come, requests of other transactions up to their commit, intra-shard requests,
  -- and responses of followers, on which a leader commits the entries of its log without
  -- undefined behaviour.
  pub reach_conserves :
      {now : Shards}
      → Reach fmt json req start now
      → committed req.id now.sender.raft.log ≡ committed req.id now.receiver.raft.log
      → (money now.sender.raft + money now.receiver.raft) % 2 ^ 32
        ≡ (money start.sender.raft + money start.receiver.raft) % 2 ^ 32
  reach_conserves {now} r agree =
      let (paid, received) = reach-Tracks r in
      elim (Bool-cases (committed req.id now.sender.raft.log)) [
        | inl done ↦ omega (arith, paid.decided done, received.decided (sym agree ∙ done))
        | inr not_yet ↦
            omega (arith, paid.undecided not_yet, received.undecided (sym agree ∙ not_yet))
      ]
