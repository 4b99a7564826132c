-- ===== src/AppendEntries/LeaderReplay.antt =====
-- The commit loop of a leader replays the commands of its log (`executeRsp`).
use raft_2pc_database.Prelude.{
  ℕ, zero, suc, ◌+◌, ◌<◌, ◌^◌, pos, minus_one, true, false, List, [], ◌∷◌, set, take, drop,
  get_elem?, some, ◌≡◌, refl, ap, ◌∙◌, sym, arith, Bool-cases, Option-cases, inl, inr, ok, at,
  >>=-eq-ok, ok-injective, add_int-pos_one,
}
use raft_2pc_database.Command.Scan.{scan_pays, is_cross_shard, is_prepare}
use raft_2pc_database.RaftState.{LogEntry}
use raft_2pc_database.World.{World}
use raft_2pc_database.AppendEntries.Leader.{
  finish_entry, finish_entries, respond_waiting, finish_intra, finish_prepare,
}
use raft_2pc_database.AppendEntries.StateMachine.{
  view, replay, commands, apply_command, view-transfer, drop-commands, at-get_elem?,
}

-- A response to a waiting client changes no command.
commands-set :
    (log : List LogEntry) (i : ℕ) (e e' : LogEntry)
    → get_elem? log i ≡ some e
    → e'.command ≡ e.command
    → commands (set log i e') ≡ commands log
commands-set [] i e e' h same = refl
commands-set (x ∷ log) zero e e' h same = ground (arith, h, same)
commands-set (x ∷ log) (suc i) e e' h same = ap (◌∷◌ x.command) (commands-set log i e e' h same)

-- One entry: the commands are the same, and the balances follow the entry's command.
record Step (e : LogEntry) (w t : World) : Type 0 where
  pub same_commands : commands t.raft.log ≡ commands w.raft.log
  pub applied :
      view t.raft.local_balance_tb ≡ apply_command e.command (view w.raft.local_balance_tb)

finish_prepare-Step :
    (idx : ℕ) (e : LogEntry) (w t : World)
    → get_elem? w.raft.log idx ≡ some e
    → is_cross_shard e.command ≡ true
    → finish_prepare idx e w ≡ ok t
    → Step e w t
unfolding finish_prepare respond_waiting apply_command
finish_prepare-Step idx e w t there cross h = record {
  same_commands =
      ground (arith, h, commands-set w.raft.log idx e (record e { req_fd = minus_one }) there refl);
  applied = ground (arith, cross, h);
}

finish_intra-Step :
    (idx : ℕ) (e : LogEntry) (w t : World)
    → get_elem? w.raft.log idx ≡ some e
    → is_cross_shard e.command ≡ false
    → finish_intra idx e w ≡ ok t
    → Step e w t
unfolding finish_intra respond_waiting apply_command
finish_intra-Step idx e w t there intra h = record {
  same_commands =
      ground (arith, h, commands-set w.raft.log idx e (record e { req_fd = minus_one }) there refl);
  applied = elim (Option-cases (scan_pays e.command)) [
    | inl unread ↦ absurd (ground (arith, unread, h))
    | inr ((sender, receiver, amount), read) ↦
        ground (arith, intra, read, h, view-transfer sender receiver amount w.raft.local_balance_tb)
  ];
}

finish_entry-Step :
    (idx : ℕ) (e : LogEntry) (w t : World)
    → get_elem? w.raft.log idx ≡ some e
    → finish_entry idx e w ≡ ok t
    → Step e w t
unfolding finish_entry apply_command
finish_entry-Step idx e w t there h = elim (Bool-cases (is_cross_shard e.command)) [
  | inl cross ↦ elim (Bool-cases (is_prepare e.command)) [
    | inl prepare ↦ finish_prepare-Step idx e w t there cross (ground (arith, cross, prepare, h))
    | inr decision ↦ ground (arith, cross, decision, h)
  ]
  | inr intra ↦ finish_intra-Step idx e w t there intra (ground (arith, intra, h))
]

-- The commit loop applies the commands of its positions, in their order.
pub finish_entries-view :
    (k n : ℕ) (w t : World)
    → n + k < 2 ^ 31
    → finish_entries k (pos n) w ≡ ok t
    → (commands t.raft.log ≡ commands w.raft.log)
      × (view t.raft.local_balance_tb
          ≡ replay (take k (drop n (commands w.raft.log))) (view w.raft.local_balance_tb))
unfolding finish_entries replay
finish_entries-view zero n w t small h =
    let same : w ≡ t = ok-injective h in
    (
      ap (λ (v : World). commands v.raft.log) (sym same),
      ap (λ (v : World). view v.raft.local_balance_tb) (sym same),
    )
finish_entries-view (suc k) n w t small h =
    let (e, a, h₁) = >>=-eq-ok (at w.raft.log (pos n)) _ h in
    let (w₁, c, h₂) = >>=-eq-ok (finish_entry n e w) _ h₁ in
    let there = at-get_elem? w.raft.log n e a in
    let step = finish_entry-Step n e w w₁ there c in
    let next = rw (add_int-pos_one n (omega arith)) at h₂ in
    let (kept, applied) = finish_entries-view k (suc n) w₁ t (omega arith) next in
    (
      kept ∙ step.same_commands,
      rw (drop-commands w.raft.log n e there) (
          applied
          ∙ ap (λ cs. replay (take k (drop (suc n) cs)) (view w₁.raft.local_balance_tb))
              step.same_commands
          ∙ ap (replay (take k (drop (suc n) (commands w.raft.log)))) step.applied),
    )
