-- ===== src/AppendEntries/Commit.antt =====
-- What a leader does to its state when it applies a committed intra-shard entry.
use raft_2pc_database.Prelude.{
  ℕ, ℤ, pos, negsuc, add_int, sub_int, refl, minus_one, false, ◌≡◌, arith, ap, ◌∙◌, eq_ℤ, ◌||◌,
  ◌&&◌, ◌+ℤ◌, ◌-ℤ◌, int32_of_InRange, Bool-cases, inl, inr, true, sym, subst, eq_ℤ_iff,
  if◌then◌else◌, ok, InRange, some,
}
use raft_2pc_database.Prelude.Table.{Table, value, insert, value-insert}
use raft_2pc_database.Message.{IntraShardResultType, WrapperMessage}
use raft_2pc_database.Command.Format.{Fmt, pays}
use raft_2pc_database.Command.Scan.{scan_pays, is_cross_shard}
use raft_2pc_database.Command.RoundTrip.{scan_pays-pays, is_cross_shard-pays}
use raft_2pc_database.RaftState.{LogEntry}
use raft_2pc_database.IntraShard.Admission.{balance}
use raft_2pc_database.World.{World, respond, with_raft}
use raft_2pc_database.AppendEntries.Follower.{transfer}
use raft_2pc_database.AppendEntries.Leader.{finish_entry, finish_intra, respond_waiting, unlock}

-- `SUCCESS` for the transaction of a log entry.
abbrev pub success_rsp : LogEntry → WrapperMessage
success_rsp e =
    WrapperMessage.intra_shard_rsp (record { result = IntraShardResultType.success; id = e.id })

-- The balance of an item after a payment: exact, so that nothing wraps around. A payment to
-- oneself changes nothing.
abbrev pub paid : ℤ → ℤ → ℤ → ℤ → ℤ → ℤ
paid sender receiver amount k b =
    if eq_ℤ k sender && eq_ℤ k receiver
    then b
    else if eq_ℤ k receiver
    then b +ℤ amount
    else if eq_ℤ k sender
    then b -ℤ amount
    else b

-- The state after an intra-shard entry has been applied by the leader.
pub record Applied (sender receiver amount : ℤ) (e : LogEntry) (w w' : World) : Type 0 where
  pub moved : (k : ℤ) → balance k w'.raft ≡ paid sender receiver amount k (balance k w.raft)
  pub unlocked :
      (k : ℤ)
      → value false k w'.raft.local_lock
        ≡ (if eq_ℤ k receiver || eq_ℤ k sender then false else value false k w.raft.local_lock)
  pub answered :
      w'.calls
      ≡ (if eq_ℤ e.req_fd minus_one then w.calls else (respond e.req_fd (success_rsp e) w).calls)

and_back : (b amount : ℤ) → (b -ℤ amount) +ℤ amount ≡ b
unfolding ◌-ℤ◌ ◌+ℤ◌
and_back b amount = ground arith

between : (b amount : ℤ) → InRange (b -ℤ amount) → InRange (b +ℤ amount) → InRange b
unfolding ◌-ℤ◌ ◌+ℤ◌
between (pos n) (pos m) low high = ground arith
between (pos n) (negsuc m) low high = ground arith
between (negsuc n) (pos m) low high = ground arith
between (negsuc n) (negsuc m) low high = ground arith

-- The two updates, one behind the other.
transfer-value :
    (sender receiver amount : ℤ) (tb : Table ℤ) (k : ℤ)
    → let before = λ (i : ℤ). value (pos 0) i tb in
      let less = sub_int (before sender) amount in
      value (pos 0) k (transfer sender receiver amount tb) ≡ (
        if eq_ℤ k receiver
        then add_int (if eq_ℤ receiver sender then less else before receiver) amount
        else if eq_ℤ k sender
        then less
        else before k)
unfolding transfer
transfer-value sender receiver amount tb k =
    let less = sub_int (value (pos 0) sender tb) amount in
    rw
      (
        value-insert (pos 0) receiver sender less tb,
        value-insert (pos 0) k receiver
            (add_int (if eq_ℤ receiver sender then less else value (pos 0) receiver tb) amount)
            (insert sender less tb),
        value-insert (pos 0) k sender less tb,
      )
      refl

-- Equal items have equal balances, so the two updates agree with the payment.
updated-paid :
    (sender receiver amount k of_sender of_receiver b : ℤ)
    → (k ≡ sender → b ≡ of_sender)
    → (k ≡ receiver → b ≡ of_receiver)
    → InRange (of_sender -ℤ amount)
    → InRange (of_receiver +ℤ amount)
    → let less = sub_int of_sender amount in
      (if eq_ℤ k receiver
        then add_int (if eq_ℤ receiver sender then less else of_receiver) amount
        else if eq_ℤ k sender
        then less
        else b)
      ≡ paid sender receiver amount k b
updated-paid sender receiver amount k of_sender of_receiver b at_sender at_receiver low high =
    let less = int32_of_InRange (of_sender -ℤ amount) low in
    let more = int32_of_InRange (of_receiver +ℤ amount) high in
    elim (Bool-cases (eq_ℤ k receiver)) [
      | inl gains ↦
          let is_receiver = (eq_ℤ_iff k receiver).0 gains in
          let same = at_receiver is_receiver in
          elim (Bool-cases (eq_ℤ receiver sender)) [
            | inl oneself ↦
                let pays : eq_ℤ k sender ≡ true = ap (λ i. eq_ℤ i sender) is_receiver ∙ oneself in
                let same_too = at_sender ((eq_ℤ_iff k sender).0 pays) in
                let range =
                  between of_sender amount low
                    (subst (λ v. InRange (v +ℤ amount)) (sym same ∙ same_too) high) in
                rw
                  (
                    gains,
                    oneself,
                    pays,
                    less,
                    and_back of_sender amount,
                    int32_of_InRange of_sender range,
                  )
                  (sym same_too)
            | inr other ↦
                let not_sender : eq_ℤ k sender ≡ false =
                  ap (λ i. eq_ℤ i sender) is_receiver ∙ other in
                rw (gains, other, not_sender, more) (ap (λ v. v +ℤ amount) (sym same))
          ]
      | inr not_receiver ↦ elim (Bool-cases (eq_ℤ k sender)) [
        | inl pays ↦
            let same = at_sender ((eq_ℤ_iff k sender).0 pays) in
            rw (not_receiver, pays, less) (ap (λ v. v -ℤ amount) (sym same))
        | inr neither ↦ rw (not_receiver, neither) refl
      ]
    ]

-- The balances after both updates, if neither leaves the range of int.
transfer-paid :
    (sender receiver amount : ℤ) (tb : Table ℤ) (k : ℤ)
    → InRange (value (pos 0) sender tb -ℤ amount)
    → InRange (value (pos 0) receiver tb +ℤ amount)
    → value (pos 0) k (transfer sender receiver amount tb)
      ≡ paid sender receiver amount k (value (pos 0) k tb)
transfer-paid sender receiver amount tb k low high =
    transfer-value sender receiver amount tb k
    ∙ updated-paid sender receiver amount k _ _ _ (ap (λ i. value (pos 0) i tb))
        (ap (λ i. value (pos 0) i tb)) low high

abbrev applied_world : ℕ → LogEntry → World → ℤ → ℤ → ℤ → World
applied_world idx e w sender receiver amount = respond_waiting idx e (success_rsp e) (
    with_raft
      (record w.raft {
        local_balance_tb = transfer sender receiver amount w.raft.local_balance_tb;
        local_lock = unlock sender receiver w.raft.local_lock;
      })
      w)

finish_intra-applied_world :
    (idx : ℕ) (e : LogEntry) (w : World) (sender receiver amount : ℤ)
    → scan_pays e.command ≡ some (sender, receiver, amount)
    → finish_intra idx e w ≡ ok (applied_world idx e w sender receiver amount)
unfolding finish_intra
finish_intra-applied_world idx e w sender receiver amount scanned = rw scanned

applied_world-tb :
    (idx : ℕ) (e : LogEntry) (w : World) (sender receiver amount : ℤ)
    → (applied_world idx e w sender receiver amount).raft.local_balance_tb
      ≡ transfer sender receiver amount w.raft.local_balance_tb
unfolding respond_waiting
applied_world-tb idx e w sender receiver amount = ground arith

applied_world-Applied :
    (idx : ℕ) (e : LogEntry) (w : World) (sender receiver amount : ℤ)
    → InRange (balance sender w.raft -ℤ amount)
    → InRange (balance receiver w.raft +ℤ amount)
    → Applied sender receiver amount e w (applied_world idx e w sender receiver amount)
unfolding respond_waiting unlock
applied_world-Applied idx e w sender receiver amount low high = record {
  moved = λ k.
      ap (value (pos 0) k) (applied_world-tb idx e w sender receiver amount)
      ∙ transfer-paid sender receiver amount w.raft.local_balance_tb k low high;
  unlocked = λ k. ground (
    arith,
    value-insert false k receiver false (insert sender false w.raft.local_lock),
    value-insert false k sender false w.raft.local_lock,
  );
  answered = ground arith;
}

-- A leader that commits an intra-shard entry whose command was printed from three numbers in the
-- range of int takes exactly the amount from the balance of the sender, adds exactly the amount
-- to the balance of the receiver, and leaves every other balance as it is, and all of them where
-- the sender is the receiver; it unlocks these two items and no other, and answers SUCCESS to
-- the client if one waits. This holds if the sender's balance less the amount and the receiver's
-- balance and the amount are in the range of int; then the handler ends with a result.
pub finish_entry-Applied :
    (fmt : Fmt) (idx : ℕ) (e : LogEntry) (w : World) (sender receiver amount : ℤ)
    → InRange sender
    → InRange receiver
    → InRange amount
    → InRange (balance sender w.raft -ℤ amount)
    → InRange (balance receiver w.raft +ℤ amount)
    → e.command ≡ pays fmt sender receiver amount
    → (w' : World) × (finish_entry idx e w ≡ ok w') × Applied sender receiver amount e w w'
unfolding finish_entry
finish_entry-Applied fmt idx e w sender receiver amount hs hr ha low high printed =
    let intra = ap is_cross_shard printed ∙ is_cross_shard-pays fmt sender receiver amount in
    let scanned = ap scan_pays printed ∙ scan_pays-pays fmt sender receiver amount hs hr ha in
    (
      applied_world idx e w sender receiver amount,
      rw intra (finish_intra-applied_world idx e w sender receiver amount scanned),
      applied_world-Applied idx e w sender receiver amount low high,
    )
