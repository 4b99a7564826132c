-- ===== src/AppendEntries/StateMachine.antt =====
-- What a replica promises: its balances are what the committed commands make of the balances it
-- started with. The abstract state is a function from items to balances; it forgets which entries a
-- table has, and the requests that wait in the log.
use raft_2pc_database.Prelude.{
  ℕ, zero, suc, ◌+◌, ℤ, pos, if◌then◌else◌, eq_ℤ, add_int, sub_int, List, [], ◌∷◌, ◌++◌, map, take,
  drop, get_elem?, none, some, ◌≡◌, refl, ap, arith, rounds, Bool-cases, Option-cases, inl, inr, ok,
  at, take-add, sym, ◌∙◌, minus_one, ◌≤◌, ◌<◌, ◌^◌, ◌≤ℤ◌, ◌<ℤ◌, ◌+ℤ◌, int32, negsuc,
}
use mathlib.Core.Path.{fun_ext}
use raft_2pc_database.Prelude.Table.{Table, value, insert, value-insert}
use raft_2pc_database.Command.Scan.{scan_pays, is_cross_shard}
use raft_2pc_database.RaftState.{RaftState, LogEntry}
use raft_2pc_database.AppendEntries.Follower.{transfer, commit_entry}

abbrev pub Balances : Type 0
Balances = ℤ → ℤ

-- The balances of a table.
abbrev pub view : Table ℤ → Balances
view tb k = value (pos 0) k tb

-- A payment between two items.
abbrev pub move : ℤ → ℤ → ℤ → Balances → Balances
move sender receiver amount b =
    let paid : Balances = λ k. if eq_ℤ k sender then sub_int (b sender) amount else b k in
    λ k. if eq_ℤ k receiver then add_int (paid receiver) amount else paid k

-- One command: the payment that it names, if it is an intra-shard one.
unfoldable pub apply_command : List ℕ → Balances → Balances
apply_command command b = if is_cross_shard command then b else elim (scan_pays command) [
  | none ↦ b
  | some (sender, receiver, amount) ↦ move sender receiver amount b
]

-- The commands in their order.
unfoldable pub replay : List (List ℕ) → Balances → Balances
unfolding apply_command
replay [] b = b
replay (command ∷ commands) b = replay commands (apply_command command b)

-- The commands of a log up to a commit index.
abbrev pub commands : List LogEntry → List (List ℕ)
commands log = map (λ (e : LogEntry). e.command) log

abbrev pub committed_size : ℤ → ℕ
committed_size commit_index = rounds (pos 0) commit_index

abbrev pub committed_commands : RaftState → List (List ℕ)
committed_commands s = take (committed_size s.commit_index) (commands s.log)

-- The balances of a replica are those of the abstract state machine.
abbrev pub Mirrors : Balances → RaftState → Type 0
Mirrors start s = view s.local_balance_tb ≡ replay (committed_commands s) start

pub view-transfer :
    (sender receiver amount : ℤ) (tb : Table ℤ)
    → view (transfer sender receiver amount tb) ≡ move sender receiver amount (view tb)
unfolding transfer
view-transfer sender receiver amount tb = fun_ext λ k.
    let paid = insert sender (sub_int (value (pos 0) sender tb) amount) tb in
    let credit = add_int (value (pos 0) receiver paid) amount in
    ground (
      arith,
      value-insert (pos 0) k receiver credit paid,
      value-insert (pos 0) k sender (sub_int (value (pos 0) sender tb) amount) tb,
      value-insert (pos 0) receiver sender (sub_int (value (pos 0) sender tb) amount) tb,
    )

pub view-commit_entry :
    (e : LogEntry) (tb tb' : Table ℤ)
    → commit_entry e tb ≡ ok tb'
    → view tb' ≡ apply_command e.command (view tb)
unfolding commit_entry apply_command
view-commit_entry e tb tb' h = elim (Bool-cases (is_cross_shard e.command)) [
  | inl cross ↦ ground (arith, cross, h)
  | inr intra ↦ elim (Option-cases (scan_pays e.command)) [
    | inl unread ↦ absurd (ground (arith, intra, unread, h))
    | inr ((sender, receiver, amount), read) ↦
        ground (arith, intra, read, h, view-transfer sender receiver amount tb)
  ]
]

pub replay-append :
    (xs ys : List (List ℕ)) (b : Balances) → replay (xs ++ ys) b ≡ replay ys (replay xs b)
unfolding replay
replay-append [] ys b = refl
replay-append (x ∷ xs) ys b = replay-append xs ys (apply_command x b)

-- The commands behind a position.
pub drop-commands :
    (log : List LogEntry) (n : ℕ) (e : LogEntry)
    → get_elem? log n ≡ some e
    → drop n (commands log) ≡ e.command ∷ drop (suc n) (commands log)
drop-commands [] n e h = cc
drop-commands (x ∷ log) zero e h = ground arith
drop-commands (x ∷ log) (suc n) e h = drop-commands log n e h

pub at-get_elem? :
    (log : List LogEntry) (n : ℕ) (e : LogEntry) → at log (pos n) ≡ ok e → get_elem? log n ≡ some e
at-get_elem? log n e h = elim (Option-cases (get_elem? log n)) [
  | inl none_there ↦ absurd (ground (arith, none_there, h))
  | inr (e', there) ↦ ground (arith, there, h)
]

-- The position behind a commit index.
pub add_int-committed_size :
    (z : ℤ) (bound : ℕ)
    → minus_one ≤ℤ z
    → z <ℤ pos bound
    → bound < 2 ^ 31
    → (add_int z (pos 1) ≡ pos (committed_size z)) × (committed_size z ≤ bound)
unfolding int32 ◌+ℤ◌
add_int-committed_size (pos k) bound ge lt small = (ground arith, omega arith)
add_int-committed_size (negsuc zero) bound ge lt small = (ground arith, omega arith)
add_int-committed_size (negsuc (suc k)) bound ge lt small = absurd (ground arith)

pub rounds-committed_size :
    (z hi : ℤ)
    → minus_one ≤ℤ z
    → z ≤ℤ hi
    → committed_size z + rounds (pos (committed_size z)) hi ≡ committed_size hi
rounds-committed_size (pos k) (pos m) ge le = omega arith
rounds-committed_size (pos k) (negsuc m) ge le = absurd (omega arith)
rounds-committed_size (negsuc k) (pos m) ge le = omega arith
rounds-committed_size (negsuc k) (negsuc m) ge le = omega arith

-- The commands up to a higher commit index are those up to the lower one and those in between.
pub replay_more :
    (start : Balances) (cs : List (List ℕ)) (z hi : ℤ)
    → minus_one ≤ℤ z
    → z ≤ℤ hi
    → replay (take (committed_size hi) cs) start
      ≡ replay
          (take (rounds (pos (committed_size z)) hi) (drop (committed_size z) cs))
          (replay (take (committed_size z) cs) start)
replay_more start cs z hi ge le =
    let n = committed_size z in
    let k = rounds (pos n) hi in
    ap (λ m. replay (take m cs) start) (sym (rounds-committed_size z hi ge le))
    ∙ ap (λ c. replay c start) (take-add n k cs)
    ∙ replay-append (take n cs) (take k (drop n cs)) start
