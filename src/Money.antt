-- ===== src/Money.antt =====
-- The sum of a balance table modulo 2 ^ 32, in which the `int` arithmetic of the server is exact.
use raft_2pc_database.Prelude.{
  ℕ, ◌+◌, ◌<◌, residue--ℤ, residue-+ℤ, ap, ◌%◌, ◌^◌, ℤ, pos, ◌+ℤ◌, ◌-ℤ◌, residue, residue-int32,
  add_int, sub_int, [], ◌∷◌, ◌≡◌, arith, eq_ℤ, Bool-cases, inl, inr,
}
use raft_2pc_database.Prelude.Table.{Table, lookup, insert, value, touch, value-cons, touch-eq}

pub total : Table ℤ → ℕ
total [] = 0
total ((k, v) ∷ tb) = (residue v + total tb) % 2 ^ 32

-- The step of `total-insert`: residues and totals are just numbers.
total_step :
    (v w old rest rest' : ℕ)
    → (rest' + old) % 2 ^ 32 ≡ (rest + v) % 2 ^ 32
    → ((w + rest') % 2 ^ 32 + old) % 2 ^ 32 ≡ ((w + rest) % 2 ^ 32 + v) % 2 ^ 32
total_step v w old rest rest' h = omega arith

total_swap :
    (v w rest : ℕ) → ((v + rest) % 2 ^ 32 + w) % 2 ^ 32 ≡ ((w + rest) % 2 ^ 32 + v) % 2 ^ 32
total_swap v w rest = omega arith

pub total-insert :
    (k v : ℤ) (tb : Table ℤ)
    → (total (insert k v tb) + residue (value (pos 0) k tb)) % 2 ^ 32
      ≡ (total tb + residue v) % 2 ^ 32
unfolding total insert
total-insert k v [] = unfold value lookup in total_swap (residue v) 0 0
total-insert k v ((j, w) ∷ tb) = rw (value-cons (pos 0) k j w tb) (elim (Bool-cases (eq_ℤ k j)) [
  | inl same ↦ rw same (total_swap (residue v) (residue w) (total tb))
  | inr other ↦ rw other (total_step (residue v) (residue w) _ (total tb) _ (total-insert k v tb))
])

total-lt : (tb : Table ℤ) → total tb < 2 ^ 32
unfolding total
total-lt [] = omega arith
total-lt (e ∷ tb) = omega arith

-- A missing key is entered with the balance 0.
pub total-touch : (k : ℤ) (tb : Table ℤ) → total (touch (pos 0) k tb) ≡ total tb
total-touch k tb = elim (touch-eq (pos 0) k tb) [
  | inl same ↦ rw same
  | inr (entered, zero_balance) ↦ rw entered (
      omega (
        arith,
        ap residue zero_balance,
        total-insert k (pos 0) tb,
        total-lt tb,
        total-lt (insert k (pos 0) tb),
      ))
]

residue-sub_int : (a b : ℤ) → (residue (sub_int a b) + residue b) % 2 ^ 32 ≡ residue a
residue-sub_int a b = rw (residue-int32 (a -ℤ b)) (residue--ℤ a b)

residue-add_int : (a b : ℤ) → residue (add_int a b) ≡ (residue a + residue b) % 2 ^ 32
residue-add_int a b = rw (residue-int32 (a +ℤ b)) (residue-+ℤ a b)

-- A debit lowers the sum, a credit raises it.
pub total-debit :
    (k a : ℤ) (tb : Table ℤ)
    → (total (insert k (sub_int (value (pos 0) k tb) a) tb) + residue a) % 2 ^ 32 ≡ total tb
total-debit k a tb = omega (
  arith,
  total-insert k (sub_int (value (pos 0) k tb) a) tb,
  residue-sub_int (value (pos 0) k tb) a,
  total-lt tb,
)

pub total-credit :
    (k a : ℤ) (tb : Table ℤ)
    → total (insert k (add_int (value (pos 0) k tb) a) tb) ≡ (total tb + residue a) % 2 ^ 32
total-credit k a tb = omega (
  arith,
  total-insert k (add_int (value (pos 0) k tb) a) tb,
  residue-add_int (value (pos 0) k tb) a,
  total-lt (insert k (add_int (value (pos 0) k tb) a) tb),
)
