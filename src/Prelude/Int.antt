-- ===== src/Prelude/Int.antt =====
-- Signed integers over the native numbers, and the wrapping `int` of C++ (32 bits, two's
-- complement).
use Prim.Native.Nat.{ℕ, zero, suc, ◌+◌, ◌-◌, ◌%◌, ◌^◌, ◌≤◌, ◌<◌}
use mathlib.Core.Path.{◌≡◌}
use mathlib.Core.Logic.{◌↔◌}
use mathlib.Core.Bool.{Bool, true}
use native.Mathlib.Omega.{arith}
use raft_2pc_database.Prelude.Tests.{ltb, leb, ◌==◌, if◌then◌else◌}

-- `negsuc n` is -(n + 1).
pub data ℤ : Type 0 where
  pos : ℕ → ℤ
  negsuc : ℕ → ℤ

abbrev pub pos_part : ℤ → ℕ
pos_part (pos n) = n
pos_part (negsuc n) = 0

abbrev pub neg_part : ℤ → ℕ
neg_part (pos n) = 0
neg_part (negsuc n) = suc n

-- a - b, as an integer.
abbrev pub sub_ℕ : ℕ → ℕ → ℤ
sub_ℕ a b = if leb b a then pos (a - b) else negsuc (b - a - 1)

infixl 65 ◌+ℤ◌ ◌-ℤ◌
infix 50 ◌≤ℤ◌ ◌<ℤ◌
unfoldable pub ◌+ℤ◌ : ℤ → ℤ → ℤ
a +ℤ b = sub_ℕ (pos_part a + pos_part b) (neg_part a + neg_part b)

unfoldable pub ◌-ℤ◌ : ℤ → ℤ → ℤ
a -ℤ b = sub_ℕ (pos_part a + neg_part b) (neg_part a + pos_part b)

abbrev pub ◌≤ℤ◌ : ℤ → ℤ → Type 0
a ≤ℤ b = pos_part a + neg_part b ≤ pos_part b + neg_part a

abbrev pub ◌<ℤ◌ : ℤ → ℤ → Type 0
a <ℤ b = pos_part a + neg_part b < pos_part b + neg_part a

-- The comparisons of the source.
abbrev pub ltb_ℤ : ℤ → ℤ → Bool
ltb_ℤ a b = ltb (pos_part a + neg_part b) (pos_part b + neg_part a)

abbrev pub leb_ℤ : ℤ → ℤ → Bool
leb_ℤ a b = leb (pos_part a + neg_part b) (pos_part b + neg_part a)

abbrev pub eq_ℤ : ℤ → ℤ → Bool
eq_ℤ a b = (pos_part a + neg_part b) == (pos_part b + neg_part a)

abbrev pub minus_one : ℤ
minus_one = negsuc 0

-- The integer -n.
abbrev pub negate : ℕ → ℤ
negate zero = pos 0
negate (suc n) = negsuc n

-- The bit pattern of an integer, modulo 2 ^ 32.
abbrev pub residue : ℤ → ℕ
residue (pos n) = n % 2 ^ 32
residue (negsuc n) = 2 ^ 32 - 1 - n % 2 ^ 32

-- The `int` with a given bit pattern.
abbrev pub of_residue : ℕ → ℤ
of_residue r = if ltb r (2 ^ 31) then pos r else negsuc (2 ^ 32 - 1 - r)

-- Conversion to `int`, which every arithmetic result goes through.
unfoldable pub int32 : ℤ → ℤ
int32 z = of_residue (residue z)

abbrev pub InRange : ℤ → Type 0
InRange z = (pos_part z < 2 ^ 31) × (neg_part z ≤ 2 ^ 31)

-- `a + b` and `a - b` at type `int`.
abbrev pub add_int : ℤ → ℤ → ℤ
add_int a b = int32 (a +ℤ b)

abbrev pub sub_int : ℤ → ℤ → ℤ
sub_int a b = int32 (a -ℤ b)

pub eq_ℤ_iff : (a b : ℤ) → (eq_ℤ a b ≡ true) ↔ (a ≡ b)
eq_ℤ_iff a b = ground arith

pub eq_ℤ_refl : (a : ℤ) → eq_ℤ a a ≡ true
eq_ℤ_refl a = ground arith

pub +ℤ_parts :
    (a b : ℤ)
    → pos_part (a +ℤ b) + neg_part a + neg_part b ≡ neg_part (a +ℤ b) + pos_part a + pos_part b
unfolding ◌+ℤ◌
+ℤ_parts a b = ground arith

pub -ℤ_parts :
    (a b : ℤ)
    → pos_part (a -ℤ b) + neg_part a + pos_part b ≡ neg_part (a -ℤ b) + pos_part a + neg_part b
unfolding ◌-ℤ◌
-ℤ_parts a b = ground arith

pub eq_of_parts : (a b : ℤ) → pos_part a + neg_part b ≡ pos_part b + neg_part a → a ≡ b
eq_of_parts a b h = ground arith

pub ruleset int_laws = (arith, +ℤ_parts, -ℤ_parts, eq_of_parts)

pub int32-InRange : (z : ℤ) → InRange (int32 z)
unfolding int32
int32-InRange (pos n) = ground arith
int32-InRange (negsuc n) = ground arith

pub int32_of_InRange : (z : ℤ) → InRange z → int32 z ≡ z
unfolding int32
int32_of_InRange (pos n) h = ground arith
int32_of_InRange (negsuc n) h = ground arith

pub residue-int32 : (z : ℤ) → residue (int32 z) ≡ residue z
unfolding int32
residue-int32 (pos n) = ground arith
residue-int32 (negsuc n) = ground arith

pub residue-+ℤ : (a b : ℤ) → residue (a +ℤ b) ≡ (residue a + residue b) % 2 ^ 32
unfolding ◌+ℤ◌
residue-+ℤ a b = ground arith

pub residue-lt : (z : ℤ) → residue z < 2 ^ 32
residue-lt (pos n) = omega arith
residue-lt (negsuc n) = omega arith

-- The rounds of `for (int i = lo; i <= hi; i++)`.
abbrev pub rounds : ℤ → ℤ → ℕ
rounds lo hi = pos_part hi + neg_part lo + 1 - (pos_part lo + neg_part hi)

pub residue--ℤ : (a b : ℤ) → (residue (a -ℤ b) + residue b) % 2 ^ 32 ≡ residue a
unfolding ◌-ℤ◌
residue--ℤ a b = ground arith

pub add_int-pos_one : (n : ℕ) → suc n < 2 ^ 31 → add_int (pos n) (pos 1) ≡ pos (suc n)
unfolding ◌+ℤ◌
add_int-pos_one n small =
    let sum : pos n +ℤ pos 1 ≡ pos (suc n) = ground arith in
    rw sum (int32_of_InRange (pos (suc n)) (small, omega arith))
