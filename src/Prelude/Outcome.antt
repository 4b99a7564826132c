-- ===== src/Prelude/Outcome.antt =====
-- How a piece of the server ends: with a value, by `exit`, or in undefined behaviour, such as a
-- vector read out of bounds or an uninitialised variable.
use Prim.Native.Nat.{ℕ}
use mathlib.Core.Path.{◌≡◌, refl}
use mathlib.Core.List.{List}
use mathlib.Core.Option.{Option, none, some}
use raft_2pc_database.Prelude.Int.{ℤ, pos, negsuc}
use mathlib.Core.Bool.{Bool, true, false}
use raft_2pc_database.Prelude.Tests.{if◌then◌else◌}
use raft_2pc_database.Prelude.Lists.{get_elem?}

pub data Result {ℓ} (A : Type ℓ) : Type ℓ where
  ok : A → Result A
  exited : ℕ → Result A
  undefined : Result A

infixl 5 ◌>>=◌
abbrev pub ◌>>=◌ {ℓ κ} : {A : Type ℓ} {B : Type κ} → Result A → (A → Result B) → Result B
ok a >>= f = f a
exited n >>= f = exited n
undefined >>= f = undefined

abbrev pub or_undefined {ℓ} : {A : Type ℓ} → Option A → Result A
or_undefined none = undefined
or_undefined (some a) = ok a

-- `v[i]` on a vector.
abbrev pub at {ℓ} : {A : Type ℓ} → List A → ℤ → Result A
at xs (pos n) = or_undefined (get_elem? xs n)
at xs (negsuc _) = undefined

-- A chain that ends with a value: what its first piece gave, and what the others made of it.
module _ {ℓ κ} {A : Type ℓ} {B : Type κ} where
  pub >>=-eq-ok :
      (piece : Result A) (others : A → Result B) {result : B}
      → (piece >>= others) ≡ ok result
      → (a : A) × (piece ≡ ok a) × (others a ≡ ok result)
  >>=-eq-ok (ok value) others e = (value, refl, e)
  >>=-eq-ok (exited status) others e = cc
  >>=-eq-ok undefined others e = cc

pub ok-injective {ℓ} : {A : Type ℓ} {a b : A} → ◌≡◌ {A = Result A} (ok a) (ok b) → a ≡ b
ok-injective h = cc

-- What holds of the value, if there is one.
abbrev pub Ensures {ℓ κ} : {A : Type ℓ} → (A → Type κ) → Result A → Type κ
Ensures P (ok a) = P a
Ensures P (exited n) = Unit
Ensures P undefined = Unit

pub Ensures-bind {ℓ κ λ₁ λ₂} :
    {A : Type ℓ} {B : Type κ} (P : A → Type λ₁) (Q : B → Type λ₂) (m : Result A) (f : A → Result B)
    → Ensures P m
    → ((a : A) → P a → Ensures Q (f a))
    → Ensures Q (m >>= f)
Ensures-bind P Q (ok a) f h k = k a h
Ensures-bind P Q (exited n) f h k = tt
Ensures-bind P Q undefined f h k = tt

pub Ensures-any {ℓ} : {A : Type ℓ} (m : Result A) → Ensures {A = A} (λ _. Unit {0}) m
Ensures-any (ok a) = tt
Ensures-any (exited n) = tt
Ensures-any undefined = tt

pub Ensures-ok {ℓ κ} :
    {A : Type ℓ} (P : A → Type κ) (m : Result A) {a : A} → Ensures P m → m ≡ ok a → P a
Ensures-ok P m h e = rw e at h

pub Ensures-if {ℓ κ} :
    {A : Type ℓ} (P : A → Type κ) (b : Bool) (m n : Result A)
    → Ensures P m
    → Ensures P n
    → Ensures P (if b then m else n)
Ensures-if P true m n hm hn = hm
Ensures-if P false m n hm hn = hn

pub Ensures-mono {ℓ κ λ₁} :
    {A : Type ℓ} (P : A → Type κ) (Q : A → Type λ₁) (m : Result A)
    → Ensures P m
    → ((a : A) → P a → Q a)
    → Ensures Q m
Ensures-mono P Q (ok a) h k = k a h
Ensures-mono P Q (exited n) h k = tt
Ensures-mono P Q undefined h k = tt

pub Ensures-of {ℓ κ} :
    {A : Type ℓ} (P : A → Type κ) (m : Result A) → ((a : A) → m ≡ ok a → P a) → Ensures P m
Ensures-of P (ok a) k = k a refl
Ensures-of P (exited n) k = tt
Ensures-of P undefined k = tt
