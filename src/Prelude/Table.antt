-- ===== src/Prelude/Table.antt =====
-- `std::unordered_map<int, V>`: an association list without repeated keys. `operator[]` inserts
-- a default value where the key is missing, also when it is only read.
use mathlib.Core.Path.{◌≡◌, refl}
use mathlib.Core.Logic.{◌⊎◌}
use mathlib.Core.List.{List, [], ◌∷◌}
use mathlib.Core.Option.{Option, none, some}
use native.Mathlib.Omega.{arith}
use raft_2pc_database.Prelude.Tests.{if◌then◌else◌}
use raft_2pc_database.Prelude.Int.{ℤ, eq_ℤ, eq_ℤ_iff}

abbrev pub Table {ℓ} : Type ℓ → Type ℓ
Table V = List (ℤ × V)

module _ {ℓ} {V : Type ℓ} where
  -- `find`
  unfoldable pub lookup : ℤ → Table V → Option V
  lookup k [] = none
  lookup k ((j, v) ∷ t) = if eq_ℤ k j then some v else lookup k t

  -- `t[k] = v`
  unfoldable pub insert : ℤ → V → Table V → Table V
  insert k v [] = (k, v) ∷ []
  insert k v ((j, w) ∷ t) = if eq_ℤ k j then (k, v) ∷ t else (j, w) ∷ insert k v t

  -- The value that `t[k]` refers to, where `d` is the default.
  unfoldable pub value : V → ℤ → Table V → V
  unfolding lookup
  value d k t = elim (lookup k t) [ none ↦ d | some v ↦ v ]

  -- The table after `t[k]` has been evaluated.
  unfoldable pub touch : V → ℤ → Table V → Table V
  unfolding lookup insert
  touch d k t = elim (lookup k t) [ none ↦ insert k d t | some v ↦ t ]

  pub lookup-insert :
      (j k : ℤ) (v : V) (t : Table V)
      → lookup j (insert k v t) ≡ (if eq_ℤ j k then some v else lookup j t)
  unfolding lookup insert
  lookup-insert j k v [] = refl
  lookup-insert j k v ((i, w) ∷ t) =
      ground (arith, eq_ℤ_iff j k, eq_ℤ_iff k i, eq_ℤ_iff j i, lookup-insert j k v t)

  pub value-insert :
      (d : V) (j k : ℤ) (v : V) (t : Table V)
      → value d j (insert k v t) ≡ (if eq_ℤ j k then v else value d j t)
  unfolding value
  value-insert d j k v t = ground (arith, lookup-insert j k v t)

  -- Reading a key changes no value.
  pub value-touch : (d : V) (j k : ℤ) (t : Table V) → value d j (touch d k t) ≡ value d j t
  unfolding value touch
  value-touch d j k t = ground (arith, lookup-insert j k d t, eq_ℤ_iff j k)

  pub value-cons :
      (d : V) (k j : ℤ) (v : V) (t : Table V)
      → value d k ((j, v) ∷ t) ≡ (if eq_ℤ k j then v else value d k t)
  unfolding value lookup
  value-cons d k j v t = ground arith

  pub touch-eq :
      (d : V) (k : ℤ) (t : Table V)
      → (touch d k t ≡ t) ⊎ ((touch d k t ≡ insert k d t) × (value d k t ≡ d))
  unfolding touch value
  touch-eq d k t = ground arith
