-- ===== src/Prelude/Bytes.antt =====
-- Byte strings: lists of codes, with the literals of the source read as such.
use Prim.Native.Char.{code}
use Prim.Native.String.{String}
use Prim.Native.Nat.{ℕ}
use mathlib.Core.Path.{◌≡◌, refl}
use mathlib.Core.Bool.{Bool, true, false}
use mathlib.Core.List.{List, [], ◌∷◌}
use native.Mathlib.Omega.{arith}
use raft_2pc_database.Prelude.Tests.{◌==◌, if◌then◌else◌}

abbrev pub codes : String → List ℕ
codes String.[] = []
codes (String.◌∷◌ c s) = code c ∷ codes s

-- `==` on `std::string`.
abbrev pub eq_bytes : List ℕ → List ℕ → Bool
eq_bytes [] [] = true
eq_bytes (a ∷ s) (b ∷ t) = if a == b then eq_bytes s t else false
eq_bytes _ _ = false

pub eq_bytes_refl : (s : List ℕ) → eq_bytes s s ≡ true
eq_bytes_refl [] = refl
eq_bytes_refl (a ∷ s) = ground (arith, eq_bytes_refl s)
