-- ===== src/Command/Scan.antt =====
-- How commands are read back: `std::sscanf` with the two formats of the executors, and the tests
-- on the first bytes of a command.
use raft_2pc_database.Prelude.{
  ℕ, ◌+◌, ◌-◌, ◌*◌, ◌==◌, leb, ◌&&◌, ◌||◌, Bool, if◌then◌else◌, ℤ, pos, int32, eq_ℤ, List, [], ◌∷◌,
  Option, none, some, take, codes, eq_bytes, negate,
}
use mathlib.Core.Option

abbrev pub is_digit : ℕ → Bool
is_digit c = leb b'0' c && leb c b'9'

-- `isspace`
abbrev pub is_space : ℕ → Bool
is_space c = c == 32 || leb 9 c && leb c 13

abbrev pub skip_space : List ℕ → List ℕ
skip_space [] = []
skip_space (c ∷ s) = if is_space c then skip_space s else c ∷ s

-- The digits at the head, as a number, and what follows them.
abbrev pub scan_digits : ℕ → List ℕ → ℕ × List ℕ
scan_digits n [] = (n, [])
scan_digits n (c ∷ s) =
    let rest = scan_digits (n * 10 + (c - b'0')) s in if is_digit c then rest else (n, c ∷ s)

abbrev pub scan_nat : List ℕ → Option (ℕ × List ℕ)
scan_nat [] = none
scan_nat (c ∷ s) = if is_digit c then some (scan_digits 0 (c ∷ s)) else none

-- A conversion whose result is no `int` is undefined behaviour.
abbrev pub to_int : ℤ × List ℕ → Option (ℤ × List ℕ)
to_int (z, s) = if eq_ℤ (int32 z) z then some (z, s) else none

abbrev pub scan_signed : List ℕ → Option (ℤ × List ℕ)
scan_signed [] = none
scan_signed (c ∷ s) =
    if c == b'-'
    then Option.map (λ r. (negate r.0, r.1)) (scan_nat s)
    else Option.map (λ r. (pos r.0, r.1)) (if c == b'+' then scan_nat s else scan_nat (c ∷ s))

-- `%d`
unfoldable pub scan_int : List ℕ → Option (ℤ × List ℕ)
unfolding Option.bind
scan_int s = Option.bind (scan_signed (skip_space s)) to_int

-- Bytes of the format that are no conversion and no white space.
abbrev pub scan_literal : List ℕ → List ℕ → Option (List ℕ)
scan_literal [] s = some s
scan_literal (l ∷ ls) [] = none
scan_literal (l ∷ ls) (c ∷ s) = if l == c then scan_literal ls s else none

-- `sscanf(c, "%d pays %d $%d", …)`. White space in a format skips white space in the text. A
-- conversion that fails leaves its variable uninitialised, and the callers go on to read all three.
unfoldable pub scan_pays : List ℕ → Option (ℤ × ℤ × ℤ)
unfolding Option.bind
scan_pays c = Option.bind (scan_int c) λ (sender, s₁).
    Option.bind (scan_literal (codes "pays") (skip_space s₁)) λ s₂.
      Option.bind (scan_int s₂) λ (receiver, s₃).
        Option.bind (scan_literal (codes "$") (skip_space s₃))
          λ s₄. Option.bind (scan_int s₄) λ (amount, s₅). some (sender, receiver, amount)

-- `sscanf(c, "[PREPARE] %d pays %d $%d", …)`
unfoldable pub scan_prepare_pays : List ℕ → Option (ℤ × ℤ × ℤ)
unfolding Option.bind
scan_prepare_pays c = Option.bind (scan_literal (codes "[PREPARE]") c) scan_pays

-- `command[0]`; the byte behind the end of a `std::string` is 0.
abbrev pub first_byte : List ℕ → ℕ
first_byte [] = 0
first_byte (c ∷ s) = c

unfoldable pub is_cross_shard : List ℕ → Bool
is_cross_shard c = first_byte c == b'['

unfoldable pub is_prepare : List ℕ → Bool
is_prepare c = eq_bytes (take 9 c) (codes "[PREPARE]")

unfoldable pub is_commit : List ℕ → Bool
is_commit c = eq_bytes (take 8 c) (codes "[COMMIT]")

unfoldable pub is_abort : List ℕ → Bool
is_abort c = eq_bytes (take 7 c) (codes "[ABORT]")
