-- ===== src/Start/Console.antt =====
-- The loop of `cmd` over the standard input (server/main.cpp).
pub mod Lines
use raft_2pc_database.Prelude.{
  ℕ, zero, suc, ◌<◌, ◌≤◌, ◌==◌, List, [], ◌∷◌, length, Option, none, some, if◌then◌else◌, codes,
  eq_bytes, ◌≡◌, arith, ◌⊎◌, inl, inr, Option-cases, Bool-cases,
}
use raft_2pc_database.Command.Scan.{is_space, skip_space}

-- A word of at most `width` bytes, and what follows it.
abbrev pub take_word : ℕ → List ℕ → List ℕ × List ℕ
take_word zero s = ([], s)
take_word (suc width) [] = ([], [])
take_word (suc width) (c ∷ s) =
    let (word, rest) = take_word width s in if is_space c then ([], c ∷ s) else (c ∷ word, rest)

-- `scanf("%19s", command)`; `none` is the end of the input.
unfoldable pub scan_command : List ℕ → Option (List ℕ × List ℕ)
scan_command s = elim (skip_space s) [ [] ↦ none | c ∷ rest ↦ some (take_word 19 (c ∷ rest)) ]

-- `while (std::getchar() != '\n')`, which does not end at the end of the input.
unfoldable pub discard_line : List ℕ → Option (List ℕ)
discard_line [] = none
discard_line (c ∷ s) = if c == 10 then some s else discard_line s

-- How the loop ends: with `exit`, or never, in the loop that waits for a newline.
pub data CommandLine : Type 0 where
  exits : CommandLine
  hangs : CommandLine
  out_of_fuel : CommandLine

unfoldable pub cmd : ℕ → List ℕ → CommandLine
unfolding scan_command discard_line
cmd zero input = CommandLine.out_of_fuel
cmd (suc fuel) input = elim (scan_command input) [
  | none ↦ CommandLine.hangs
  | some (command, rest) ↦
      if eq_bytes command (codes "exit")
      then CommandLine.exits
      else elim (discard_line rest) [ none ↦ CommandLine.hangs | some next ↦ cmd fuel next ]
]

length-skip_space : (s : List ℕ) → length (skip_space s) ≤ length s
length-skip_space [] = omega arith
length-skip_space (c ∷ s) = ground (arith, length-skip_space s)

length-take_word : (width : ℕ) (s : List ℕ) → length ((take_word width s).1) ≤ length s
length-take_word zero s = omega arith
length-take_word (suc width) [] = omega arith
length-take_word (suc width) (c ∷ s) = ground (arith, length-take_word width s)

pub length-scan_command :
    (input command rest : List ℕ)
    → scan_command input ≡ some (command, rest)
    → length rest ≤ length input
unfolding scan_command
length-scan_command input command rest h =
    ground (arith, h, length-skip_space input, length-take_word 19 (skip_space input))

pub length-discard_line : (s next : List ℕ) → discard_line s ≡ some next → length next < length s
unfolding discard_line
length-discard_line [] next h = cc
length-discard_line (c ∷ s) next h = ground (arith, length-discard_line s next)
