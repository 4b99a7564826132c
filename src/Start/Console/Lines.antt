-- ===== src/Start/Console/Lines.antt =====
-- What the command line of the parent does, said of the lines of the input (server/main.cpp).
use raft_2pc_database.Prelude.{
  ℕ, zero, suc, ◌<◌, ◌==◌, List, [], ◌∷◌, length, Option, none, some, if◌then◌else◌, codes, Bool,
  true, false, ◌||◌, eq_bytes, ◌≡◌, refl, ap, ◌∙◌, sym, arith, inl, inr, Option-cases, Bool-cases,
}
use raft_2pc_database.Command.Scan.{is_space, skip_space}
use raft_2pc_database.Start.Console.{
  take_word, scan_command, discard_line, CommandLine, cmd, length-scan_command, length-discard_line,
}

-- The bytes up to the first newline, and the lines of an input; the last one has no newline.
abbrev pub first_line : List ℕ → List ℕ
first_line [] = []
first_line (c ∷ s) = let line = first_line s in if c == 10 then [] else c ∷ line

abbrev pub extend : ℕ → List (List ℕ) → List (List ℕ)
extend c [] = (c ∷ []) ∷ []
extend c (line ∷ lines) = (c ∷ line) ∷ lines

abbrev pub lines : List ℕ → List (List ℕ)
lines [] = [] ∷ []
lines (c ∷ s) = let more = lines s in if c == 10 then [] ∷ more else extend c more

-- The bytes up to the first white space.
abbrev pub word : List ℕ → List ℕ
word [] = []
word (c ∷ s) = let more = word s in if is_space c then [] else c ∷ more

-- The first word of a line is `exit`.
abbrev pub is_exit_line : List ℕ → Bool
is_exit_line line = eq_bytes (word (skip_space line)) (codes "exit")

abbrev pub any_exit : List (List ℕ) → Bool
any_exit [] = false
any_exit (line ∷ lines) = is_exit_line line || any_exit lines

-- Some line of the input begins with the word `exit`.
abbrev pub has_exit : List ℕ → Bool
has_exit input = any_exit (lines input)

-- The first line, and what is left.
lines-first :
    (s : List ℕ)
    → lines s ≡ first_line s ∷ elim (discard_line s) [ none ↦ [] | some next ↦ lines next ]
unfolding discard_line
lines-first [] = refl
lines-first (c ∷ s) = elim (Bool-cases (c == 10)) [
  | inl newline ↦ rw (newline, discard_line) refl
  | inr other ↦ rw (other, discard_line) (ap (extend c) (lines-first s))
]

has_exit-first :
    (s : List ℕ)
    → has_exit s ≡ (
        is_exit_line (first_line s)
        || elim (discard_line s) [ none ↦ false | some next ↦ has_exit next ])
has_exit-first s = ap any_exit (lines-first s) ∙ by_rest (discard_line s)
  where
    by_rest :
        (rest : Option (List ℕ))
        → any_exit (first_line s ∷ elim rest [ none ↦ [] | some next ↦ lines next ])
          ≡ (is_exit_line (first_line s) || elim rest [ none ↦ false | some next ↦ has_exit next ])
    by_rest none = refl
    by_rest (some next) = refl

-- White space in front does not matter.
is_exit_line-space :
    (c : ℕ) (line : List ℕ) → is_space c ≡ true → is_exit_line (c ∷ line) ≡ is_exit_line line
is_exit_line-space c line space = rw space refl

has_exit-space : (c : ℕ) (s : List ℕ) → is_space c ≡ true → has_exit (c ∷ s) ≡ has_exit s
has_exit-space c s space = elim (Bool-cases (c == 10)) [
  | inl newline ↦ rw newline refl
  | inr other ↦
      let split : lines (c ∷ s) ≡ extend c (lines s) = rw other refl in
      let rest : List (List ℕ) = elim (discard_line s) [ none ↦ [] | some next ↦ lines next ] in
      ap any_exit (split ∙ ap (extend c) (lines-first s))
      ∙ ap (λ b. b || any_exit rest) (is_exit_line-space c (first_line s) space)
      ∙ ap any_exit (sym (lines-first s))
]

has_exit-skip_space : (s : List ℕ) → has_exit (skip_space s) ≡ has_exit s
has_exit-skip_space [] = refl
has_exit-skip_space (c ∷ s) = elim (Bool-cases (is_space c)) [
  | inl space ↦
      let skipped : skip_space (c ∷ s) ≡ skip_space s = rw space refl in
      ap has_exit skipped ∙ has_exit-skip_space s ∙ sym (has_exit-space c s space)
  | inr other ↦ let kept : skip_space (c ∷ s) ≡ c ∷ s = rw other refl in ap has_exit kept
]

-- A word that is taken up to a width is told from a shorter one as the whole word is.
take_word-word :
    (width : ℕ) (s t : List ℕ)
    → length t < width
    → eq_bytes ((take_word width s).0) t ≡ eq_bytes (word s) t
take_word-word zero s t lt = absurd (omega arith)
take_word-word (suc width) [] t lt = refl
take_word-word (suc width) (c ∷ s) [] lt = ground arith
take_word-word (suc width) (c ∷ s) (b ∷ t) lt =
    ground (arith, take_word-word width s t (omega arith))

word-first_line : (s : List ℕ) → word (first_line s) ≡ word s
word-first_line [] = refl
word-first_line (c ∷ s) = ground (arith, word-first_line s)

-- It stops in front of the newline.
discard_line-take_word :
    (width : ℕ) (s : List ℕ) → discard_line ((take_word width s).1) ≡ discard_line s
unfolding discard_line
discard_line-take_word zero s = refl
discard_line-take_word (suc width) [] = refl
discard_line-take_word (suc width) (c ∷ s) = ground (arith, discard_line-take_word width s)

-- What follows white space begins with none.
skip_space-head :
    (s : List ℕ) (c : ℕ) (rest : List ℕ) → skip_space s ≡ c ∷ rest → is_space c ≡ false
skip_space-head [] c rest h = cc
skip_space-head (d ∷ s) c rest h = elim (Bool-cases (is_space d)) [
  | inl space ↦ skip_space-head s c rest (rw space at h)
  | inr other ↦ ground (arith, other, rw other at h)
]

-- The first word of a line, as scanf takes it.
is_exit_line-take_word :
    (c : ℕ) (s : List ℕ)
    → is_space c ≡ false
    → is_exit_line (first_line (c ∷ s)) ≡ eq_bytes ((take_word 19 (c ∷ s)).0) (codes "exit")
is_exit_line-take_word c s no_space =
    let no_newline : (c == 10) ≡ false = ground (arith, no_space) in
    let line : first_line (c ∷ s) ≡ c ∷ first_line s = rw no_newline refl in
    let kept : skip_space (c ∷ first_line s) ≡ c ∷ first_line s = rw no_space refl in
    let same_word : word (skip_space (first_line (c ∷ s))) ≡ word (c ∷ s) =
      ap (λ l. word (skip_space l)) line ∙ ap word (kept ∙ sym line) ∙ word-first_line (c ∷ s) in
    ap (λ w. eq_bytes w (codes "exit")) same_word
    ∙ sym (take_word-word 19 (c ∷ s) (codes "exit") (omega arith))

-- What the loop does with the word of a line and with the lines behind it.
abbrev decided : List ℕ × List ℕ → Bool
decided (command, rest) =
    eq_bytes command (codes "exit")
    || elim (discard_line rest) [ none ↦ false | some next ↦ has_exit next ]

has_exit-take_word :
    (c : ℕ) (s : List ℕ) → is_space c ≡ false → has_exit (c ∷ s) ≡ decided (take_word 19 (c ∷ s))
has_exit-take_word c s no_space =
    let later =
      λ (next : Option (List ℕ)). elim next as (λ _. Bool) [ none ↦ false | some n ↦ has_exit n ] in
    has_exit-first (c ∷ s)
    ∙ ap (λ b. b || later (discard_line (c ∷ s))) (is_exit_line-take_word c s no_space)
    ∙ ap (λ next. eq_bytes ((take_word 19 (c ∷ s)).0) (codes "exit") || later next)
        (sym (discard_line-take_word 19 (c ∷ s)))

-- A line is read, or there is none.
has_exit-scan_command :
    (input : List ℕ)
    → has_exit input ≡ elim (scan_command input) [ none ↦ false | some read ↦ decided read ]
unfolding scan_command
has_exit-scan_command input = by_head (skip_space input) refl
  where
    by_head :
        (s : List ℕ)
        → skip_space input ≡ s
        → has_exit input ≡ elim (scan_command input) [ none ↦ false | some read ↦ decided read ]
    by_head [] h = sym (has_exit-skip_space input) ∙ ap has_exit h ∙ rw h refl
    by_head (c ∷ s) h =
        sym (has_exit-skip_space input)
        ∙ ap has_exit h
        ∙ has_exit-take_word c s (skip_space-head input c s h)
        ∙ rw h refl

-- With more fuel than the input has bytes, the loop of the command line never runs out of fuel:
-- it exits if some line of the input has exit as its first word, where white space may stand in
-- front, and otherwise it hangs at the end of the input.
pub cmd-has_exit :
    (fuel : ℕ) (input : List ℕ)
    → length input < fuel
    → cmd fuel input ≡ (if has_exit input then CommandLine.exits else CommandLine.hangs)
unfolding cmd
cmd-has_exit zero input lt = absurd (omega arith)
cmd-has_exit (suc fuel) input lt = elim (Option-cases (scan_command input)) [
  | inl at_end ↦ ground (arith, at_end, has_exit-scan_command input)
  | inr ((command, rest), scanned) ↦
      let seen = has_exit-scan_command input in
      elim (Bool-cases (eq_bytes command (codes "exit"))) [
        | inl is_exit ↦ ground (arith, scanned, is_exit, seen)
        | inr other ↦ elim (Option-cases (discard_line rest)) [
          | inl no_line ↦ ground (arith, scanned, other, no_line, seen)
          | inr (next, discarded) ↦
              let shorter : length next < fuel = omega (
                arith,
                lt,
                length-scan_command input command rest scanned,
                length-discard_line rest next discarded,
              ) in
              let later = cmd-has_exit fuel next shorter in
              ground (arith, scanned, other, discarded, seen, later)
        ]
      ]
]
